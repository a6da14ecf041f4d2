-- ===== src/Relay/Delivery/Hello.antt =====
-- A hello registers a socket on the channel of its identity, and is answered on that channel.
use telecode.Base.{
  ℕ, String, Bool, true, not, ◌≡◌, refl, sym, ap, subst, ◌∙◌, Option, none, some, List, [], ◌∷◌,
  any, length, append-nil, if◌then◌else◌, Bool-cases, Option-cases, inl, inr, All, All-append,
  All-imp, ◌==◌, string_eq, nat_eq, nat_beq_iff, ==-self, ◌&&◌, ltb, is_some,
}
use telecode.Base.Dict.{get, set, has, get-set}
use telecode.Protocol.Payload.{Role, daemon, browser, hello_payload}
use telecode.Relay.Hub.{
  Envelope, Frame, Peer, Hub, Environment, channel_key, send, broadcast_to_browsers,
  notify_daemon_viewer_presence, presence_frame, viewer_presence_frame, hello_ack_frame,
}
use telecode.Relay.Delivery.{
  All-get, All-set, bound, IsRouted, IsSentOn, IsOnChannel, sent_more, broadcast-IsOnChannel,
  unchanged-IsOnChannel,
}
use telecode.Relay.Daemon.Route.{own_channel}
use telecode.Relay.Socket.{
  watching, add, bind_peer, touched, browser_admitted, daemon_admitted, daemon_joined,
  browser_joined, register_daemon, register_browser, greet, handle_hello,
}

bound-set :
    (s socket : ℕ) (p : Peer) (peers : List (ℕ × Peer))
    → bound s (set socket p peers) ≡ (if socket == s then some p.channel else bound s peers)
unfolding bound
bound-set s socket p peers = elim (Bool-cases (socket == s)) [
  | inl same ↦
      let at : get s (set socket p peers) ≡ some p = get-set socket s p peers ∙ rw same refl in
      rw (at, bound, same) refl
  | inr other ↦
      let at : get s (set socket p peers) ≡ get s peers =
        get-set socket s p peers ∙ rw other refl in
      rw (at, bound, other) refl
]

-- A socket that was bound stays bound when another says hello.
bound_still :
    (s socket : ℕ) (p : Peer) (peers : List (ℕ × Peer)) (channel : String)
    → bound socket peers ≡ none
    → bound s peers ≡ some channel
    → bound s (set socket p peers) ≡ some channel
bound_still s socket p peers channel free b =
    bound-set s socket p peers ∙ elim (Bool-cases (socket == s)) [
      | inl same ↦
          let at : socket ≡ s = (nat_beq_iff socket s).0 same in
          let clash : none ≡ some channel = sym free ∙ ap (λ x. bound x peers) at ∙ b in absurd (cc)
      | inr other ↦ rw other b
    ]

bound_now :
    (socket : ℕ) (p : Peer) (peers : List (ℕ × Peer))
    → bound socket (set socket p peers) ≡ some p.channel
bound_now socket p peers = bound-set socket socket p peers ∙ rw (==-self socket) refl

-- The routing, with a new peer that is not registered yet.
bind_peer-IsRouted :
    (socket : ℕ) (role : Role) (e : Envelope) (h : Hub)
    → bound socket h.peers ≡ none
    → IsRouted h.peers h.daemons h.browsers
    → IsRouted (bind_peer socket role e h).peers h.daemons h.browsers
bind_peer-IsRouted socket role e h free r =
    let peers = (bind_peer socket role e h).peers in
    let still = λ (s : ℕ) (c : String). bound_still s socket _ h.peers c free in
    record {
      identities =
          All-set (λ x. x.1.channel ≡ channel_key x.1.user_id x.1.device_id) socket _ h.peers refl
            r.identities;
      daemons_bound = All-imp (λ x b. still x.1 x.0 b) h.daemons r.daemons_bound;
      browsers_bound =
          All-imp (λ x b. All-imp (λ s c. still s x.0 c) x.1 b) h.browsers r.browsers_bound;
    }

add-All :
    (P : ℕ → Type 0) (socket : ℕ) (sockets : List ℕ)
    → P socket
    → All P sockets
    → All P (add socket sockets)
add-All P socket sockets p a = elim (Bool-cases (any (λ s. s == socket) sockets)) [
  | inl known ↦ rw (known, add) a
  | inr new ↦ rw (new, add) (All-append P sockets (socket ∷ []) a (p, tt))
]

watching-All :
    (channel : String) (h : Hub)
    → IsRouted h.peers h.daemons h.browsers
    → All (λ s. bound s h.peers ≡ some channel) (watching channel h)
watching-All channel h r = elim (Option-cases (get channel h.browsers)) [
  | inl g ↦ rw (g, watching) tt
  | inr (sockets, g) ↦
      rw (g, watching)
        (All-get (λ x. All (λ s. bound s h.peers ≡ some x.0) x.1) channel sockets h.browsers
          r.browsers_bound g)
]

pub notify-IsOnChannel :
    (user device : String) (online : Bool) (before h : Hub)
    → IsOnChannel (channel_key user device) before h
    → IsOnChannel
        (channel_key user device)
        before
        (notify_daemon_viewer_presence user device online h)
unfolding notify_daemon_viewer_presence
notify-IsOnChannel user device online before h k =
    elim (Option-cases (get (channel_key user device) h.daemons)) [
      | inl g ↦ rw (g, notify_daemon_viewer_presence) k
      | inr (d, g) ↦
          let own =
            All-get (λ x. bound x.1 before.peers ≡ some x.0) (channel_key user device) d h.daemons
              k.0.daemons_bound g in
          rw (g, notify_daemon_viewer_presence)
            (
              k.0,
              k.1,
              sent_more (channel_key user device) before.peers before.sent h.sent
                  ((d, viewer_presence_frame user device online) ∷ []) (own, tt) k.2,
            )
    ]

-- A frame to the socket that has just been bound.
answer-IsOnChannel :
    (channel : String) (socket : ℕ) (frame : Frame) (before h : Hub)
    → bound socket before.peers ≡ some channel
    → IsOnChannel channel before h
    → IsOnChannel channel before (send socket frame h)
answer-IsOnChannel channel socket frame before h b k =
    (k.0, k.1, sent_more channel before.peers before.sent h.sent ((socket, frame) ∷ []) (b, tt) k.2)

-- What a registration keeps: the routing, with what it sends on the new peer's channel.
abbrev IsRegistered : Envelope → Hub → Hub → Type 0
IsRegistered e before h =
    IsRouted h.peers h.daemons h.browsers × IsSentOn (own_channel e) h.peers before.sent h.sent

registered :
    (e : Envelope) (before h : Hub) → IsOnChannel (own_channel e) before h → IsRegistered e before h
registered e before h (r, p, s) = (
  subst (λ x. IsRouted x h.daemons h.browsers) (sym p) r,
  subst (λ x. IsSentOn (own_channel e) x before.sent h.sent) (sym p) s,
)

register_daemon-IsRegistered :
    (env : Environment) (socket : ℕ) (e : Envelope) (h : Hub)
    → bound socket h.peers ≡ none
    → IsRouted h.peers h.daemons h.browsers
    → IsRegistered e h (register_daemon env socket e h)
unfolding register_daemon
register_daemon-IsRegistered env socket e h free r =
    let channel = own_channel e in
    let bound_hub = record (bind_peer socket daemon e h) {
      daemons = set channel socket h.daemons;
    } in
    let b = bound_now socket _ h.peers in
    let r₁ = bind_peer-IsRouted socket daemon e h free r in
    let r₂ : IsRouted bound_hub.peers bound_hub.daemons bound_hub.browsers = record {
      identities = r₁.identities;
      daemons_bound =
          All-set (λ x. bound x.1 bound_hub.peers ≡ some x.0) channel socket h.daemons b
            r₁.daemons_bound;
      browsers_bound = r₁.browsers_bound;
    } in
    let acked =
      answer-IsOnChannel channel socket (hello_ack_frame e.user_id e.device_id) bound_hub bound_hub
        b (unchanged-IsOnChannel channel bound_hub r₂) in
    let frame = presence_frame e.user_id e.device_id true in
    let joined = daemon_joined socket e h in
    let told = broadcast_to_browsers env channel frame joined in
    registered e bound_hub (register_daemon env socket e h) (
      notify-IsOnChannel e.user_id e.device_id (ltb 0 (length (watching channel told))) bound_hub
        told (broadcast-IsOnChannel env channel bound_hub frame joined acked))

register_browser-IsRegistered :
    (socket : ℕ) (e : Envelope) (h : Hub)
    → bound socket h.peers ≡ none
    → IsRouted h.peers h.daemons h.browsers
    → IsRegistered e h (register_browser socket e h)
unfolding register_browser
register_browser-IsRegistered socket e h free r =
    let channel = own_channel e in
    let joined = browser_joined socket e h in
    let b = bound_now socket _ h.peers in
    let r₁ = bind_peer-IsRouted socket browser e h free r in
    let others =
      All-imp (λ s c. bound_still s socket _ h.peers channel free c) (watching channel h)
        (watching-All channel h r) in
    let r₂ : IsRouted joined.peers joined.daemons joined.browsers = record {
      identities = r₁.identities;
      daemons_bound = r₁.daemons_bound;
      browsers_bound =
          All-set (λ x. All (λ s. bound s joined.peers ≡ some x.0) x.1) channel _ h.browsers
            (add-All (λ s. bound s joined.peers ≡ some channel) socket (watching channel h) b
              others)
            r₁.browsers_bound;
    } in
    let start = unchanged-IsOnChannel channel joined r₂ in
    let noticed =
      if length (watching channel h) == 0
      then notify_daemon_viewer_presence e.user_id e.device_id true joined
      else joined in
    let k : IsOnChannel channel joined noticed =
      elim (Bool-cases (length (watching channel h) == 0)) [
        | inl first ↦
            rw (first, noticed) (notify-IsOnChannel e.user_id e.device_id true joined joined start)
        | inr later ↦ rw (later, noticed) start
      ] in
    let ack = hello_ack_frame e.user_id e.device_id in
    let presence = presence_frame e.user_id e.device_id (has channel noticed.daemons) in
    registered e joined (register_browser socket e h) (
      answer-IsOnChannel channel socket presence joined (send socket ack noticed) b
        (answer-IsOnChannel channel socket ack joined noticed b k))

refused : (e : Envelope) (h : Hub) → IsRouted h.peers h.daemons h.browsers → IsRegistered e h h
refused e h r = (r, ([], sym (append-nil h.sent), tt))

greet-IsRegistered :
    (env : Environment) (now : ℕ) (available : Bool) (socket : ℕ) (e : Envelope) (role : Role)
    (token : Option String) (h : Hub)
    → bound socket h.peers ≡ none
    → IsRouted h.peers h.daemons h.browsers
    → IsRegistered e h (greet env now available socket e role token h)
unfolding greet
greet-IsRegistered env now available socket e browser token h free r =
    elim (Bool-cases (browser_admitted env e token)) [
      | inl c ↦ rw c (register_browser-IsRegistered socket e h free r)
      | inr c ↦ rw c (refused e h r)
    ]
greet-IsRegistered env now available socket e daemon token h free r =
    elim (Bool-cases (not available && is_some token)) [
      | inl c ↦ rw c (refused e h r)
      | inr c ↦ elim (Bool-cases (daemon_admitted env e token h)) [
        | inl a ↦
            rw (c, a) (register_daemon-IsRegistered env socket e (touched e.device_id now h) free r)
        | inr a ↦ rw (c, a) (refused e h r)
      ]
    ]

-- A hello, admitted or refused, keeps every registered daemon and browser on the channel of its
-- identity, and whatever the relay sends for it goes to sockets of the channel that it names.
pub handle_hello-IsRegistered :
    (env : Environment) (now : ℕ) (available : Bool) (socket : ℕ) (e : Envelope) (h : Hub)
    → IsRouted h.peers h.daemons h.browsers
    → let h' = handle_hello env now available socket e h in
      IsRouted h'.peers h'.daemons h'.browsers × IsSentOn (own_channel e) h'.peers h.sent h'.sent
unfolding handle_hello bound
handle_hello-IsRegistered env now available socket e h r =
    elim (Option-cases (get socket h.peers)) [
      | inr (peer, g) ↦ rw (g, handle_hello) (refused e h r)
      | inl g ↦ elim (Option-cases (hello_payload e.payload)) [
        | inl p ↦ rw (g, handle_hello, p) (refused e h r)
        | inr ((role, token), p) ↦
            let free : bound socket h.peers ≡ none = rw (g, bound) refl in
            rw (g, handle_hello, p)
              (greet-IsRegistered env now available socket e role token h free r)
      ]
    ]
