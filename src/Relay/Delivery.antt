-- ===== src/Relay/Delivery.antt =====
-- The relay delivers the frames of a socket on the socket's own channel alone.
pub mod Hello
pub mod Close
use telecode.Base.{
  ℕ, String, Bool, true, false, not, ◌≡◌, refl, sym, ap, ap₂, subst, ◌∙◌, Option, none, some, List,
  [], ◌∷◌, ◌++◌, map, filter, any, append_assoc, append-nil, if◌then◌else◌, arith, Bool-cases,
  Option-cases, inl, inr, All, All-append, All-filter, ◌==◌, Eq, ==_iff, string_eq, nat_eq, eq_iff,
  ◌&&◌,
}
use mathlib.Core.Option.{some-injective}
use telecode.Base.Dict.{get, set, delete}
use telecode.Protocol.Payload.{Role}
use telecode.Sessions.Consistent.{has_id}
use telecode.Relay.Cache.{replay_cache}
use telecode.Relay.Hub.{
  Envelope, Frame, forwarded, Peer, Hub, Environment, channel_key, send, broadcast_to_browsers,
  write_session, replay,
}
use telecode.Relay.Daemon.Route.{cache, own_channel}
use telecode.Relay.Effects.{IsClosed}
use telecode.Relay.Effects.Daemon.{route-Kept}
use telecode.Relay.Socket.{is_own, route, handle_later}

module _ {K V : Type 0} ⦃e : Eq K⦄ (P : K × V → Type 0) where
  pub All-get : (k : K) (v : V) (m : List (K × V)) → All P m → get k m ≡ some v → P (k, v)
  unfolding get
  All-get k v [] a h = cc
  All-get k v ((j, w) ∷ m) a h = elim (Bool-cases (j == k)) [
    | inl same ↦
        let at : j ≡ k = (==_iff j k).0 same in
        let found : w ≡ v = some-injective w v (rw same at h) in
        subst (λ x. P (x, v)) at (subst (λ x. P (j, x)) found a.0)
    | inr other ↦ All-get k v m a.1 (rw other at h)
  ]

  pub All-set : (k : K) (v : V) (m : List (K × V)) → P (k, v) → All P m → All P (set k v m)
  unfolding set
  All-set k v [] p a = (p, tt)
  All-set k v ((j, w) ∷ m) p a = elim (Bool-cases (j == k)) [
    | inl same ↦ rw same (p, a.1)
    | inr other ↦ rw other (a.0, All-set k v m p a.1)
  ]

  pub All-delete : (k : K) (m : List (K × V)) → All P m → All P (delete k m)
  unfolding delete
  All-delete k [] a = tt
  All-delete k ((j, w) ∷ m) a = elim (Bool-cases (j == k)) [
    | inl same ↦ rw same (All-delete k m a.1)
    | inr other ↦ rw other (a.0, All-delete k m a.1)
  ]

-- The channel that a socket's hello has bound it to.
unfoldable pub bound : ℕ → List (ℕ × Peer) → Option String
unfolding get
bound socket peers = elim (get socket peers) [ none ↦ none | some p ↦ some p.channel ]

-- The registered daemons and browsers are sockets that are bound to the channel they stand under,
-- and a bound channel is that of the peer's identity.
pub record IsRouted (peers : List (ℕ × Peer)) (daemons : List (String × ℕ))
    (browsers : List (String × List ℕ)) : Type 0 where
  pub identities : All (λ x. x.1.channel ≡ channel_key x.1.user_id x.1.device_id) peers
  pub daemons_bound : All (λ x. bound x.1 peers ≡ some x.0) daemons
  pub browsers_bound : All (λ x. All (λ s. bound s peers ≡ some x.0) x.1) browsers

-- What was sent since is addressed to sockets on the channel.
abbrev pub IsSentOn : String → List (ℕ × Peer) → List (ℕ × Frame) → List (ℕ × Frame) → Type 0
IsSentOn channel peers before after =
    (new : List (ℕ × Frame)) × (after ≡ before ++ new)
    × All (λ x. bound x.0 peers ≡ some channel) new

pub sent_more :
    (channel : String) (peers : List (ℕ × Peer)) (before after more : List (ℕ × Frame))
    → All (λ x. bound x.0 peers ≡ some channel) more
    → IsSentOn channel peers before after
    → IsSentOn channel peers before (after ++ more)
sent_more channel peers before after more a (new, e, b) = (
  new ++ more,
  ap (λ x. x ++ more) e ∙ append_assoc before new more,
  All-append (λ x. bound x.0 peers ≡ some channel) new more b a,
)

addressed :
    (channel : String) (peers : List (ℕ × Peer)) (frame : Frame) (sockets : List ℕ)
    → All (λ s. bound s peers ≡ some channel) sockets
    → All {A = ℕ × Frame} (λ x. bound x.0 peers ≡ some channel) (map (λ s. (s, frame)) sockets)
addressed channel peers frame [] a = tt
addressed channel peers frame (s ∷ sockets) a = (a.0, addressed channel peers frame sockets a.1)

addressed_to :
    (channel : String) (peers : List (ℕ × Peer)) (socket : ℕ) (frames : List String)
    → bound socket peers ≡ some channel
    → All {A = ℕ × Frame}
        (λ x. bound x.0 peers ≡ some channel)
        (map (λ f. (socket, forwarded f)) frames)
addressed_to channel peers socket [] b = tt
addressed_to channel peers socket (f ∷ frames) b = (b, addressed_to channel peers socket frames b)

-- What the effects of a frame on a channel keep, from the state `before`.
abbrev pub IsOnChannel : String → Hub → Hub → Type 0
IsOnChannel channel before h =
    IsRouted before.peers h.daemons h.browsers
    × (h.peers ≡ before.peers)
    × IsSentOn channel before.peers before.sent h.sent

module _ (env : Environment) (channel : String) (before : Hub) where
  pub broadcast-IsOnChannel :
      (frame : Frame) (h : Hub)
      → IsOnChannel channel before h
      → IsOnChannel channel before (broadcast_to_browsers env channel frame h)
  unfolding broadcast_to_browsers
  broadcast-IsOnChannel frame h (r, p, s) = elim (Option-cases (get channel h.browsers)) [
    | inl g ↦ rw (g, broadcast_to_browsers) (r, p, s)
    | inr (sockets, g) ↦
        let own =
          All-get (λ x. All (λ s. bound s before.peers ≡ some x.0) x.1) channel sockets h.browsers
            r.browsers_bound g in
        let kept =
          All-filter (λ s. bound s before.peers ≡ some channel) (λ b. not (env.fails_to_receive b))
            sockets own in
        rw (g, broadcast_to_browsers)
          (
            record {
              identities = r.identities;
              daemons_bound = r.daemons_bound;
              browsers_bound =
                  All-set (λ x. All (λ s. bound s before.peers ≡ some x.0) x.1) channel _ h.browsers
                    kept r.browsers_bound;
            },
            p,
            sent_more channel before.peers before.sent h.sent _
                (addressed channel before.peers frame _ kept) s,
          )
  ]

IsOnChannel-IsClosed :
    (env : Environment) (e : Envelope) (sender : ℕ) (before : Hub)
    → bound sender before.peers ≡ some (own_channel e)
    → IsClosed env e sender (IsOnChannel (own_channel e) before)
unfolding cache replay write_session
IsOnChannel-IsClosed env e sender before b = record {
  writes = λ now c h fresh k. k;
  tells = λ frame h. broadcast-IsOnChannel env (own_channel e) before frame h;
  reaches = λ receiver frame h g k.
      let own =
        All-get (λ x. bound x.1 before.peers ≡ some x.0) (own_channel e) receiver h.daemons
          k.0.daemons_bound g in
      (
        k.0,
        k.1,
        sent_more (own_channel e) before.peers before.sent h.sent ((receiver, frame) ∷ []) (own, tt)
            k.2,
      );
  answers = λ frame h k. (
    k.0,
    k.1,
    sent_more (own_channel e) before.peers before.sent h.sent ((sender, frame) ∷ []) (b, tt) k.2,
  );
  caches = λ session type text h k. k;
  pushes = λ session h k. k;
  replays = λ session h k. (
    k.0,
    k.1,
    sent_more (own_channel e) before.peers before.sent h.sent _
        (addressed_to (own_channel e) before.peers sender
          (replay_cache session (own_channel e) h.cache) b)
        k.2,
  );
}

pub unchanged-IsOnChannel :
    (channel : String) (h : Hub) → IsRouted h.peers h.daemons h.browsers → IsOnChannel channel h h
unchanged-IsOnChannel channel h r = (r, refl, ([], sym (append-nil h.sent), tt))

-- A frame after the hello, whatever it says, is delivered on the channel that the sender's hello was
-- admitted to: every frame that the relay sends for it goes to a socket of that channel, and the
-- registered sockets stay those of their channels. The id for a new row is fresh.
pub handle_later-IsOnChannel :
    (env : Environment) (now : ℕ) (id : String) (socket : ℕ) (e : Envelope) (text channel : String)
    (h : Hub)
    → IsRouted h.peers h.daemons h.browsers
    → bound socket h.peers ≡ some channel
    → any (has_id id) h.sessions ≡ false
    → IsOnChannel channel h (handle_later env now id socket e text h)
unfolding handle_later bound
handle_later-IsOnChannel env now id socket e text channel h r b fresh =
    elim (Option-cases (get socket h.peers)) [
      | inl g ↦ rw (g, handle_later) (unchanged-IsOnChannel channel h r)
      | inr (peer, g) ↦ elim (Bool-cases (is_own e peer)) [
        | inr o ↦ rw (g, handle_later, o) (unchanged-IsOnChannel channel h r)
        | inl o ↦
            let user : e.user_id ≡ peer.user_id = ground (arith, eq_iff e.user_id peer.user_id) in
            let device : e.device_id ≡ peer.device_id =
              ground (arith, eq_iff e.device_id peer.device_id) in
            let identity : peer.channel ≡ channel_key peer.user_id peer.device_id =
              All-get (λ x. x.1.channel ≡ channel_key x.1.user_id x.1.device_id) socket peer h.peers
                r.identities g in
            let bound_to : bound socket h.peers ≡ some peer.channel = rw (g, bound) refl in
            let ours : own_channel e ≡ channel =
              ap₂ channel_key user device
              ∙ sym identity
              ∙ some-injective peer.channel channel (sym bound_to ∙ b) in
            rw (g, handle_later, o)
              (subst (λ c. IsOnChannel c h (route env now id peer.role socket e.type e text h)) ours
                (route-Kept env e socket (IsOnChannel (own_channel e) h)
                  (IsOnChannel-IsClosed env e socket h (b ∙ ap some (sym ours))) now id peer.role
                  e.type text h fresh (unchanged-IsOnChannel (own_channel e) h r)))
      ]
    ]
