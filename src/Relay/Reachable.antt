-- ===== src/Relay/Reachable.antt =====
-- The states that the relay reaches from its start, by frames and closes of its sockets in any order.
use telecode.Base.{
  ℕ, String, Bool, false, ◌≡◌, refl, sym, subst, Option, none, some, not, filter, length, ◌==◌, [],
  any, Bool-cases, Option-cases, inl, inr, nat_eq, string_eq,
}
use telecode.Base.Dict.{get, set, delete}
use telecode.Sessions.Consistent.{IsConsistent, has_id}
use telecode.Sessions.Invariant.{apply-IsConsistent}
use telecode.Devices
use telecode.Protocol.Payload.{Role, daemon, browser}
use telecode.Relay.Hub.{Envelope, Peer, Hub, Environment, presence_frame, write_session, replay}
use telecode.Relay.Daemon.Route.{cache, own_channel}
use telecode.Relay.Effects.{IsClosed}
use telecode.Relay.Effects.Daemon.{route-Kept}
use telecode.Relay.Isolation.Frames.{broadcast-sessions, notify-sessions, handle_hello-sessions}
use telecode.Relay.Delivery.{bound, IsRouted, IsOnChannel, handle_later-IsOnChannel}
use telecode.Relay.Delivery.Hello.{handle_hello-IsRegistered}
use telecode.Relay.Delivery.Close.{handle_close-IsOnChannel}
use telecode.Relay.Socket.{
  is_own, is_hello, handle_later, handle_frame, handle_close, left_as, daemon_left, browser_left,
}

-- A relay that has just started on a table of devices: no socket, and no session yet.
abbrev pub started : Devices.Table → Hub
started devices = record {
  daemons = [];
  browsers = [];
  peers = [];
  cache = [];
  sessions = [];
  devices = devices;
  sent = [];
  closed = [];
  pushed = [];
}

-- Ids for new rows are random, so they are taken to be fresh.
pub data Reachable (env : Environment) : Hub → Type 0 where
  starts : (devices : Devices.Table) → Reachable env (started devices)
  receives :
      (now : ℕ) (id : String) (available : Bool) (socket : ℕ) (parsed : Option Envelope)
      (text : String) (h : Hub)
      → any (has_id id) h.sessions ≡ false
      → Reachable env h
      → Reachable env (handle_frame env now id available socket parsed text h)
  loses :
      (now socket : ℕ) (h : Hub) → Reachable env h → Reachable env (handle_close env now socket h)

pub record IsSound (h : Hub) : Type 0 where
  pub routed : IsRouted h.peers h.daemons h.browsers
  pub consistent : IsConsistent h.sessions

keeps_routing :
    (channel : String) (before h : Hub)
    → IsOnChannel channel before h
    → IsRouted h.peers h.daemons h.browsers
keeps_routing channel before h (r, p, s) = subst (λ x. IsRouted x h.daemons h.browsers) (sym p) r

IsConsistent-IsClosed :
    (env : Environment) (e : Envelope) (sender : ℕ)
    → IsClosed env e sender (λ h. IsConsistent h.sessions)
unfolding cache replay write_session
IsConsistent-IsClosed env e sender = record {
  writes = λ now c h fresh k. apply-IsConsistent e.user_id now c h.sessions fresh k;
  tells = λ frame h k. subst IsConsistent (sym (broadcast-sessions env (own_channel e) frame h)) k;
  reaches = λ receiver frame h g k. k;
  answers = λ frame h k. k;
  caches = λ session type text h k. k;
  pushes = λ session h k. k;
  replays = λ session h k. k;
}

handle_later-IsSound :
    (env : Environment) (now : ℕ) (id : String) (socket : ℕ) (e : Envelope) (text : String)
    (h : Hub)
    → any (has_id id) h.sessions ≡ false
    → IsSound h
    → IsSound (handle_later env now id socket e text h)
unfolding handle_later bound
handle_later-IsSound env now id socket e text h fresh v = elim (Option-cases (get socket h.peers)) [
  | inl g ↦ rw (g, handle_later) v
  | inr (peer, g) ↦ elim (Bool-cases (is_own e peer)) [
    | inr o ↦ rw (g, handle_later, o) v
    | inl o ↦
        let to : bound socket h.peers ≡ some peer.channel = rw (g, bound) refl in
        record {
          routed =
              keeps_routing peer.channel h (handle_later env now id socket e text h) (
                handle_later-IsOnChannel env now id socket e text peer.channel h v.routed to fresh);
          consistent =
              rw (g, handle_later, o)
                (route-Kept env e socket (λ x. IsConsistent x.sessions)
                  (IsConsistent-IsClosed env e socket) now id peer.role e.type text h fresh
                  v.consistent);
        }
  ]
]

daemon_left-sessions :
    (env : Environment) (socket : ℕ) (peer : Peer) (h : Hub)
    → (daemon_left env socket peer h).sessions ≡ h.sessions
unfolding daemon_left
daemon_left-sessions env socket peer h = elim (Option-cases (get peer.channel h.daemons)) [
  | inl g ↦ rw (g, daemon_left) refl
  | inr (current, g) ↦ elim (Bool-cases (current == socket)) [
    | inr other ↦ rw (g, daemon_left, other) refl
    | inl same ↦
        rw (g, daemon_left, same)
          (broadcast-sessions env peer.channel (presence_frame peer.user_id peer.device_id false)
            (record h { daemons = delete peer.channel h.daemons }))
  ]
]

browser_left-sessions :
    (socket : ℕ) (peer : Peer) (h : Hub) → (browser_left socket peer h).sessions ≡ h.sessions
unfolding browser_left
browser_left-sessions socket peer h = elim (Option-cases (get peer.channel h.browsers)) [
  | inl g ↦ rw (g, browser_left) refl
  | inr (sockets, g) ↦
      let left = filter (λ s. not (s == socket)) sockets in
      let h' = record h { browsers = set peer.channel left h.browsers } in
      elim (Bool-cases (length left == 0)) [
        | inr some_left ↦ rw (g, browser_left, some_left) refl
        | inl last_left ↦
            rw (g, browser_left, last_left) (notify-sessions peer.user_id peer.device_id false h')
      ]
]

left_as-sessions :
    (env : Environment) (now socket : ℕ) (peer : Peer) (role : Role) (h : Hub)
    → (left_as env now socket peer role h).sessions ≡ h.sessions
left_as-sessions env now socket peer daemon h = daemon_left-sessions env socket peer h
left_as-sessions env now socket peer browser h = browser_left-sessions socket peer h

handle_close-IsSound :
    (env : Environment) (now socket : ℕ) (h : Hub)
    → IsSound h
    → IsSound (handle_close env now socket h)
unfolding handle_close bound
handle_close-IsSound env now socket h v = elim (Option-cases (get socket h.peers)) [
  | inl g ↦ rw (g, handle_close) v
  | inr (peer, g) ↦
      let to : bound socket h.peers ≡ some peer.channel = rw (g, bound) refl in
      record {
        routed =
            keeps_routing peer.channel h (handle_close env now socket h)
              (handle_close-IsOnChannel env now socket peer.channel h v.routed to);
        consistent =
            rw (g, handle_close)
              (subst IsConsistent (sym (left_as-sessions env now socket peer peer.role h))
                v.consistent);
      }
]

-- In every state that the relay reaches, each registered daemon and browser is a socket that its
-- hello has bound to the channel it is registered on, the channel of a bound socket is that of its
-- identity, and the sessions table is consistent.
pub Reachable-IsSound : (env : Environment) (h : Hub) → Reachable env h → IsSound h
unfolding handle_frame
Reachable-IsSound env _ (starts devices) = record {
  routed = record { identities = tt; daemons_bound = tt; browsers_bound = tt };
  consistent = record { shelved = tt; linked = tt; unique = tt };
}
Reachable-IsSound env _ (receives now id available socket none text h fresh p) =
    Reachable-IsSound env h p
Reachable-IsSound env _ (receives now id available socket (some e) text h fresh p) =
    let v = Reachable-IsSound env h p in
    elim (Bool-cases (is_hello e.type)) [
      | inl t ↦ rw t (record {
        routed = (handle_hello-IsRegistered env now available socket e h v.routed).0;
        consistent =
            subst IsConsistent (sym (handle_hello-sessions env now available socket e h))
              v.consistent;
      })
      | inr t ↦ rw t (handle_later-IsSound env now id socket e text h fresh v)
    ]
Reachable-IsSound env _ (loses now socket h p) =
    handle_close-IsSound env now socket h (Reachable-IsSound env h p)
