-- ===== src/Relay/Delivery/Close.antt =====
-- A socket's close unregisters it, and is told on its channel.
use telecode.Base.{
  ℕ, String, false, not, ◌≡◌, refl, sym, subst, ◌∙◌, some, [], append-nil, filter, length,
  Bool-cases, Option-cases, inl, inr, All, All-filter, ◌==◌, string_eq, nat_eq,
}
use mathlib.Core.Option.{some-injective}
use telecode.Base.Dict.{get, set, delete}
use telecode.Protocol.Payload.{Role, daemon, browser}
use telecode.Relay.Hub.{
  Peer, Hub, Environment, channel_key, notify_daemon_viewer_presence, presence_frame,
}
use telecode.Relay.Delivery.{
  All-get, All-set, All-delete, bound, IsRouted, IsOnChannel, broadcast-IsOnChannel,
  unchanged-IsOnChannel,
}
use telecode.Relay.Delivery.Hello.{notify-IsOnChannel}
use telecode.Relay.Socket.{daemon_left, browser_left, left_as, handle_close}

module _ (env : Environment) (socket : ℕ) (peer : Peer) (h : Hub)
    (r : IsRouted h.peers h.daemons h.browsers) where
  daemon_left-IsOnChannel : IsOnChannel peer.channel h (daemon_left env socket peer h)
  unfolding daemon_left
  daemon_left-IsOnChannel = elim (Option-cases (get peer.channel h.daemons)) [
    | inl g ↦ rw (g, daemon_left) (unchanged-IsOnChannel peer.channel h r)
    | inr (current, g) ↦ elim (Bool-cases (current == socket)) [
      | inr other ↦ rw (g, daemon_left, other) (unchanged-IsOnChannel peer.channel h r)
      | inl same ↦
          let gone = record h { daemons = delete peer.channel h.daemons } in
          let k : IsOnChannel peer.channel h gone = (
            record {
              identities = r.identities;
              daemons_bound =
                  All-delete (λ x. bound x.1 h.peers ≡ some x.0) peer.channel h.daemons
                    r.daemons_bound;
              browsers_bound = r.browsers_bound;
            },
            refl,
            ([], sym (append-nil h.sent), tt),
          ) in
          rw (g, daemon_left, same)
            (broadcast-IsOnChannel env peer.channel h
              (presence_frame peer.user_id peer.device_id false) gone k)
    ]
  ]

  browser_left-IsOnChannel :
      channel_key peer.user_id peer.device_id ≡ peer.channel
      → IsOnChannel peer.channel h (browser_left socket peer h)
  unfolding browser_left
  browser_left-IsOnChannel identity = elim (Option-cases (get peer.channel h.browsers)) [
    | inl g ↦ rw (g, browser_left) (unchanged-IsOnChannel peer.channel h r)
    | inr (sockets, g) ↦
        let left = filter (λ s. not (s == socket)) sockets in
        let h' = record h { browsers = set peer.channel left h.browsers } in
        let own =
          All-get (λ x. All (λ s. bound s h.peers ≡ some x.0) x.1) peer.channel sockets h.browsers
            r.browsers_bound g in
        let kept =
          All-filter (λ s. bound s h.peers ≡ some peer.channel) (λ s. not (s == socket)) sockets
            own in
        let k : IsOnChannel peer.channel h h' = (
          record {
            identities = r.identities;
            daemons_bound = r.daemons_bound;
            browsers_bound =
                All-set (λ x. All (λ s. bound s h.peers ≡ some x.0) x.1) peer.channel left
                  h.browsers kept r.browsers_bound;
          },
          refl,
          ([], sym (append-nil h.sent), tt),
        ) in
        elim (Bool-cases (length left == 0)) [
          | inr some_left ↦ rw (g, browser_left, some_left) k
          | inl last_left ↦
              let told =
                subst
                  (λ c.
                    IsOnChannel c h
                      (notify_daemon_viewer_presence peer.user_id peer.device_id false h'))
                  identity
                  (notify-IsOnChannel peer.user_id peer.device_id false h h'
                    (subst (λ c. IsOnChannel c h h') (sym identity) k)) in
              rw (g, browser_left, last_left) told
        ]
  ]

left_as-IsOnChannel :
    (env : Environment) (now socket : ℕ) (peer : Peer) (role : Role) (h : Hub)
    → IsRouted h.peers h.daemons h.browsers
    → channel_key peer.user_id peer.device_id ≡ peer.channel
    → IsOnChannel peer.channel h (left_as env now socket peer role h)
left_as-IsOnChannel env now socket peer daemon h r identity =
    daemon_left-IsOnChannel env socket peer h r
left_as-IsOnChannel env now socket peer browser h r identity =
    browser_left-IsOnChannel env socket peer h r identity

-- The close of a registered socket keeps every other registration on its channel, and what the relay
-- sends for it goes to sockets of the channel that it was bound to.
pub handle_close-IsOnChannel :
    (env : Environment) (now socket : ℕ) (channel : String) (h : Hub)
    → IsRouted h.peers h.daemons h.browsers
    → bound socket h.peers ≡ some channel
    → IsOnChannel channel h (handle_close env now socket h)
unfolding handle_close bound
handle_close-IsOnChannel env now socket channel h r b = elim (Option-cases (get socket h.peers)) [
  | inl g ↦ rw (g, handle_close) (unchanged-IsOnChannel channel h r)
  | inr (peer, g) ↦
      let identity : peer.channel ≡ channel_key peer.user_id peer.device_id =
        All-get (λ x. x.1.channel ≡ channel_key x.1.user_id x.1.device_id) socket peer h.peers
          r.identities g in
      let bound_to : bound socket h.peers ≡ some peer.channel = rw (g, bound) refl in
      let ours : peer.channel ≡ channel = some-injective peer.channel channel (sym bound_to ∙ b) in
      rw (g, handle_close)
        (subst (λ c. IsOnChannel c h (left_as env now socket peer peer.role h)) ours
          (left_as-IsOnChannel env now socket peer peer.role h r (sym identity)))
]
