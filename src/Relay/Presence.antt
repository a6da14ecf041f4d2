-- ===== src/Relay/Presence.antt =====
-- Whether the channel counts as online over a daemon's reconnection.
use telecode.Base.{
  ℕ, String, Bool, true, false, ◌≡◌, refl, ap, ◌∙◌, Option, none, some, length, ltb, Option-cases,
  inl, inr, ◌==◌, string_eq, nat_eq, ==-self,
}
use telecode.Base.Dict.{get, get-set}
use telecode.Protocol.Payload.{daemon, hello_payload}
use telecode.Relay.Hub.{
  Envelope, Frame, Peer, Hub, Environment, channel_key, broadcast_to_browsers,
  notify_daemon_viewer_presence, presence_frame,
}
use telecode.Relay.Daemon.Route.{own_channel}
use telecode.Relay.Socket.{
  watching, touched, daemon_admitted, daemon_joined, register_daemon, greet, handle_hello,
  daemon_left, handle_close,
}

-- The frames that the relay sends register and unregister no daemon and no peer.
abbrev SameSockets : Hub → Hub → Type 0
SameSockets h h' = (h'.daemons ≡ h.daemons) × (h'.peers ≡ h.peers)

broadcast-SameSockets :
    (env : Environment) (channel : String) (frame : Frame) (h : Hub)
    → SameSockets h (broadcast_to_browsers env channel frame h)
unfolding broadcast_to_browsers
broadcast-SameSockets env channel frame h = elim (Option-cases (get channel h.browsers)) [
  | inl g ↦ rw (g, broadcast_to_browsers) (refl, refl)
  | inr (b, g) ↦ rw (g, broadcast_to_browsers) (refl, refl)
]

notify-SameSockets :
    (user device : String) (online : Bool) (h : Hub)
    → SameSockets h (notify_daemon_viewer_presence user device online h)
unfolding notify_daemon_viewer_presence
notify-SameSockets user device online h =
    elim (Option-cases (get (channel_key user device) h.daemons)) [
      | inl g ↦ rw (g, notify_daemon_viewer_presence) (refl, refl)
      | inr (d, g) ↦ rw (g, notify_daemon_viewer_presence) (refl, refl)
    ]

register_daemon-SameSockets :
    (env : Environment) (socket : ℕ) (e : Envelope) (h : Hub)
    → SameSockets (daemon_joined socket e h) (register_daemon env socket e h)
unfolding register_daemon
register_daemon-SameSockets env socket e h =
    let frame = presence_frame e.user_id e.device_id true in
    let joined = daemon_joined socket e h in
    let told = broadcast_to_browsers env (own_channel e) frame joined in
    let (d, p) = broadcast-SameSockets env (own_channel e) frame joined in
    let (d', p') =
      notify-SameSockets e.user_id e.device_id (ltb 0 (length (watching (own_channel e) told)))
        told in
    (d' ∙ d, p' ∙ p)

-- An admitted daemon's hello takes the channel and leaves the other peers.
handle_hello-takes :
    (env : Environment) (now : ℕ) (socket : ℕ) (e : Envelope) (token : Option String) (h : Hub)
    → get socket h.peers ≡ none
    → hello_payload e.payload ≡ some (daemon, token)
    → daemon_admitted env e token h ≡ true
    → SameSockets (daemon_joined socket e h) (handle_hello env now true socket e h)
unfolding handle_hello greet
handle_hello-takes env now socket e token h free p a =
    rw (free, handle_hello, p, a)
      (register_daemon-SameSockets env socket e (touched e.device_id now h))

-- The close of a daemon's socket that another has replaced sends nothing and unregisters nothing.
handle_close_replaced :
    (env : Environment) (now socket current : ℕ) (peer : Peer) (h : Hub)
    → get socket h.peers ≡ some peer
    → peer.role ≡ daemon
    → get peer.channel h.daemons ≡ some current
    → (current == socket) ≡ false
    → ((handle_close env now socket h).daemons ≡ h.daemons)
      × ((handle_close env now socket h).sent ≡ h.sent)
unfolding handle_close daemon_left
handle_close_replaced env now socket current peer h g role d other =
    rw (g, handle_close, role, d, daemon_left, other) (refl, refl)

-- A daemon reconnects before the relay has noticed that its old socket is gone: the new socket says
-- hello with a token of the device, then the old one closes. The channel's daemon is then the new
-- socket, and the close has told nobody that the device is offline.
pub reconnection_stays_online :
    (env : Environment) (now later old socket : ℕ) (e : Envelope) (token : Option String)
    (peer : Peer) (h : Hub)
    → get old h.peers ≡ some peer
    → peer.role ≡ daemon
    → peer.channel ≡ channel_key e.user_id e.device_id
    → (socket == old) ≡ false
    → get socket h.peers ≡ none
    → hello_payload e.payload ≡ some (daemon, token)
    → daemon_admitted env e token h ≡ true
    → let h' = handle_hello env now true socket e h in
      (get peer.channel (handle_close env later old h').daemons ≡ some socket)
      × ((handle_close env later old h').sent ≡ h'.sent)
reconnection_stays_online env now later old socket e token peer h g role at other free p a =
    let h' = handle_hello env now true socket e h in
    let (d, ps) = handle_hello-takes env now socket e token h free p a in
    let current : get peer.channel h'.daemons ≡ some socket =
      ap (get peer.channel) d
      ∙ get-set (own_channel e) peer.channel socket h.daemons
      ∙ rw (at, ==-self (own_channel e)) refl in
    let still : get old h'.peers ≡ some peer =
      ap (get old) ps ∙ get-set socket old _ h.peers ∙ rw other g in
    let (same, silent) =
      handle_close_replaced env later old socket peer h' still role current other in
    (ap (get peer.channel) same ∙ current, silent)
