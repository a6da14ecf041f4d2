-- ===== src/Relay/Socket.antt =====
-- apps/relay/src/relay.ts: a socket's hello, its later frames and its close. A frame arrives as its
-- text and what `parseEnvelope` makes of it.
use telecode.Base.{
  ℕ, String, Bool, true, false, not, ◌&&◌, Option, none, some, List, [], ◌∷◌, ◌++◌, if◌then◌else◌,
  any, filter, ltb, is_some, length, or_else, ◌==◌, string_eq, nat_eq,
}
use telecode.Base.Dict.{get, set, delete, has}
use telecode.Protocol.Message.{MessageType}
use telecode.Protocol.Payload.{Role, daemon, browser, hello_payload}
use telecode.Devices.{find_active_by_token_hash, touch_last_seen}
use telecode.Relay.Hub.{
  Envelope, Peer, Hub, Environment, channel_key, send, broadcast_to_browsers,
  notify_daemon_viewer_presence, presence_frame, hello_ack_frame, link_pong_frame,
}
use telecode.Relay.Browser.{route_from_browser}
use telecode.Relay.Daemon.Route.{route_from_daemon}

abbrev ws_close_unauthorized : ℕ
ws_close_unauthorized = 4001

abbrev ws_close_try_again : ℕ
ws_close_try_again = 4002

abbrev pub close_with : ℕ → ℕ → Hub → Hub
close_with socket code h = record h { closed = h.closed ++ (socket, code) ∷ [] }

-- A browser's channel token is for the user that the envelope names.
abbrev pub browser_admitted : Environment → Envelope → Option String → Bool
browser_admitted env e none = false
browser_admitted env e (some token) = elim (env.verify_channel_token token) [
  | none ↦ false
  | some user ↦ user == e.user_id
]

-- A daemon's device token is that of the active device that the envelope names.
unfoldable pub daemon_admitted : Environment → Envelope → Option String → Hub → Bool
unfolding find_active_by_token_hash
daemon_admitted env e none h = false
daemon_admitted env e (some token) h = elim (find_active_by_token_hash (env.hash token) h.devices) [
  | none ↦ false
  | some device ↦ device.user_id == e.user_id && device.id == e.device_id
]

abbrev pub bind_peer : ℕ → Role → Envelope → Hub → Hub
bind_peer socket role e h = record h {
  peers =
      set socket
        (record {
          role = role;
          channel = channel_key e.user_id e.device_id;
          user_id = e.user_id;
          device_id = e.device_id;
        })
        h.peers;
}

abbrev pub watching : String → Hub → List ℕ
watching channel h = or_else (get channel h.browsers) []

-- `Set.add`.
abbrev pub add : ℕ → List ℕ → List ℕ
add socket sockets = if any (λ s. s == socket) sockets then sockets else sockets ++ socket ∷ []

-- The daemon's socket is registered and its hello answered.
abbrev pub daemon_joined : ℕ → Envelope → Hub → Hub
daemon_joined socket e h =
    send socket (hello_ack_frame e.user_id e.device_id) (record (bind_peer socket daemon e h) {
      daemons = set (channel_key e.user_id e.device_id) socket h.daemons;
    })

unfoldable pub register_daemon : Environment → ℕ → Envelope → Hub → Hub
unfolding get set broadcast_to_browsers notify_daemon_viewer_presence
register_daemon env socket e h =
    let channel = channel_key e.user_id e.device_id in
    let told =
      broadcast_to_browsers env channel (presence_frame e.user_id e.device_id true)
        (daemon_joined socket e h) in
    notify_daemon_viewer_presence e.user_id e.device_id (ltb 0 (length (watching channel told)))
      told

abbrev pub browser_joined : ℕ → Envelope → Hub → Hub
browser_joined socket e h =
    let channel = channel_key e.user_id e.device_id in
    record (bind_peer socket browser e h) {
      browsers = set channel (add socket (watching channel h)) h.browsers;
    }

unfoldable pub register_browser : ℕ → Envelope → Hub → Hub
unfolding get set has notify_daemon_viewer_presence
register_browser socket e h =
    let channel = channel_key e.user_id e.device_id in
    let joined = browser_joined socket e h in
    let noticed =
      if length (watching channel h) == 0
      then notify_daemon_viewer_presence e.user_id e.device_id true joined
      else joined in
    send socket (presence_frame e.user_id e.device_id (has channel noticed.daemons))
      (send socket (hello_ack_frame e.user_id e.device_id) noticed)

abbrev pub touched : String → ℕ → Hub → Hub
touched device now h = record h { devices = touch_last_seen device now h.devices }

-- `available`: whether the lookup of the device answers.
unfoldable pub greet : Environment → ℕ → Bool → ℕ → Envelope → Role → Option String → Hub → Hub
unfolding register_daemon register_browser daemon_admitted touch_last_seen
greet env now available socket e browser token h =
    if browser_admitted env e token
    then register_browser socket e h
    else close_with socket ws_close_unauthorized h
greet env now available socket e daemon token h =
    if not available && is_some token
    then close_with socket ws_close_try_again h
    else if daemon_admitted env e token h
    then register_daemon env socket e (touched e.device_id now h)
    else close_with socket ws_close_unauthorized h

-- `handleHello`: a socket says hello once.
unfoldable pub handle_hello : Environment → ℕ → Bool → ℕ → Envelope → Hub → Hub
unfolding greet get hello_payload
handle_hello env now available socket e h = elim (get socket h.peers) [
  | some _ ↦ close_with socket ws_close_unauthorized h
  | none ↦ elim (hello_payload e.payload) [
    | none ↦ h
    | some (role, token) ↦ greet env now available socket e role token h
  ]
]

abbrev pub is_own : Envelope → Peer → Bool
is_own e peer = e.user_id == peer.user_id && e.device_id == peer.device_id

unfoldable pub by_role : Environment → ℕ → String → Role → ℕ → Envelope → String → Hub → Hub
unfolding route_from_browser route_from_daemon
by_role env now id browser socket e text h = route_from_browser env now id e text socket h
by_role env now id daemon socket e text h = route_from_daemon env now id e text h

unfoldable pub route :
    Environment → ℕ → String → Role → ℕ → MessageType → Envelope → String → Hub → Hub
unfolding by_role
route env now id role socket MessageType.link_ping e text h =
    send socket (link_pong_frame e.user_id e.device_id) h
route env now id role socket MessageType.link_pong e text h = h
route env now id role socket _ e text h = by_role env now id role socket e text h

-- A frame after the hello carries the identity of the socket's peer, or is dropped.
unfoldable pub handle_later : Environment → ℕ → String → ℕ → Envelope → String → Hub → Hub
unfolding route get
handle_later env now id socket e text h = elim (get socket h.peers) [
  | none ↦ h
  | some peer ↦ if is_own e peer then route env now id peer.role socket e.type e text h else h
]

abbrev pub is_hello : MessageType → Bool
is_hello MessageType.hello = true
is_hello _ = false

unfoldable pub handle_frame :
    Environment → ℕ → String → Bool → ℕ → Option Envelope → String → Hub → Hub
unfolding handle_hello handle_later
handle_frame env now id available socket none text h = h
handle_frame env now id available socket (some e) text h =
    if is_hello e.type
    then handle_hello env now available socket e h
    else handle_later env now id socket e text h

-- The channel's daemon is gone, unless another socket has taken its place.
unfoldable pub daemon_left : Environment → ℕ → Peer → Hub → Hub
unfolding get delete broadcast_to_browsers
daemon_left env socket peer h = elim (get peer.channel h.daemons) [
  | none ↦ h
  | some current ↦
      if current == socket
      then broadcast_to_browsers env peer.channel (presence_frame peer.user_id peer.device_id false)
          (record h { daemons = delete peer.channel h.daemons })
      else h
]

unfoldable pub browser_left : ℕ → Peer → Hub → Hub
unfolding get set notify_daemon_viewer_presence
browser_left socket peer h = elim (get peer.channel h.browsers) [
  | none ↦ h
  | some sockets ↦
      let left = filter (λ s. not (s == socket)) sockets in
      let h' = record h { browsers = set peer.channel left h.browsers } in
      if length left == 0
      then notify_daemon_viewer_presence peer.user_id peer.device_id false h'
      else h'
]

abbrev pub left_as : Environment → ℕ → ℕ → Peer → Role → Hub → Hub
left_as env now socket peer daemon h = touched peer.device_id now (daemon_left env socket peer h)
left_as env now socket peer browser h = browser_left socket peer h

-- The `close` handler; a closed socket has no more events.
unfoldable pub handle_close : Environment → ℕ → ℕ → Hub → Hub
unfolding daemon_left browser_left get touch_last_seen
handle_close env now socket h = elim (get socket h.peers) [
  | none ↦ h
  | some peer ↦ left_as env now socket peer peer.role h
]
