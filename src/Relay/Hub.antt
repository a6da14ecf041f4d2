-- ===== src/Relay/Hub.antt =====
-- apps/relay/src/relay.ts: the state that the sockets share, and the frames that the relay sends.
use Prim.Native.String.{◌++◌ as append}
use telecode.Base.{
  ℕ, String, Bool, not, Option, none, some, List, [], ◌∷◌, ◌++◌, map, filter, string_eq,
}
use telecode.Base.Dict.{get, set}
use telecode.Protocol.Json.{Json, boolean, json_text, object, field, empty}
use telecode.Protocol.Message.{MessageType}
pub use telecode.Protocol.Envelope.{Envelope}
use telecode.Protocol.Payload.{Role}
use telecode.Protocol.Status.{SessionStatus}
use telecode.Sessions
use telecode.Sessions.Mutation.{Change, apply}
use telecode.Devices
use telecode.Relay.Cache.{Cache, replay_cache}

-- What the relay sends: a text that it received, or an envelope of its own.
pub data Frame : Type 0 where
  forwarded : (text : String) → Frame
  made : (envelope : Envelope) → Frame

-- `PeerState` once the socket has said hello.
pub record Peer : Type 0 where
  pub role : Role
  pub channel : String
  pub user_id : String
  pub device_id : String

-- The maps of `buildRelay`, the registries' tables, and what was sent, closed and pushed so far. A
-- socket is a number; one with no peer has not said hello.
pub record Hub : Type 0 where
  pub daemons : List (String × ℕ)
  pub browsers : List (String × List ℕ)
  pub peers : List (ℕ × Peer)
  pub cache : Cache
  pub sessions : Sessions.Table
  pub devices : Devices.Table
  pub sent : List (ℕ × Frame)
  pub closed : List (ℕ × ℕ)
  pub pushed : List (String × String)

-- What the relay does not compute itself.
pub record Environment : Type 0 where
  pub is_uuid : String → Bool
  pub uuid_value : String → ℕ
  pub stringify : Json → String
  pub verify_channel_token : String → Option String
  pub hash : String → String
  pub fails_to_receive : ℕ → Bool
  pub max_frames : ℕ
  pub max_sessions : ℕ

abbrev pub channel_key : String → String → String
channel_key user device = append user (append ":" device)

abbrev pub send : ℕ → Frame → Hub → Hub
send socket frame h = record h { sent = h.sent ++ (socket, frame) ∷ [] }

-- A browser that fails to receive is dropped from its channel.
unfoldable pub broadcast_to_browsers : Environment → String → Frame → Hub → Hub
unfolding get set
broadcast_to_browsers env channel frame h = elim (get channel h.browsers) [
  | none ↦ h
  | some watching ↦
      let reached = filter (λ b. not (env.fails_to_receive b)) watching in
      record h {
        browsers = set channel reached h.browsers;
        sent = h.sent ++ map (λ b. (b, frame)) reached;
      }
]

abbrev control : MessageType → String → String → Option String → Json → Envelope
control type user device session payload = record {
  user_id = user;
  device_id = device;
  session_id = session;
  type = type;
  nonce = "";
  status = none;
  sender_public_key = none;
  payload = payload;
}

abbrev online_payload : Bool → Json
online_payload online = object (field "online" (boolean online) empty)

abbrev pub presence_frame : String → String → Bool → Frame
presence_frame user device online =
    made (control MessageType.device_presence user device none (online_payload online))

abbrev pub viewer_presence_frame : String → String → Bool → Frame
viewer_presence_frame user device online =
    made (control MessageType.viewer_presence user device none (online_payload online))

abbrev pub hello_ack_frame : String → String → Frame
hello_ack_frame user device = made (control MessageType.hello_ack user device none (object empty))

abbrev pub link_pong_frame : String → String → Frame
link_pong_frame user device = made (control MessageType.link_pong user device none (object empty))

-- The payload's fields follow the cleartext status.
abbrev pub session_ended_frame : String → String → String → SessionStatus → Json → Frame
session_ended_frame user device session status payload =
    made (record (control MessageType.session_ended user device (some session) payload) {
      status = some status;
    })

abbrev pub announcement : MessageType → String → String → String → Json → Frame
announcement type user device session payload =
    made (control type user device (some session) payload)

abbrev pub relay_error_frame : String → String → String → String → Frame
relay_error_frame user device session regarding = made (
    control MessageType.relay_error user device (some session) (
      object (
        field "code" (json_text "device_offline") (field "regarding" (json_text regarding) empty))))

-- Tell the channel's daemon, if one is connected, whether any browser watches it.
unfoldable pub notify_daemon_viewer_presence : String → String → Bool → Hub → Hub
unfolding get
notify_daemon_viewer_presence user device online h =
    elim (get (channel_key user device) h.daemons) [
      | none ↦ h
      | some daemon ↦ send daemon (viewer_presence_frame user device online) h
    ]

-- Send the cached frames of a session to one browser of the channel.
unfoldable pub replay : String → String → ℕ → Hub → Hub
unfolding replay_cache
replay session channel browser h = record h {
  sent = h.sent ++ map (λ frame. (browser, forwarded frame)) (replay_cache session channel h.cache);
}

-- A write of the session registry.
unfoldable pub write_session : String → ℕ → Change → Hub → Hub
unfolding apply
write_session user now change h = record h { sessions = apply user now change h.sessions }
