-- ===== src/Relay/Browser.antt =====
-- apps/relay/src/relay.ts: `routeFromBrowser`. The registry's writes succeed.
use telecode.Base.{ℕ, String, Option, none, some, string_eq}
use telecode.Base.Dict.{get}
use telecode.Protocol.Json.{Json, json_text, object, field, empty}
use telecode.Protocol.Message.{MessageType}
use telecode.Protocol.Status.{SessionStatus, EndStatus}
use telecode.Sessions.{NewSession}
use telecode.Sessions.Mutation.{creates, ends, runs}
use telecode.Relay.Hub.{
  Envelope, forwarded, made, Hub, Environment, channel_key, send, broadcast_to_browsers, replay,
  write_session, session_ended_frame, relay_error_frame,
}

-- UNDELIVERABLE_REPLY_TYPES, each with its name on the wire.
unfoldable pub undeliverable_reply : MessageType → Option String
undeliverable_reply MessageType.permission_decision = some "permission.decision"
undeliverable_reply MessageType.question_answer = some "question.answer"
undeliverable_reply MessageType.handover_answer = some "handover.answer"
undeliverable_reply MessageType.user_message = some "user.message"
undeliverable_reply MessageType.session_control = some "session.control"
undeliverable_reply MessageType.session_subscribe = some "session.subscribe"
undeliverable_reply MessageType.workspace_reap = some "workspace.reap"
undeliverable_reply MessageType.session_branch_switch = some "session.branch.switch"
undeliverable_reply MessageType.session_push = some "session.push"
undeliverable_reply _ = none

unfoldable pub send_undeliverable_reply : Envelope → ℕ → Hub → Hub
unfolding undeliverable_reply
send_undeliverable_reply e reply_to h = elim e.session_id [
  | none ↦ h
  | some session ↦ elim (undeliverable_reply e.type) [
    | none ↦ h
    | some regarding ↦ send reply_to (relay_error_frame e.user_id e.device_id session regarding) h
  ]
]

abbrev pub new_session : Envelope → NewSession
new_session e = record {
  user_id = e.user_id;
  device_id = e.device_id;
  origin = none;
  title = none;
  cwd = none;
  parent_session_id = none;
}

abbrev pub offline_payload : Json
offline_payload =
    object (field "status" (json_text "error") (field "error" (json_text "device offline") empty))

-- `session.launch`: the row is minted; without a daemon it is failed and the browsers are told.
unfoldable pub launch : Environment → ℕ → String → Envelope → Option ℕ → Hub → Hub
unfolding write_session broadcast_to_browsers
launch env now id e none h =
    broadcast_to_browsers env (channel_key e.user_id e.device_id)
      (session_ended_frame e.user_id e.device_id id SessionStatus.error offline_payload)
      (write_session e.user_id now (ends id EndStatus.error)
        (write_session e.user_id now (creates id (new_session e)) h))
launch env now id e (some daemon) h =
    send daemon
      (made (record {
        user_id = e.user_id;
        device_id = e.device_id;
        session_id = some id;
        type = MessageType.session_launch;
        nonce = e.nonce;
        status = none;
        sender_public_key = e.sender_public_key;
        payload = e.payload;
      }))
      (write_session e.user_id now (creates id (new_session e)) h)

unfoldable pub deliver : Envelope → String → ℕ → Option ℕ → Hub → Hub
unfolding send_undeliverable_reply
deliver e text reply_to none h = send_undeliverable_reply e reply_to h
deliver e text reply_to (some daemon) h = send daemon (forwarded text) h

abbrev pub resumed : ℕ → Envelope → Hub → Hub
resumed now e h = elim e.session_id [
  | none ↦ h
  | some session ↦ write_session e.user_id now (runs session) h
]

-- A human action resumes the session, if it can be delivered.
unfoldable pub deliver_action : ℕ → Envelope → String → ℕ → Option ℕ → Hub → Hub
unfolding deliver write_session
deliver_action now e text reply_to none h = deliver e text reply_to none h
deliver_action now e text reply_to (some daemon) h =
    deliver e text reply_to (some daemon) (resumed now e h)

unfoldable pub replayed : Envelope → ℕ → Hub → Hub
unfolding replay
replayed e reply_to h = elim e.session_id [
  | none ↦ h
  | some session ↦ replay session (channel_key e.user_id e.device_id) reply_to h
]

unfoldable pub by_browser_type :
    Environment → ℕ → String → MessageType → Envelope → String → ℕ → Option ℕ → Hub → Hub
unfolding replayed launch deliver deliver_action
by_browser_type env now id MessageType.session_subscribe e text reply_to daemon h =
    deliver e text reply_to daemon (replayed e reply_to h)
by_browser_type env now id MessageType.session_launch e text reply_to daemon h =
    launch env now id e daemon h
by_browser_type env now id MessageType.viewer_presence e text reply_to daemon h = h
by_browser_type env now id MessageType.device_presence e text reply_to daemon h = h
by_browser_type env now id MessageType.relay_error e text reply_to daemon h = h
by_browser_type env now id MessageType.session_title e text reply_to daemon h = h
by_browser_type env now id MessageType.permission_decision e text reply_to daemon h =
    deliver_action now e text reply_to daemon h
by_browser_type env now id MessageType.question_answer e text reply_to daemon h =
    deliver_action now e text reply_to daemon h
by_browser_type env now id MessageType.user_message e text reply_to daemon h =
    deliver_action now e text reply_to daemon h
by_browser_type env now id _ e text reply_to daemon h = deliver e text reply_to daemon h

unfoldable pub route_from_browser : Environment → ℕ → String → Envelope → String → ℕ → Hub → Hub
unfolding by_browser_type get
route_from_browser env now id e text reply_to h =
    by_browser_type env now id e.type e text reply_to
      (get (channel_key e.user_id e.device_id) h.daemons) h
