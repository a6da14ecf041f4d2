-- ===== src/Relay/Daemon.antt =====
-- apps/relay/src/relay.ts: the handlers that `routeFromDaemon` calls, `reconcileSessions` among them.
-- The registry's writes succeed.
pub mod Route
use telecode.Base.{
  ℕ, String, Bool, true, false, not, ◌&&◌, ◌||◌, Option, none, some, List, [], ◌∷◌, ◌++◌,
  if◌then◌else◌, any, filter, leb, ltb, or_else, ◌==◌, string_eq,
}
use telecode.Base.Dict.{get}
use telecode.Base.Text.{units}
use telecode.Protocol.Json.{Json, Fields, json_text, object, field, empty}
use telecode.Protocol.Message.{MessageType}
use telecode.Protocol.Payload.{
  Adopted, Reported, running, waiting_local, reconcile_payload, adopted_payload, chained_payload,
  ended_payload, status_payload, meta_payload,
}
use telecode.Protocol.Status.{SessionStatus, SessionOrigin, EndStatus, end_status_of}
use telecode.Sessions.{Row, NewSession}
use telecode.Sessions.Mutation.{
  Change, creates, ends, runs, waits_locally, awaits_input, seals_meta,
}
use telecode.Sessions.Pages.{list_by_user}
use telecode.Relay.Cache.{is_cacheable, cache_frame}
use telecode.Relay.Hub.{
  Envelope, Frame, forwarded, Hub, Environment, channel_key, send, broadcast_to_browsers,
  write_session, session_ended_frame, announcement,
}

unfoldable pub resolve_ended_status : Envelope → EndStatus
unfolding end_status_of ended_payload
resolve_ended_status e = elim e.status [
  | some status ↦ or_else (end_status_of status) (or_else (ended_payload e.payload) EndStatus.done)
  | none ↦ or_else (ended_payload e.payload) EndStatus.done
]

unfoldable pub resolve_reported_status : Envelope → Option Reported
unfolding status_payload
resolve_reported_status e = elim e.status [
  | none ↦ status_payload e.payload
  | some SessionStatus.running ↦ some running
  | some SessionStatus.waiting_local ↦ some waiting_local
  | some _ ↦ none
]

-- MAX_SEALED_BLOB_CHARS and MAX_SEALED_BLOB_NONCE_CHARS.
abbrev pub max_sealed_blob_chars : ℕ
max_sealed_blob_chars = 8192

abbrev pub max_sealed_blob_nonce_chars : ℕ
max_sealed_blob_nonce_chars = 64

sealed_text : Json → Option String
unfolding units
sealed_text (json_text s) = if leb (units s) max_sealed_blob_chars then some s else none
sealed_text _ = none

bounded_json : (Json → String) → Option Json → Option String
unfolding units
bounded_json stringify none = none
bounded_json stringify (some j) =
    if leb (units (stringify j)) max_sealed_blob_chars then some (stringify j) else none

unfoldable pub storable_sealed_meta : (Json → String) → Envelope → Option String
unfolding sealed_text bounded_json meta_payload units
storable_sealed_meta stringify e =
    if ltb max_sealed_blob_nonce_chars (units e.nonce)
    then none
    else if not (e.nonce == "")
    then sealed_text e.payload
    else bounded_json stringify (meta_payload e.payload)

-- A row that `starting` protects is not retired.
abbrev pub is_stale : String → List String → Row → Bool
is_stale device held row =
    row.device_id == device
    && (not (any (λ id. id == row.id) held) && elim row.status [
      | SessionStatus.running ↦ true
      | SessionStatus.awaiting_input ↦ true
      | SessionStatus.waiting_local ↦ true
      | _ ↦ false
    ])

abbrev pub needs_restart_payload : Json
needs_restart_payload = object (field "status" (json_text "needs_restart") empty)

-- The stale rows are retired one by one, and the browsers are told of each.
unfoldable pub retire : Environment → ℕ → String → String → List Row → Hub → Hub
unfolding write_session broadcast_to_browsers
retire env now user device [] h = h
retire env now user device (row ∷ rows) h = retire env now user device rows (
    broadcast_to_browsers env (channel_key user device)
      (session_ended_frame user device row.id SessionStatus.needs_restart needs_restart_payload)
      (write_session user now (ends row.id EndStatus.needs_restart) h))

unfoldable pub reconcile_sessions : Environment → ℕ → Envelope → Hub → Hub
unfolding retire reconcile_payload list_by_user
reconcile_sessions env now e h = elim (reconcile_payload e.payload) [
  | none ↦ h
  | some held ↦
      retire env now e.user_id e.device_id
        (filter (is_stale e.device_id held) (list_by_user env.uuid_value e.user_id h.sessions)) h
]

abbrev pub optional_field : String → Option String → Fields → Fields
optional_field key none rest = rest
optional_field key (some s) rest = field key (json_text s) rest

abbrev pub announced : SessionOrigin → Option String → Envelope → Adopted → NewSession
announced origin parent e a = record {
  user_id = e.user_id;
  device_id = e.device_id;
  origin = some origin;
  title = a.title;
  cwd = a.cwd;
  parent_session_id = parent;
}

-- The row is minted; the daemon is told its id, and the browsers what it is.
unfoldable pub announce :
    Environment → ℕ → String → MessageType → NewSession → Fields → Fields → Hub → Hub
unfolding write_session broadcast_to_browsers get
announce env now id type s ack_fields fields h =
    let channel = channel_key s.user_id s.device_id in
    let h' = write_session s.user_id now (creates id s) h in
    broadcast_to_browsers env channel (announcement type s.user_id s.device_id id (object fields))
      (elim (get channel h'.daemons) [
        | none ↦ h'
        | some daemon ↦
            send daemon (announcement type s.user_id s.device_id id (object ack_fields)) h'
      ])

unfoldable pub adopt : Environment → ℕ → String → Envelope → Hub → Hub
unfolding announce adopted_payload
adopt env now id e h = elim (adopted_payload e.payload) [
  | none ↦ h
  | some a ↦
      let ref = λ (rest : Fields). field "clientRef" (json_text a.client_ref) rest in
      announce env now id MessageType.session_adopted (announced SessionOrigin.external none e a)
        (ref empty) (ref (optional_field "title" a.title (optional_field "cwd" a.cwd empty))) h
]

unfoldable pub chain : Environment → ℕ → String → Envelope → Hub → Hub
unfolding announce chained_payload
chain env now id e h = elim (chained_payload env.is_uuid e.payload) [
  | none ↦ h
  | some (a, parent) ↦
      let ref = λ (rest : Fields).
        field "clientRef" (json_text a.client_ref)
          (field "parentSessionId" (json_text parent) rest) in
      announce env now id MessageType.session_chained
        (announced SessionOrigin.launched (some parent) e a) (ref empty)
        (ref (optional_field "title" a.title (optional_field "cwd" a.cwd empty))) h
]
