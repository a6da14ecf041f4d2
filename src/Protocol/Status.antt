-- ===== src/Protocol/Status.antt =====
-- packages/protocol/src/session.ts: the lifecycle states of a session and its origin.
use telecode.Base.{Bool, true, false, String, Option, none, some, if◌then◌else◌, ◌==◌, string_eq}

-- SESSION_STATUSES.
pub data SessionStatus : Type 0 where
  starting running awaiting_input done error offline_paused turn_limit needs_restart : SessionStatus
  waiting_local : SessionStatus

-- SESSION_ORIGINS.
pub data SessionOrigin : Type 0 where
  launched external : SessionOrigin

-- Membership in SESSION_END_STATUSES.
abbrev pub is_session_end_status : SessionStatus → Bool
is_session_end_status SessionStatus.done = true
is_session_end_status SessionStatus.error = true
is_session_end_status SessionStatus.turn_limit = true
is_session_end_status SessionStatus.needs_restart = true
is_session_end_status _ = false

-- SESSION_END_STATUSES.
pub data EndStatus : Type 0 where
  done error turn_limit needs_restart : EndStatus

-- The `SessionEndedPayload['status']` that `markEnded` takes.
abbrev pub end_status : EndStatus → SessionStatus
end_status EndStatus.done = SessionStatus.done
end_status EndStatus.error = SessionStatus.error
end_status EndStatus.turn_limit = SessionStatus.turn_limit
end_status EndStatus.needs_restart = SessionStatus.needs_restart

unfoldable pub end_status_of : SessionStatus → Option EndStatus
end_status_of SessionStatus.done = some EndStatus.done
end_status_of SessionStatus.error = some EndStatus.error
end_status_of SessionStatus.turn_limit = some EndStatus.turn_limit
end_status_of SessionStatus.needs_restart = some EndStatus.needs_restart
end_status_of _ = none

unfoldable pub end_status_of_text : String → Option EndStatus
end_status_of_text s =
    if s == "done"
    then some EndStatus.done
    else if s == "error"
    then some EndStatus.error
    else if s == "turn_limit"
    then some EndStatus.turn_limit
    else if s == "needs_restart"
    then some EndStatus.needs_restart
    else none

-- `sessionStatusSchema` on a text.
unfoldable pub session_status_of_text : String → Option SessionStatus
session_status_of_text s =
    if s == "starting"
    then some SessionStatus.starting
    else if s == "running"
    then some SessionStatus.running
    else if s == "awaiting_input"
    then some SessionStatus.awaiting_input
    else if s == "done"
    then some SessionStatus.done
    else if s == "error"
    then some SessionStatus.error
    else if s == "offline_paused"
    then some SessionStatus.offline_paused
    else if s == "turn_limit"
    then some SessionStatus.turn_limit
    else if s == "needs_restart"
    then some SessionStatus.needs_restart
    else if s == "waiting_local"
    then some SessionStatus.waiting_local
    else none
