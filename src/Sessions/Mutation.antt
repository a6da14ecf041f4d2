-- ===== src/Sessions/Mutation.antt =====
-- The statements of apps/relay/src/registry/session-registry.ts that write, as one type of calls.
use telecode.Base.{ℕ, String, Bool, Option, string_eq}
use telecode.Protocol.Status.{EndStatus, end_status}
use telecode.Sessions.{
  Table, NewSession, create_session, mark_running, mark_awaiting_input, mark_waiting_local,
  set_sealed_meta, set_sealed_title, set_archived, delete_session, mark_ended,
  end_sessions_for_device,
}

pub data Change : Type 0 where
  runs awaits_input waits_locally : (session : String) → Change
  seals_meta : (session blob nonce : String) → Change
  seals_title : (session : String) (blob nonce : Option String) → Change
  archives : (session : String) (archived : Bool) → Change
  deletes : (session : String) → Change
  ends : (session : String) → EndStatus → Change
  ends_device : (device : String) → Change
  creates : (id : String) → NewSession → Change

-- One call of the registry for `user` at time `now`. A new session is the caller's own.
unfoldable pub apply : String → ℕ → Change → Table → Table
unfolding create_session mark_running mark_awaiting_input mark_waiting_local set_sealed_meta
    set_sealed_title set_archived delete_session mark_ended end_sessions_for_device
apply user now (runs session) rows = mark_running user session now rows
apply user now (awaits_input session) rows = mark_awaiting_input user session now rows
apply user now (waits_locally session) rows = mark_waiting_local user session now rows
apply user now (seals_meta session blob nonce) rows =
    set_sealed_meta user session blob nonce now rows
apply user now (seals_title session blob nonce) rows =
    (set_sealed_title user session blob nonce now rows).0
apply user now (archives session archived) rows = (set_archived user session archived now rows).0
apply user now (deletes session) rows = (delete_session user session rows).0
apply user now (ends session status) rows = mark_ended user session (end_status status) now rows
apply user now (ends_device device) rows = (end_sessions_for_device user device now rows).0
apply user now (creates id s) rows = create_session id now (record s { user_id = user }) rows
