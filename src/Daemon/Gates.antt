-- ===== src/Daemon/Gates.antt =====
-- packages/daemon/src/daemon.ts: the gates at which a turn waits for the operator, and the record of
-- a session that they leave.
pub mod Settle
pub mod Kept
pub mod Effects
pub mod Modes
pub mod Allowed
pub mod Accounts
pub mod Once
use telecode.Base.{
  ℕ, String, Bool, true, false, not, ◌&&◌, Option, none, some, List, [], ◌∷◌, ◌++◌, map, filter,
  or_else, if◌then◌else◌, ◌==◌, string_eq,
}
use telecode.Base.Dict.{get, set, delete}
use telecode.Protocol.Status.{SessionStatus}
use telecode.Protocol.Json.{Fields}
use telecode.Protocol.Frames.{DiffStat, QuestionItem, AnswerItem, PermissionRequest, Question}
use telecode.Protocol.History.{
  History, HistoryEntry, Verdict, RecordedPermission, RecordedQuestion, permission, question,
}
use telecode.Daemon.Policy.{PermissionMode, ToolClass, classify_tool}

-- `PermissionDecision`: what a gate resolves to.
pub data Decision : Type 0 where
  allow : (updated_input : Option Fields) → Decision
  deny : (message : String) → Decision

-- The calls of the gates' resolvers, and the answers of the policy.
pub data Resolution : Type 0 where
  permission_resolved : (request : String) → Decision → Resolution
  question_resolved : (request : String) → Option (List AnswerItem) → Resolution
  auto_approved : (session : Option String) → PermissionRequest → Decision → Resolution

-- The session frames that the gates send.
pub data Sent : Type 0 where
  permission_request : PermissionRequest → Sent
  question_asked : Question → Sent
  history : History → Sent
  ended : SessionStatus → Sent

-- `SessionRecord`, of which the gates read and write these fields.
pub record SessionRecord : Type 0 where
  pub status : SessionStatus
  pub transcript : List HistoryEntry
  pub permission_mode : PermissionMode

-- A pending gate is its request and the session that owns it; its resolver is told by the request.
pub record Daemon : Type 0 where
  pub session_records : List (String × SessionRecord)
  pub pending_permissions : List (String × Option String)
  pub pending_questions : List (String × Option String)
  pub ended_sessions : List String
  pub resolved : List Resolution
  pub sent : List (Option String × Sent)

unfoldable pub record_for : String → Daemon → SessionRecord
unfolding get
record_for id d = or_else (get id d.session_records) (record {
  status = SessionStatus.starting;
  transcript = [];
  permission_mode = PermissionMode.default;
})

abbrev with_record : String → SessionRecord → Daemon → Daemon
with_record id rec d = record d { session_records = set id rec session_records }
  where
    open d use {session_records}

unfoldable pub record_entry : Option String → HistoryEntry → Daemon → Daemon
unfolding record_for set
record_entry none e d = d
record_entry (some id) e d =
    let rec = record_for id d in
    with_record id (record rec { transcript = rec.transcript ++ (e ∷ []) }) d

unfoldable pub set_status : Option String → SessionStatus → Daemon → Daemon
unfolding record_for set
set_status none status d = d
set_status (some id) status d = with_record id (record (record_for id d) { status = status }) d

unfoldable pub history_payload_for : Option String → Daemon → History
unfolding get
history_payload_for none d = record { status = SessionStatus.offline_paused; entries = [] }
history_payload_for (some id) d = elim (get id d.session_records) [
  | none ↦ record { status = SessionStatus.offline_paused; entries = [] }
  | some rec ↦ record { status = rec.status; entries = rec.transcript }
]

abbrev pub send : Option String → Sent → Daemon → Daemon
send session frame d = record d { sent = (session, frame) ∷ sent }
  where
    open d use {sent}

abbrev pub resolve : Resolution → Daemon → Daemon
resolve r d = record d { resolved = r ∷ resolved }
  where
    open d use {resolved}

-- `transcript.find(…)` and the assignment to the entry that is found.
unfoldable pub decide_entry : String → Verdict → List HistoryEntry → List HistoryEntry
decide_entry request verdict [] = []
decide_entry request verdict (permission p ∷ es) =
    let rest = decide_entry request verdict es in
    if p.request_id == request
    then permission (record p { decision = verdict }) ∷ es
    else permission p ∷ rest
decide_entry request verdict (e ∷ es) = e ∷ decide_entry request verdict es

unfoldable pub answer_entry : String → List AnswerItem → List HistoryEntry → List HistoryEntry
answer_entry request given [] = []
answer_entry request given (question q ∷ es) =
    let rest = answer_entry request given es in
    if q.request_id == request
    then question (record q { answers = some given }) ∷ es
    else question q ∷ rest
answer_entry request given (e ∷ es) = e ∷ answer_entry request given es

-- A change of the transcript of a session that is held.
abbrev pub in_transcript : String → (List HistoryEntry → List HistoryEntry) → Daemon → Daemon
in_transcript id f d = elim (get id d.session_records) [
  | none ↦ d
  | some rec ↦ with_record id (record rec { transcript = f rec.transcript }) d
]

unfoldable pub settle_permission_entry : Option String → String → Verdict → Daemon → Daemon
unfolding get set set_status decide_entry
settle_permission_entry none request verdict d = d
settle_permission_entry (some id) request verdict d =
    set_status (some id) SessionStatus.running (in_transcript id (decide_entry request verdict) d)

abbrev recorded_answers : String → Option (List AnswerItem) → List HistoryEntry → List HistoryEntry
recorded_answers request none es = es
recorded_answers request (some given) es = answer_entry request given es

unfoldable pub settle_question_entry :
    Option String → String → Option (List AnswerItem) → Daemon → Daemon
unfolding get set set_status answer_entry
settle_question_entry none request given d = d
settle_question_entry (some id) request given d =
    set_status (some id) SessionStatus.running (in_transcript id (recorded_answers request given) d)

-- `sessionRecords.get(…)?.permissionMode ?? 'default'`, for the session that the source names.
abbrev pub mode_of : Option String → List (String × SessionRecord) → PermissionMode
mode_of none records = PermissionMode.default
mode_of (some id) records = elim (get id records) [
  | none ↦ PermissionMode.default
  | some rec ↦ rec.permission_mode
]

unfoldable pub auto_approve_by_policy : Option String → PermissionRequest → Daemon → Option Decision
unfolding classify_tool get
auto_approve_by_policy session r d =
    elim (classify_tool r.tool_name (mode_of session d.session_records)) [
      | ToolClass.allow ↦ some (Decision.allow none)
      | ToolClass.ask ↦ none
    ]

-- The gate of a request that the policy does not let through.
unfoldable pub open_gate : Option String → PermissionRequest → Daemon → Daemon
unfolding record_entry set_status set
open_gate session r d =
    let parked = set_status session SessionStatus.awaiting_input (
      record_entry session
        (permission (record {
          request_id = r.request_id;
          tool_name = r.tool_name;
          input = r.input;
          diff_stat = r.diff_stat;
          decision = Verdict.pending;
          ts = r.ts;
        }))
        d) in
    send session (permission_request r)
      (record parked { pending_permissions = set r.request_id session parked.pending_permissions })

unfoldable pub request_permission : Option String → PermissionRequest → Daemon → Daemon
unfolding auto_approve_by_policy open_gate
request_permission session r d = elim (auto_approve_by_policy session r d) [
  | some decision ↦ resolve (auto_approved session r decision) d
  | none ↦ open_gate session r d
]

unfoldable pub request_question_answer : Option String → Question → Daemon → Daemon
unfolding record_entry set_status set
request_question_answer session q d =
    let parked = set_status session SessionStatus.awaiting_input (
      record_entry session
        (question (record {
          request_id = q.request_id;
          questions = q.questions;
          answers = none;
          ts = q.ts;
        }))
        d) in
    send session (question_asked q)
      (record parked { pending_questions = set q.request_id session parked.pending_questions })
