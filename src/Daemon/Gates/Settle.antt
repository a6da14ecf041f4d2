-- ===== src/Daemon/Gates/Settle.antt =====
-- packages/daemon/src/daemon.ts: how a gate is settled: by its timeout, by the operator's reply, by
-- an interrupt or the session's end, and by the daemon's stop.
use telecode.Base.{
  String, Bool, false, not, Option, none, some, List, [], ◌∷◌, ◌++◌, map, filter, if◌then◌else◌,
  ◌==◌, string_eq,
}
use telecode.Base.Dict.{get, set, delete}
use telecode.Protocol.Status.{SessionStatus}
use telecode.Protocol.Json.{Json}
use telecode.Protocol.Frames.{PermissionRequest, Question}
use telecode.Protocol.History.{HistoryEntry, Verdict}
use telecode.Protocol.Replies.{
  OperatorDecision, ControlAction, permission_decision_payload, question_answer_payload,
  control_payload,
}
use telecode.Daemon.Gates.{
  Decision, permission_resolved, question_resolved, Sent, SessionRecord, Daemon,
  history_payload_for, send, resolve, settle_permission_entry, settle_question_entry,
  request_permission, request_question_answer, set_status, decide_entry, in_transcript,
}

abbrev pub timeout_message : String
timeout_message = "No operator decided in time — denied automatically by the gate timeout."

-- The timers: a gate that is still pending settles itself, and the watchers get the history.
unfoldable pub permission_timed_out : String → Daemon → Daemon
unfolding get delete settle_permission_entry history_payload_for
permission_timed_out request d = elim (get request d.pending_permissions) [
  | none ↦ d
  | some session ↦
      let settled = resolve (permission_resolved request (Decision.deny timeout_message)) (
        settle_permission_entry session request Verdict.deny
          (record d { pending_permissions = delete request d.pending_permissions })) in
      send session (Sent.history (history_payload_for session settled)) settled
]

unfoldable pub question_timed_out : String → Daemon → Daemon
unfolding get delete settle_question_entry history_payload_for
question_timed_out request d = elim (get request d.pending_questions) [
  | none ↦ d
  | some session ↦
      let settled = resolve (question_resolved request none) (
        settle_question_entry session request none
          (record d { pending_questions = delete request d.pending_questions })) in
      send session (Sent.history (history_payload_for session settled)) settled
]

unfoldable pub to_permission_decision : OperatorDecision → Decision
to_permission_decision (OperatorDecision.allow input) = Decision.allow input
to_permission_decision (OperatorDecision.deny (some message)) = Decision.deny message
to_permission_decision (OperatorDecision.deny none) = Decision.deny "Denied by the operator"

abbrev pub verdict_of : OperatorDecision → Verdict
verdict_of (OperatorDecision.allow input) = Verdict.allow
verdict_of (OperatorDecision.deny message) = Verdict.deny

abbrev reconcile : Option String → Daemon → Daemon
reconcile session d = send session (Sent.history (history_payload_for session d)) d

-- The case `permission.decision` of `handleFrame`, on the decrypted payload.
unfoldable pub decision_received : Option String → Json → Daemon → Daemon
unfolding permission_decision_payload get delete settle_permission_entry history_payload_for
    to_permission_decision
decision_received session payload d = elim (permission_decision_payload payload) [
  | none ↦ d
  | some (request, decision) ↦ elim (get request d.pending_permissions) [
    | none ↦ reconcile session d
    | some owner ↦ resolve (permission_resolved request (to_permission_decision decision)) (
        settle_permission_entry session request (verdict_of decision)
          (record d { pending_permissions = delete request d.pending_permissions }))
  ]
]

-- The case `question.answer`.
unfoldable pub answer_received : Option String → Json → Daemon → Daemon
unfolding question_answer_payload get delete settle_question_entry history_payload_for
answer_received session payload d = elim (question_answer_payload payload) [
  | none ↦ d
  | some (request, given) ↦ elim (get request d.pending_questions) [
    | none ↦ reconcile session d
    | some owner ↦ resolve (question_resolved request (some given)) (
        settle_question_entry session request (some given)
          (record d { pending_questions = delete request d.pending_questions }))
  ]
]

-- `pending.sessionId === sessionId`.
abbrev pub is_owned_by : String → String × Option String → Bool
is_owned_by session (request, none) = false
is_owned_by session (request, some owner) = owner == session

unfoldable pub deny_entries : List (String × Option String) → List HistoryEntry → List HistoryEntry
unfolding decide_entry
deny_entries [] es = es
deny_entries ((request, owner) ∷ gates) es =
    deny_entries gates (decide_entry request Verdict.deny es)

-- `stopTurn`: both loops visit the gates of the session, and delete and resolve each.
unfoldable pub stop_turn : String → String → Daemon → Daemon
unfolding get set deny_entries
stop_turn session reason d =
    let gates = filter (is_owned_by session) d.pending_permissions in
    let asked = filter (is_owned_by session) d.pending_questions in
    record (in_transcript session (deny_entries gates) d) {
      pending_permissions = filter (λ g. not (is_owned_by session g)) d.pending_permissions;
      pending_questions = filter (λ g. not (is_owned_by session g)) d.pending_questions;
      resolved =
          map (λ g. question_resolved g.0 none) asked
          ++ (map (λ g. permission_resolved g.0 (Decision.deny reason)) gates ++ d.resolved);
    }

-- `handleControl`; `in_flight` tells whether `sessionAborts` has the session.
unfoldable pub handle_control : Option String → ControlAction → Bool → Daemon → Daemon
unfolding stop_turn set_status
handle_control none action in_flight d = d
handle_control (some session) ControlAction.interrupt in_flight d =
    stop_turn session "interrupted by operator" d
handle_control (some session) ControlAction.end in_flight d =
    let marked = record d { ended_sessions = session ∷ d.ended_sessions } in
    let stopped = stop_turn session "session ended by operator" marked in
    if in_flight
    then stopped
    else send (some session) (Sent.ended SessionStatus.done)
        (set_status (some session) SessionStatus.done stopped)

-- The case `session.control`.
unfoldable pub control_received : Option String → Json → Bool → Daemon → Daemon
unfolding control_payload handle_control
control_received session payload in_flight d = elim (control_payload payload) [
  | none ↦ d
  | some action ↦ handle_control session action in_flight d
]

-- What `stop` does to the gates.
unfoldable pub stop : Daemon → Daemon
stop d = record d {
  pending_permissions = [];
  pending_questions = [];
  resolved =
      map (λ g. question_resolved g.0 none) d.pending_questions
      ++ (map (λ g. permission_resolved g.0 (Decision.deny "daemon stopping")) d.pending_permissions
          ++ d.resolved);
}

-- The operations, and the daemon that a log of them leads to; the log has the last one first.
pub data GateOp : Type 0 where
  tool_requested : (session : Option String) → PermissionRequest → GateOp
  question_raised : (session : Option String) → Question → GateOp
  permission_timeout question_timeout : (request : String) → GateOp
  decision_arrived answer_arrived : (session : Option String) (payload : Json) → GateOp
  control_arrived : (session : Option String) (payload : Json) (in_flight : Bool) → GateOp
  stopping : GateOp

unfoldable pub run_op : GateOp → Daemon → Daemon
unfolding request_permission request_question_answer permission_timed_out question_timed_out
    decision_received answer_received control_received stop
run_op (tool_requested session r) d = request_permission session r d
run_op (question_raised session q) d = request_question_answer session q d
run_op (permission_timeout request) d = permission_timed_out request d
run_op (question_timeout request) d = question_timed_out request d
run_op (decision_arrived session payload) d = decision_received session payload d
run_op (answer_arrived session payload) d = answer_received session payload d
run_op (control_arrived session payload in_flight) d = control_received session payload in_flight d
run_op stopping d = stop d

-- A daemon that holds some sessions, and no gate of them yet.
abbrev pub started : List (String × SessionRecord) → Daemon
started records = record {
  session_records = records;
  pending_permissions = [];
  pending_questions = [];
  ended_sessions = [];
  resolved = [];
  sent = [];
}

unfoldable pub run : List (String × SessionRecord) → List GateOp → Daemon
unfolding run_op
run records [] = started records
run records (op ∷ log) = run_op op (run records log)
