-- ===== src/System/Tests.antt =====
-- Examples of what is proved of the daemon and the browser together.
use telecode.Base.{
  ℕ, String, Bool, true, false, Option, none, some, List, [], ◌∷◌, ◌≡◌, refl, inl, inr, In,
}
use telecode.Protocol.Json.{Json, json_text, boolean, array, object, field, item, exhausted, empty}
use telecode.Protocol.Message.{MessageType}
use telecode.Protocol.Envelope.{Envelope}
use telecode.Protocol.Status.{SessionStatus}
use telecode.Protocol.Replies.{OperatorDecision, ControlAction}
use telecode.Protocol.History.{
  HistoryEntry, Verdict, RecordedPermission, RecordedQuestion, permission, question,
}
use telecode.Daemon.Policy.{PermissionMode}
use telecode.Daemon.Gates.{Decision, Resolution, permission_resolved, SessionRecord, Daemon}
use telecode.Daemon.Gates.Settle.{decision_received, to_permission_decision, verdict_of, started}
use telecode.Web.Transcript.{
  TranscriptEntry, PermissionEntry, QuestionEntry, AnswerState, wire, is_ended,
  initial_session_state,
}
use telecode.Web.Transcript.Fold.{apply_envelope}
use telecode.System.Decided.{IsOutcome, decision_is_shown}
use telecode.System.Reopened.{ended_question_reopens}

abbrev asked : RecordedPermission
asked = record {
  request_id = "r1";
  tool_name = "Bash";
  input = empty;
  diff_stat = none;
  decision = Verdict.pending;
  ts = none;
}

abbrev raised : RecordedQuestion
raised = record {
  request_id = "q1";
  questions =
      record {
        question = "Which?";
        header = "Pick";
        multi_select = false;
        options = record { label = "one"; description = none } ∷ [];
      }
      ∷ [];
  answers = none;
  ts = none;
}

abbrev session_record : HistoryEntry → SessionRecord
session_record e = record {
  status = SessionStatus.awaiting_input;
  transcript = e ∷ [];
  permission_mode = PermissionMode.default;
}

abbrev waiting : Daemon
waiting = record (started (("s1", session_record (permission asked)) ∷ [])) {
  pending_permissions = ("r1", some "s1") ∷ [];
}

abbrev questioning : Daemon
questioning = record (started (("s1", session_record (question raised)) ∷ [])) {
  pending_questions = ("q1", some "s1") ∷ [];
}

abbrev history_frame : String → Json → Envelope
history_frame status entry = record {
  user_id = "ada";
  device_id = "laptop";
  session_id = some "s1";
  type = MessageType.session_history;
  nonce = "";
  status = none;
  sender_public_key = none;
  payload =
      object
        (field "status" (json_text status) (field "entries" (array (item entry exhausted)) empty));
}

abbrev decided_entry : Json
decided_entry = object (
    field "kind" (json_text "permission") (
      field "requestId" (json_text "r1") (
        field "toolName" (json_text "Bash")
          (field "input" (object empty) (field "decision" (json_text "allow") empty)))))

abbrev question_entry : Json
question_entry = object (
    field "kind" (json_text "question") (
      field "requestId" (json_text "q1") (
        field "questions"
          (array (
            item
              (object (
                field "question" (json_text "Which?") (
                  field "header" (json_text "Pick") (
                    field "multiSelect" (boolean false) (
                      field "options"
                        (array (item (object (field "label" (json_text "one") empty)) exhausted))
                        empty)))))
              exhausted))
          empty)))

abbrev allow_payload : Json
allow_payload =
    object (field "requestId" (json_text "r1") (field "behavior" (json_text "allow") empty))

decision_is_shown_example :
    let t = apply_envelope 9 (history_frame "running" decided_entry) initial_session_state in
    (resolution : Decision) × (x : PermissionEntry) × In
      (permission_resolved "r1" resolution)
      (decision_received (some "s1") allow_payload waiting).resolved
    × (t.status ≡ wire SessionStatus.running)
    × In (TranscriptEntry.permission x) t.entries
    × (x.request_id ≡ "r1")
    × IsOutcome (OperatorDecision.allow none) resolution x.decision
unfolding decision_received telecode.Daemon.Gates.history_payload_for
    telecode.Protocol.Replies.permission_decision_payload telecode.Protocol.History.history_payload
    telecode.Base.Dict.get
decision_is_shown_example =
    decision_is_shown "s1" "r1" allow_payload (OperatorDecision.allow none) waiting
      (session_record (permission asked)) asked (some "s1") 9
      (history_frame "running" decided_entry) initial_session_state refl refl refl (inl refl) refl
      refl refl

ended_question_reopens_example :
    let t = apply_envelope 9 (history_frame "done" question_entry) initial_session_state in
    (is_ended t.status ≡ true)
    × (x : QuestionEntry) × In (TranscriptEntry.question x) t.entries
    × (x.request_id ≡ "q1")
    × (x.answer ≡ AnswerState.pending)
unfolding telecode.Daemon.Gates.Settle.handle_control telecode.Daemon.Gates.history_payload_for
    telecode.Protocol.History.history_payload telecode.Base.Dict.get
ended_question_reopens_example =
    ended_question_reopens "s1" questioning (session_record (question raised)) raised 9
      (history_frame "done" question_entry) initial_session_state refl (inl refl) refl refl refl
