-- ===== src/Web/Transcript.antt =====
-- apps/web/src/lib/session.ts: the state of a session's view, and what a frame does to its asks.
pub mod Fold
pub mod Actions
pub mod Log
pub mod Lifecycle
pub mod Keys
pub mod Earned
pub mod Undelivered
pub mod Ended
use telecode.Base.{
  ℕ, suc, String, Bool, true, false, Option, none, some, List, [], ◌∷◌, map, length, ltb, is_some,
  if◌then◌else◌,
}
use telecode.Protocol.Status.{SessionStatus, is_session_end_status}
use telecode.Protocol.Json.{Fields}
use telecode.Protocol.Frames.{DiffStat, QuestionItem, AnswerItem}
use telecode.Protocol.History
use telecode.Protocol.History.{HistoryEntry, Verdict}

-- `SessionStatus` of the view: a status of the wire, or none yet.
pub data ViewStatus : Type 0 where
  wire : SessionStatus → ViewStatus
  idle : ViewStatus

-- `isSessionEndStatus` of the view's status.
abbrev pub is_ended : ViewStatus → Bool
is_ended (wire s) = is_session_end_status s
is_ended idle = false

pub data DecisionState : Type 0 where
  pending approving rejecting approved rejected : DecisionState

pub data AnswerState : Type 0 where
  pending answering answered closed : AnswerState

pub data HandoverState : Type 0 where
  pending submitting submitted closed : HandoverState

-- The text `e{n}`.
pub data EntryKey : Type 0 where
  numbered : ℕ → EntryKey

pub record TextEntry : Type 0 where
  pub id : EntryKey
  pub text : String
  pub at : Option ℕ

pub record ToolEntry : Type 0 where
  pub id : EntryKey
  pub tool_name : String
  pub input : Fields
  pub at : Option ℕ

pub record PermissionEntry : Type 0 where
  pub id : EntryKey
  pub request_id : String
  pub tool_name : String
  pub input : Fields
  pub diff_stat : Option DiffStat
  pub decision : DecisionState
  pub at : Option ℕ

pub record QuestionEntry : Type 0 where
  pub id : EntryKey
  pub request_id : String
  pub questions : List QuestionItem
  pub answer : AnswerState
  pub at : Option ℕ
  pub answers : Option (List AnswerItem)

pub record HandoverEntry : Type 0 where
  pub id : EntryKey
  pub request_id : String
  pub question : String
  pub summary : String
  pub state : HandoverState
  pub at : Option ℕ
  pub answer_text : Option String
  pub child_session_id : Option String

pub data TranscriptEntry : Type 0 where
  user : TextEntry → TranscriptEntry
  message : TextEntry → TranscriptEntry
  tool : ToolEntry → TranscriptEntry
  permission : PermissionEntry → TranscriptEntry
  question : QuestionEntry → TranscriptEntry
  handover : HandoverEntry → TranscriptEntry

pub record SessionState : Type 0 where
  pub session_id : Option String
  pub status : ViewStatus
  pub entries : List TranscriptEntry
  pub seq : ℕ
  pub notice : Option String
  pub delivery_error : Option String
  pub parent_session_id : Option String

abbrev pub initial_session_state : SessionState
initial_session_state = record {
  session_id = none;
  status = idle;
  entries = [];
  seq = 0;
  notice = none;
  delivery_error = none;
  parent_session_id = none;
}

abbrev pub starting_state : SessionState
starting_state = record initial_session_state { status = wire SessionStatus.starting }

abbrev pub is_session_loaded : SessionState → Bool
is_session_loaded s = ltb 0 (length s.entries)

-- The entry that `confirmInFlightActions` makes of one.
unfoldable pub confirm : TranscriptEntry → TranscriptEntry
confirm (permission p) = permission (elim p.decision [
  | DecisionState.approving ↦ record p { decision = DecisionState.approved }
  | DecisionState.rejecting ↦ record p { decision = DecisionState.rejected }
  | _ ↦ p
])
confirm (question q) =
    question
      (elim q.answer [ AnswerState.answering ↦ record q { answer = AnswerState.answered } | _ ↦ q ])
confirm (handover h) = handover (elim h.state [
  | HandoverState.submitting ↦ record h { state = HandoverState.submitted }
  | _ ↦ h
])
confirm e = e

unfoldable pub confirm_in_flight_actions : List TranscriptEntry → List TranscriptEntry
unfolding confirm
confirm_in_flight_actions entries = map confirm entries

-- The entry that `closeOpenGates` makes of one.
unfoldable pub close_gate : TranscriptEntry → TranscriptEntry
close_gate (permission p) = permission (elim p.decision [
  | DecisionState.pending ↦ record p { decision = DecisionState.rejected }
  | _ ↦ p
])
close_gate (question q) = question (elim q.answer [
  | AnswerState.pending ↦ record q { answer = AnswerState.closed }
  | AnswerState.answering ↦ record q { answer = AnswerState.closed }
  | _ ↦ q
])
close_gate (handover h) =
    handover
      (elim h.state [ HandoverState.pending ↦ record h { state = HandoverState.closed } | _ ↦ h ])
close_gate e = e

unfoldable pub close_open_gates : List TranscriptEntry → List TranscriptEntry
unfolding close_gate
close_open_gates entries = map close_gate entries

-- The entry that `revertInFlightActions` makes of one.
unfoldable pub revert : TranscriptEntry → TranscriptEntry
revert (permission p) = permission (elim p.decision [
  | DecisionState.approving ↦ record p { decision = DecisionState.pending }
  | DecisionState.rejecting ↦ record p { decision = DecisionState.pending }
  | _ ↦ p
])
revert (question q) =
    question
      (elim q.answer [ AnswerState.answering ↦ record q { answer = AnswerState.pending } | _ ↦ q ])
revert (handover h) =
    handover (elim h.state [
      | HandoverState.submitting ↦ record h { state = HandoverState.pending }
      | _ ↦ h
    ])
revert e = e

unfoldable pub revert_in_flight_actions : List TranscriptEntry → List TranscriptEntry
unfolding revert
revert_in_flight_actions entries = map revert entries

abbrev pub recorded_decision : Verdict → DecisionState
recorded_decision Verdict.allow = DecisionState.approved
recorded_decision Verdict.deny = DecisionState.rejected
recorded_decision Verdict.pending = DecisionState.pending

unfoldable pub map_history_entry : HistoryEntry → EntryKey → TranscriptEntry
map_history_entry (HistoryEntry.user s ts) id = user (record { id = id; text = s; at = ts })
map_history_entry (HistoryEntry.message s ts) id = message (record { id = id; text = s; at = ts })
map_history_entry (HistoryEntry.tool name input ts) id =
    tool (record { id = id; tool_name = name; input = input; at = ts })
map_history_entry (HistoryEntry.permission p) id = permission (record {
  id = id;
  request_id = p.request_id;
  tool_name = p.tool_name;
  input = p.input;
  diff_stat = p.diff_stat;
  decision = recorded_decision p.decision;
  at = p.ts;
})
map_history_entry (HistoryEntry.question q) id = question (record {
  id = id;
  request_id = q.request_id;
  questions = q.questions;
  answer = if is_some q.answers then AnswerState.answered else AnswerState.pending;
  at = q.ts;
  answers = q.answers;
})
map_history_entry (HistoryEntry.handover h) id = handover (record {
  id = id;
  request_id = h.request_id;
  question = h.question;
  summary = h.summary;
  state = if is_some h.answer_text then HandoverState.submitted else HandoverState.pending;
  at = h.ts;
  answer_text = h.answer_text;
  child_session_id = none;
})

-- `entries.map((entry, i) => mapHistoryEntry(entry, 'e' + i))`, from the index `i` on.
unfoldable pub map_history : ℕ → List HistoryEntry → List TranscriptEntry
unfolding map_history_entry
map_history i [] = []
map_history i (e ∷ es) = map_history_entry e (numbered i) ∷ map_history (suc i) es
