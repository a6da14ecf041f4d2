-- ===== src/Web/Transcript/Fold.antt =====
-- apps/web/src/lib/session.ts: applyEnvelope, the fold of a frame into the view.
use telecode.Base.{
  ℕ, suc, String, Bool, true, false, Option, none, some, [], ◌∷◌, ◌++◌, length, or_else,
  if◌then◌else◌, ◌&&◌, ltb, ◌==◌, nat_eq, ◌≡◌, ap,
}
use telecode.Protocol.Status.{SessionStatus, end_status}
use telecode.Protocol.Message.{MessageType}
use telecode.Protocol.Envelope.{Envelope}
use telecode.Protocol.Payload.{Reported, ended_payload, status_payload}
use telecode.Protocol.Frames.{
  notice_payload, relay_error_payload, message_payload, tool_use_payload, permission_payload,
  question_payload, handover_payload,
}
use telecode.Protocol.History.{history_payload}
use telecode.Web.Transcript.{
  wire, is_ended, DecisionState, AnswerState, HandoverState, EntryKey, numbered, TranscriptEntry,
  SessionState, message, tool, permission, question, handover, confirm_in_flight_actions,
  close_open_gates, revert_in_flight_actions, map_history,
}

abbrev pub undelivered_text : String
undelivered_text =
    "This device is offline — your last action wasn't delivered. Retry when it reconnects."

-- `session_id ?? base.sessionId`.
abbrev either_id : Option String → Option String → Option String
either_id (some id) old = some id
either_id none old = old

-- A new entry, which the counter numbers.
unfoldable pub append_entry : (EntryKey → TranscriptEntry) → SessionState → SessionState
append_entry make s = record s {
  entries = entries ++ (make (numbered s.seq) ∷ []);
  seq = suc s.seq;
}
  where
    open s use {entries}

-- An ask parks the session.
unfoldable pub append_ask : (EntryKey → TranscriptEntry) → SessionState → SessionState
unfolding append_entry
append_ask make s = record (append_entry make s) { status = wire SessionStatus.awaiting_input }

unfoldable pub fold_undelivered : Envelope → SessionState → SessionState
unfolding relay_error_payload revert_in_flight_actions
fold_undelivered e s = elim (relay_error_payload e.payload) [
  | none ↦ s
  | some _ ↦ record s {
    entries = revert_in_flight_actions entries;
    status = if is_ended status then status else wire SessionStatus.offline_paused;
    delivery_error = some undelivered_text;
  }
]
  where
    open s use {entries, status}

-- A frame that came through: the actions in flight are confirmed, and the cues are stale.
unfoldable pub confirmed_base : MessageType → SessionState → SessionState
unfolding confirm_in_flight_actions
confirmed_base type s = record s {
  entries = confirm_in_flight_actions entries;
  notice = kept_notice type notice;
  delivery_error = none;
}
  where
    open s use {entries, notice}

    kept_notice : MessageType → Option String → Option String
    kept_notice MessageType.agent_notice n = n
    kept_notice _ n = none

unfoldable pub fold_message : ℕ → Envelope → SessionState → SessionState
unfolding message_payload append_entry
fold_message now e s = elim (message_payload e.payload) [
  | none ↦ s
  | some p ↦
      append_entry (λ id. message (record { id = id; text = p.text; at = some (or_else p.ts now) }))
        s
]

unfoldable pub fold_tool_use : ℕ → Envelope → SessionState → SessionState
unfolding tool_use_payload append_entry
fold_tool_use now e s = elim (tool_use_payload e.payload) [
  | none ↦ s
  | some p ↦
      append_entry
        (λ id. tool (record {
          id = id;
          tool_name = p.tool_name;
          input = p.input;
          at = some (or_else p.ts now);
        }))
        s
]

unfoldable pub fold_permission : ℕ → Envelope → SessionState → SessionState
unfolding permission_payload append_ask
fold_permission now e s = elim (permission_payload e.payload) [
  | none ↦ s
  | some p ↦
      append_ask
        (λ id. permission (record {
          id = id;
          request_id = p.request_id;
          tool_name = p.tool_name;
          input = p.input;
          diff_stat = p.diff_stat;
          decision = DecisionState.pending;
          at = some (or_else p.ts now);
        }))
        s
]

unfoldable pub fold_question : ℕ → Envelope → SessionState → SessionState
unfolding question_payload append_ask
fold_question now e s = elim (question_payload e.payload) [
  | none ↦ s
  | some p ↦
      append_ask
        (λ id. question (record {
          id = id;
          request_id = p.request_id;
          questions = p.questions;
          answer = AnswerState.pending;
          at = some (or_else p.ts now);
          answers = none;
        }))
        s
]

unfoldable pub fold_handover : ℕ → Envelope → SessionState → SessionState
unfolding handover_payload append_ask
fold_handover now e s = elim (handover_payload e.payload) [
  | none ↦ s
  | some p ↦
      append_ask
        (λ id. handover (record {
          id = id;
          request_id = p.request_id;
          question = p.question;
          summary = p.summary;
          state = HandoverState.pending;
          at = some (or_else p.ts now);
          answer_text = none;
          child_session_id = none;
        }))
        s
]

unfoldable pub fold_notice : Envelope → SessionState → SessionState
unfolding notice_payload
fold_notice e s = elim (notice_payload e.payload) [
  | none ↦ s
  | some text ↦ record s { notice = some text }
]

abbrev reported_status : Reported → SessionStatus
reported_status Reported.running = SessionStatus.running
reported_status Reported.waiting_local = SessionStatus.waiting_local

unfoldable pub fold_status : Envelope → SessionState → SessionState
unfolding status_payload
fold_status e s = elim (status_payload e.payload) [
  | none ↦ s
  | some r ↦ if is_ended s.status then s else record s { status = wire (reported_status r) }
]

unfoldable pub fold_ended : Envelope → SessionState → SessionState
unfolding ended_payload close_open_gates
fold_ended e s = record s {
  status = elim (ended_payload e.payload) [
    | none ↦ wire SessionStatus.done
    | some end ↦ wire (end_status end)
  ];
  entries = close_open_gates entries;
}
  where
    open s use {entries}

unfoldable pub fold_history : Envelope → SessionState → SessionState
unfolding history_payload map_history
fold_history e s = elim (history_payload e.payload) [
  | none ↦ s
  | some h ↦
      if length h.entries == 0 && ltb 0 (length s.entries)
      then record s {
        session_id = either_id e.session_id s.session_id;
        status = if is_ended s.status then s.status else wire h.status;
      }
      else record {
        session_id = either_id e.session_id s.session_id;
        status = wire h.status;
        entries = map_history 0 h.entries;
        seq = length h.entries;
        notice = none;
        delivery_error = none;
        parent_session_id = s.parent_session_id;
      }
]

unfoldable pub fold_started : Envelope → SessionState → SessionState
fold_started e s = record s {
  session_id = either_id e.session_id s.session_id;
  status = wire SessionStatus.running;
}

-- The `switch` on the frame's type.
unfoldable pub fold_delivered : MessageType → ℕ → Envelope → SessionState → SessionState
unfolding fold_notice fold_started fold_message fold_tool_use fold_permission fold_question
    fold_handover fold_status fold_ended fold_history
fold_delivered MessageType.agent_notice now e s = fold_notice e s
fold_delivered MessageType.session_started now e s = fold_started e s
fold_delivered MessageType.agent_message now e s = fold_message now e s
fold_delivered MessageType.agent_tool_use now e s = fold_tool_use now e s
fold_delivered MessageType.agent_permission_request now e s = fold_permission now e s
fold_delivered MessageType.agent_question now e s = fold_question now e s
fold_delivered MessageType.agent_handover now e s = fold_handover now e s
fold_delivered MessageType.session_status now e s = fold_status e s
fold_delivered MessageType.session_ended now e s = fold_ended e s
fold_delivered MessageType.session_history now e s = fold_history e s
fold_delivered _ now e s = s

abbrev pub is_undelivered : MessageType → Bool
is_undelivered MessageType.relay_error = true
is_undelivered _ = false

unfoldable pub apply_envelope : ℕ → Envelope → SessionState → SessionState
unfolding fold_undelivered fold_delivered confirmed_base
apply_envelope now e s =
    if is_undelivered e.type
    then fold_undelivered e s
    else fold_delivered e.type now e (confirmed_base e.type s)

-- The fold of a frame whose type is known.
pub apply_envelope_typed :
    (u : MessageType) (now : ℕ) (e : Envelope) (s : SessionState)
    → e.type ≡ u
    → apply_envelope now e s ≡ (
        if is_undelivered u
        then fold_undelivered e s
        else fold_delivered u now e (confirmed_base u s))
unfolding apply_envelope
apply_envelope_typed u now e s h =
    ap
      (λ v.
        if is_undelivered v
        then fold_undelivered e s
        else fold_delivered v now e (confirmed_base v s))
      h
