-- ===== src/Web/Transcript/Lifecycle.antt =====
-- apps/web/src/lib/session.ts: DecisionState, AnswerState and HandoverState as state machines, and
-- the moves that an operation of the view may make in them.
pub mod Moves
pub mod Folds
pub mod Advance
use telecode.Base.{
  ℕ, suc, length, ◌++◌, String, Bool, true, false, not, Option, none, some, List, [], ◌∷◌, ◌≡◌,
  refl, inl, inr, arith, sym, ap, ◌⊎◌, Bool-cases, if◌then◌else◌, ◌==◌, ==_iff, string_eq, reverse,
  reverse-reverse,
}
use telecode.Base.Pointwise.{Pointwise, nothing, next, Pointwise-reverse, Pointwise-map}
use telecode.Protocol.Message.{MessageType}
use telecode.Protocol.Frames.{AnswerItem}
use telecode.Protocol.Envelope.{Envelope}
use telecode.Protocol.History.{History, history_payload}
use telecode.Web.Transcript.{
  EntryKey, numbered, SessionState, map_history, TranscriptEntry, user, message, tool, permission,
  question, handover, PermissionEntry, QuestionEntry, HandoverEntry, DecisionState, AnswerState,
  HandoverState, confirm, close_gate, revert,
}
use telecode.Web.Transcript.Fold.{is_undelivered}
use telecode.Web.Transcript.Actions.{
  Behavior, decide, give_answers, take_over, is_taken_over, is_linkable, link_first, with_child,
}
use telecode.Web.Transcript.Log.{ViewOp, launching, received, decided, answered, took_over, chained}

-- A frame came through from the daemon.
abbrev pub IsDelivered : ViewOp → Type 0
IsDelivered (received now e) = is_undelivered e.type ≡ false
IsDelivered _ = ⊥

-- The relay could not deliver an action.
abbrev pub IsFailure : ViewOp → Type 0
IsFailure (received now e) = e.type ≡ MessageType.relay_error
IsFailure _ = ⊥

-- The session's end.
abbrev pub IsEnd : ViewOp → Type 0
IsEnd (received now e) = e.type ≡ MessageType.session_ended
IsEnd _ = ⊥

-- What one operation may do to an entry.
pub data Evolves (op : ViewOp) : TranscriptEntry → TranscriptEntry → Type 0 where
  stays : {e : TranscriptEntry} → Evolves op e e
  approves :
      {p : PermissionEntry}
      → op ≡ decided p.request_id Behavior.allow
      → Evolves op (permission p) (permission (record p { decision = DecisionState.approving }))
  rejects :
      {p : PermissionEntry}
      → op ≡ decided p.request_id Behavior.deny
      → Evolves op (permission p) (permission (record p { decision = DecisionState.rejecting }))
  answers :
      {q : QuestionEntry} {given : List AnswerItem}
      → op ≡ answered q.request_id given
      → Evolves op
          (question q)
          (question (record q { answer = AnswerState.answering; answers = some given }))
  takes_over :
      {h : HandoverEntry} {reply : String}
      → op ≡ took_over h.request_id reply
      → Evolves op
          (handover h)
          (handover (record h { state = HandoverState.submitting; answer_text = some reply }))
  confirms_approval :
      {p : PermissionEntry}
      → IsDelivered op
      → p.decision ≡ DecisionState.approving
      → Evolves op (permission p) (permission (record p { decision = DecisionState.approved }))
  confirms_rejection :
      {p : PermissionEntry}
      → IsDelivered op
      → p.decision ≡ DecisionState.rejecting
      → Evolves op (permission p) (permission (record p { decision = DecisionState.rejected }))
  confirms_answer :
      {q : QuestionEntry}
      → IsDelivered op
      → q.answer ≡ AnswerState.answering
      → Evolves op (question q) (question (record q { answer = AnswerState.answered }))
  confirms_takeover :
      {h : HandoverEntry}
      → IsDelivered op
      → h.state ≡ HandoverState.submitting
      → Evolves op (handover h) (handover (record h { state = HandoverState.submitted }))
  reverts_decision :
      {p : PermissionEntry}
      → IsFailure op
      → (p.decision ≡ DecisionState.approving) ⊎ (p.decision ≡ DecisionState.rejecting)
      → Evolves op (permission p) (permission (record p { decision = DecisionState.pending }))
  reverts_answer :
      {q : QuestionEntry}
      → IsFailure op
      → q.answer ≡ AnswerState.answering
      → Evolves op (question q) (question (record q { answer = AnswerState.pending }))
  reverts_takeover :
      {h : HandoverEntry}
      → IsFailure op
      → h.state ≡ HandoverState.submitting
      → Evolves op (handover h) (handover (record h { state = HandoverState.pending }))
  closes_permission :
      {p : PermissionEntry}
      → IsEnd op
      → p.decision ≡ DecisionState.pending
      → Evolves op (permission p) (permission (record p { decision = DecisionState.rejected }))
  closes_question :
      {q : QuestionEntry}
      → IsEnd op
      → q.answer ≡ AnswerState.pending
      → Evolves op (question q) (question (record q { answer = AnswerState.closed }))
  closes_handover :
      {h : HandoverEntry}
      → IsEnd op
      → h.state ≡ HandoverState.pending
      → Evolves op (handover h) (handover (record h { state = HandoverState.closed }))
  links :
      {h : HandoverEntry} {child : String}
      → op ≡ chained child
      → h.child_session_id ≡ none
      → is_taken_over h.state ≡ true
      → Evolves op (handover h) (handover (record h { child_session_id = some child }))

abbrev pub key_of : TranscriptEntry → EntryKey
key_of (user e) = e.id
key_of (message e) = e.id
key_of (tool e) = e.id
key_of (permission e) = e.id
key_of (question e) = e.id
key_of (handover e) = e.id

-- An ask that nobody has acted on.
abbrev pub IsPending : TranscriptEntry → Type 0
IsPending (permission p) = p.decision ≡ DecisionState.pending
IsPending (question q) = q.answer ≡ AnswerState.pending
IsPending (handover h) = h.state ≡ HandoverState.pending
IsPending _ = Unit

-- `op` leads from `s` to `t`: it moves the entries within their lifecycles and appends at most one
-- new pending entry under the next key, or it starts over, or takes over the daemon's record.
pub data Advances (op : ViewOp) (s t : SessionState) : Type 0 where
  kept : Pointwise (Evolves op) s.entries t.entries → t.seq ≡ s.seq → Advances op s t
  grown :
      (es : List TranscriptEntry) (e : TranscriptEntry)
      → Pointwise (Evolves op) s.entries es
      → key_of e ≡ numbered s.seq
      → IsPending e
      → t.entries ≡ es ++ (e ∷ [])
      → t.seq ≡ suc s.seq
      → Advances op s t
  emptied : op ≡ launching → t.entries ≡ [] → t.seq ≡ 0 → Advances op s t
  rebuilt :
      {now : ℕ} {e : Envelope} {h : History}
      → op ≡ received now e
      → e.type ≡ MessageType.session_history
      → history_payload e.payload ≡ some h
      → t.entries ≡ map_history 0 h.entries
      → t.seq ≡ length h.entries
      → Advances op s t
