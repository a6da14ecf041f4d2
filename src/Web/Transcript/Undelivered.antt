-- ===== src/Web/Transcript/Undelivered.antt =====
-- apps/web/src/lib/session.ts: an action of the human that the relay could not deliver.
use telecode.Base.{
  ℕ, String, none, some, List, [], ◌∷◌, map, ◌≡◌, ◌≢◌, refl, ap₂, arith, All, ==_iff, string_eq,
}
use telecode.Protocol.Message.{MessageType}
use telecode.Protocol.Envelope.{Envelope}
use telecode.Protocol.Frames.{AnswerItem, relay_error_payload}
use telecode.Web.Transcript.{
  TranscriptEntry, SessionState, permission, question, handover, DecisionState, AnswerState,
  HandoverState, revert, revert_in_flight_actions,
}
use telecode.Web.Transcript.Fold.{fold_undelivered, undelivered_text, apply_envelope_typed}
use telecode.Web.Transcript.Actions.{
  Behavior, decide, give_answers, take_over, mark_deciding, mark_answering,
  mark_handover_submitting,
}
use telecode.Web.Transcript.Log.{ViewOp, received, decided, answered, took_over, run_op}
use telecode.Web.Transcript.Lifecycle.{IsPending}

-- Nothing of the ask is in flight.
abbrev pub IsAtRest : TranscriptEntry → Type 0
IsAtRest (permission p) =
    (p.decision ≢ DecisionState.approving) × (p.decision ≢ DecisionState.rejecting)
IsAtRest (question q) = q.answer ≢ AnswerState.answering
IsAtRest (handover h) = h.state ≢ HandoverState.submitting
IsAtRest _ = Unit

-- The operation acts on the ask.
abbrev pub IsAddressed : ViewOp → TranscriptEntry → Type 0
IsAddressed (decided r behavior) (permission p) = p.request_id ≡ r
IsAddressed (answered r given) (question q) = q.request_id ≡ r
IsAddressed (took_over r reply) (handover h) = h.request_id ≡ r
IsAddressed _ _ = ⊥

abbrev pub IsAction : ViewOp → Type 0
IsAction (decided r behavior) = Unit
IsAction (answered r given) = Unit
IsAction (took_over r reply) = Unit
IsAction _ = ⊥

-- An entry on which the action can fail: at rest, and open where it is the one acted on.
abbrev pub IsReady : ViewOp → TranscriptEntry → Type 0
IsReady op e = IsAtRest e × (IsAddressed op e → IsPending e)

-- An entry without the reply that the human gave.
abbrev pub without_reply : TranscriptEntry → TranscriptEntry
without_reply (question q) = question (record q { answers = none })
without_reply (handover h) = handover (record h { answer_text = none })
without_reply e = e

-- A pass over the entries that changes each back.
map-undone :
    (f : TranscriptEntry → TranscriptEntry) (P : TranscriptEntry → Type 0)
    → ((e : TranscriptEntry) → P e → without_reply (revert (f e)) ≡ without_reply e)
    → (es : List TranscriptEntry) → All P es
    → map without_reply (map revert (map f es)) ≡ map without_reply es
map-undone f P undone [] h = refl
map-undone f P undone (e ∷ es) h = ap₂ ◌∷◌ (undone e h.0) (map-undone f P undone es h.1)

decide-undone :
    (r : String) (b : Behavior) (e : TranscriptEntry)
    → IsReady (decided r b) e
    → without_reply (revert (decide r b e)) ≡ without_reply e
unfolding revert decide
decide-undone r b (permission p) h = ground (arith, ==_iff p.request_id r)
decide-undone r b _ h = ground arith

give_answers-undone :
    (r : String) (given : List AnswerItem) (e : TranscriptEntry)
    → IsReady (answered r given) e
    → without_reply (revert (give_answers r given e)) ≡ without_reply e
unfolding revert give_answers
give_answers-undone r given (question q) h = ground (arith, ==_iff q.request_id r)
give_answers-undone r given _ h = ground arith

take_over-undone :
    (r reply : String) (e : TranscriptEntry)
    → IsReady (took_over r reply) e
    → without_reply (revert (take_over r reply e)) ≡ without_reply e
unfolding revert take_over
take_over-undone r reply (handover h') h = ground (arith, ==_iff h'.request_id r)
take_over-undone r reply _ h = ground arith

-- An action on an open ask, with nothing else in flight, that the relay answers with `relay.error`:
-- the entries are what they were before it, but for the reply that a question or a handover still
-- holds, and the view says that the action was not delivered.
pub failed_action-restores :
    (op : ViewOp) (now : ℕ) (e : Envelope) (s : SessionState) {regarding : String}
    → IsAction op
    → All (IsReady op) s.entries
    → e.type ≡ MessageType.relay_error
    → relay_error_payload e.payload ≡ some regarding
    → let t = run_op (received now e) (run_op op s) in
      (map without_reply t.entries ≡ map without_reply s.entries)
      × (t.delivery_error ≡ some undelivered_text)
unfolding run_op fold_undelivered revert_in_flight_actions mark_deciding mark_answering
    mark_handover_submitting
failed_action-restores op now e s {regarding} a h k p =
    rw (apply_envelope_typed MessageType.relay_error now e (run_op op s) k) (folded op a h)
  where
    folded :
        (op : ViewOp)
        → IsAction op
        → All (IsReady op) s.entries
        → let t = fold_undelivered e (run_op op s) in
          (map without_reply t.entries ≡ map without_reply s.entries)
          × (t.delivery_error ≡ some undelivered_text)
    folded (decided r b) a h =
        rw (p, fold_undelivered)
          (map-undone (decide r b) (IsReady (decided r b)) (decide-undone r b) s.entries h, refl)
    folded (answered r given) a h =
        rw (p, fold_undelivered)
          (
            map-undone (give_answers r given) (IsReady (answered r given))
                (give_answers-undone r given) s.entries h,
            refl,
          )
    folded (took_over r reply) a h =
        rw (p, fold_undelivered)
          (
            map-undone (take_over r reply) (IsReady (took_over r reply)) (take_over-undone r reply)
                s.entries h,
            refl,
          )
    folded _ a h = absurd a
