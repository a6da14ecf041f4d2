-- ===== src/Web/Transcript/Lifecycle/Moves.antt =====
-- apps/web/src/lib/session.ts: what each pass over the entries does to one of them.
use telecode.Base.{
  String, true, none, List, [], ◌∷◌, ◌≡◌, refl, inl, inr, arith, sym, ap, Bool-cases, ◌==◌, ==_iff,
  string_eq,
}
use telecode.Base.Pointwise.{Pointwise, nothing, next}
use telecode.Protocol.Frames.{AnswerItem}
use telecode.Web.Transcript.{
  TranscriptEntry, permission, question, handover, DecisionState, AnswerState, HandoverState,
  confirm, close_gate, revert,
}
use telecode.Web.Transcript.Actions.{
  Behavior, decide, give_answers, take_over, is_taken_over, is_linkable, link_first, with_child,
}
use telecode.Web.Transcript.Log.{ViewOp, decided, answered, took_over, chained}
use telecode.Web.Transcript.Lifecycle.{
  IsDelivered, IsFailure, IsEnd, Evolves, stays, approves, rejects, answers, takes_over,
  confirms_approval, confirms_rejection, confirms_answer, confirms_takeover, reverts_decision,
  reverts_answer, reverts_takeover, closes_permission, closes_question, closes_handover, links,
}

module _ (op : ViewOp) where
  pub confirm-Evolves : IsDelivered op → (e : TranscriptEntry) → Evolves op e (confirm e)
  unfolding confirm
  confirm-Evolves d (permission p) = by_decision p.decision refl
    where
      by_decision :
          (s : DecisionState) → p.decision ≡ s → Evolves op (permission p) (confirm (permission p))
      by_decision DecisionState.approving eq = simp (eq, confirm) (confirms_approval d eq)
      by_decision DecisionState.rejecting eq = simp (eq, confirm) (confirms_rejection d eq)
      by_decision _ eq = simp (eq, confirm) stays
  confirm-Evolves d (question q) = by_answer q.answer refl
    where
      by_answer : (s : AnswerState) → q.answer ≡ s → Evolves op (question q) (confirm (question q))
      by_answer AnswerState.answering eq = simp (eq, confirm) (confirms_answer d eq)
      by_answer _ eq = simp (eq, confirm) stays
  confirm-Evolves d (handover h) = by_state h.state refl
    where
      by_state : (s : HandoverState) → h.state ≡ s → Evolves op (handover h) (confirm (handover h))
      by_state HandoverState.submitting eq = simp (eq, confirm) (confirms_takeover d eq)
      by_state _ eq = simp (eq, confirm) stays
  confirm-Evolves d _ = stays

  -- The end of a session closes what its own delivery has not confirmed.
  pub close_gate-confirm-Evolves :
      IsDelivered op → IsEnd op → (e : TranscriptEntry) → Evolves op e (close_gate (confirm e))
  unfolding confirm close_gate
  close_gate-confirm-Evolves d n (permission p) = by_decision p.decision refl
    where
      by_decision :
          (s : DecisionState)
          → p.decision ≡ s
          → Evolves op (permission p) (close_gate (confirm (permission p)))
      by_decision DecisionState.pending eq = simp (eq, confirm, close_gate) (closes_permission n eq)
      by_decision DecisionState.approving eq =
          simp (eq, confirm, close_gate) (confirms_approval d eq)
      by_decision DecisionState.rejecting eq =
          simp (eq, confirm, close_gate) (confirms_rejection d eq)
      by_decision _ eq = simp (eq, confirm, close_gate) stays
  close_gate-confirm-Evolves d n (question q) = by_answer q.answer refl
    where
      by_answer :
          (s : AnswerState)
          → q.answer ≡ s
          → Evolves op (question q) (close_gate (confirm (question q)))
      by_answer AnswerState.pending eq = simp (eq, confirm, close_gate) (closes_question n eq)
      by_answer AnswerState.answering eq = simp (eq, confirm, close_gate) (confirms_answer d eq)
      by_answer _ eq = simp (eq, confirm, close_gate) stays
  close_gate-confirm-Evolves d n (handover h) = by_state h.state refl
    where
      by_state :
          (s : HandoverState)
          → h.state ≡ s
          → Evolves op (handover h) (close_gate (confirm (handover h)))
      by_state HandoverState.pending eq = simp (eq, confirm, close_gate) (closes_handover n eq)
      by_state HandoverState.submitting eq = simp (eq, confirm, close_gate) (confirms_takeover d eq)
      by_state _ eq = simp (eq, confirm, close_gate) stays
  close_gate-confirm-Evolves d n _ = stays

  pub revert-Evolves : IsFailure op → (e : TranscriptEntry) → Evolves op e (revert e)
  unfolding revert
  revert-Evolves f (permission p) = by_decision p.decision refl
    where
      by_decision :
          (s : DecisionState) → p.decision ≡ s → Evolves op (permission p) (revert (permission p))
      by_decision DecisionState.approving eq = simp (eq, revert) (reverts_decision f (inl eq))
      by_decision DecisionState.rejecting eq = simp (eq, revert) (reverts_decision f (inr eq))
      by_decision _ eq = simp (eq, revert) stays
  revert-Evolves f (question q) = by_answer q.answer refl
    where
      by_answer : (s : AnswerState) → q.answer ≡ s → Evolves op (question q) (revert (question q))
      by_answer AnswerState.answering eq = simp (eq, revert) (reverts_answer f eq)
      by_answer _ eq = simp (eq, revert) stays
  revert-Evolves f (handover h) = by_state h.state refl
    where
      by_state : (s : HandoverState) → h.state ≡ s → Evolves op (handover h) (revert (handover h))
      by_state HandoverState.submitting eq = simp (eq, revert) (reverts_takeover f eq)
      by_state _ eq = simp (eq, revert) stays
  revert-Evolves f _ = stays

pub decide-Evolves :
    (request : String) (behavior : Behavior) (e : TranscriptEntry)
    → Evolves (decided request behavior) e (decide request behavior e)
unfolding decide
decide-Evolves request behavior (permission p) = elim (Bool-cases (p.request_id == request)) [
  | inl t ↦ simp (t, decide) (acted behavior (sym ((==_iff p.request_id request).0 t)))
  | inr t ↦ simp (t, decide) stays
]
  where
    acted :
        (b : Behavior)
        → request ≡ p.request_id
        → Evolves (decided request b) (permission p) (
            permission (record p {
              decision = elim b [
                | Behavior.allow ↦ DecisionState.approving
                | Behavior.deny ↦ DecisionState.rejecting
              ];
            }))
    acted Behavior.allow e = approves (ap (λ r. decided r Behavior.allow) e)
    acted Behavior.deny e = rejects (ap (λ r. decided r Behavior.deny) e)
decide-Evolves request behavior _ = stays

pub give_answers-Evolves :
    (request : String) (given : List AnswerItem) (e : TranscriptEntry)
    → Evolves (answered request given) e (give_answers request given e)
unfolding give_answers
give_answers-Evolves request given (question q) = elim (Bool-cases (q.request_id == request)) [
  | inl t ↦
      simp (t, give_answers)
        (answers (ap (λ r. answered r given) (sym ((==_iff q.request_id request).0 t))))
  | inr t ↦ simp (t, give_answers) stays
]
give_answers-Evolves request given _ = stays

pub take_over-Evolves :
    (request reply : String) (e : TranscriptEntry)
    → Evolves (took_over request reply) e (take_over request reply e)
unfolding take_over
take_over-Evolves request reply (handover h) = elim (Bool-cases (h.request_id == request)) [
  | inl t ↦
      simp (t, take_over)
        (takes_over (ap (λ r. took_over r reply) (sym ((==_iff h.request_id request).0 t))))
  | inr t ↦ simp (t, take_over) stays
]
take_over-Evolves request reply _ = stays

pub all_stay : {op : ViewOp} (es : List TranscriptEntry) → Pointwise (Evolves op) es es
all_stay [] = nothing
all_stay (e ∷ es) = next stays (all_stay es)

pub link_first-Evolves :
    (child : String) (es : List TranscriptEntry)
    → Pointwise (Evolves (chained child)) es (link_first child es).0
unfolding link_first is_linkable
link_first-Evolves child [] = nothing
link_first-Evolves child (e ∷ es) = elim (Bool-cases (is_linkable e)) [
  | inl t ↦ rw t (next (linked e t) (all_stay es))
  | inr t ↦ rw t (next stays (link_first-Evolves child es))
]
  where
    linked :
        (e : TranscriptEntry)
        → is_linkable e ≡ true
        → Evolves (chained child) e (with_child child e)
    linked (handover h) t =
        let facts : (h.child_session_id ≡ none) × (is_taken_over h.state ≡ true) = ground arith in
        links refl facts.0 facts.1
    linked _ t = absurd (ground arith)
