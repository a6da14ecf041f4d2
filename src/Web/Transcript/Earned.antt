-- ===== src/Web/Transcript/Earned.antt =====
-- apps/web/src/lib/session.ts: an ask reads as settled only after the human decided it and the
-- daemon was heard from, when the daemon's own record says so, or when the session has ended.
use telecode.Base.{
  ℕ, suc, String, true, some, List, [], ◌∷◌, ◌≡◌, refl, inl, inr, ◌⊎◌, arith, All, All-append,
  is_some,
}
use telecode.Base.Pointwise.{Pointwise-All}
use telecode.Protocol.Message.{MessageType}
use telecode.Protocol.Envelope.{Envelope}
use telecode.Protocol.History.{History, HistoryEntry, Verdict, history_payload}
use telecode.Web.Transcript.{
  TranscriptEntry, SessionState, permission, question, handover, DecisionState, AnswerState,
  HandoverState, map_history, map_history_entry, numbered,
}
use telecode.Web.Transcript.Actions.{Behavior}
use telecode.Web.Transcript.Log.{ViewOp, received, decided, answered, took_over, run_op, run}
use telecode.Web.Transcript.Lifecycle.{
  IsDelivered, IsEnd, IsPending, Evolves, stays, approves, rejects, answers, takes_over,
  confirms_approval, confirms_rejection, confirms_answer, confirms_takeover, reverts_decision,
  reverts_answer, reverts_takeover, closes_permission, closes_question, closes_handover, links,
  Advances, kept, grown, emptied, rebuilt,
}
use telecode.Web.Transcript.Lifecycle.Advance.{run_op-Advances}

-- What the view may claim that the human did with the ask of a request.
pub data Claim : Type 0 where
  approval denial answer takeover : (request : String) → Claim

-- The human did it.
abbrev pub IsAct : Claim → ViewOp → Type 0
IsAct (approval r) (decided s Behavior.allow) = r ≡ s
IsAct (denial r) (decided s Behavior.deny) = r ≡ s
IsAct (answer r) (answered s given) = r ≡ s
IsAct (takeover r) (took_over s reply) = r ≡ s
IsAct _ _ = ⊥

-- The daemon recorded it.
abbrev pub IsRecord : Claim → HistoryEntry → Type 0
IsRecord (approval r) (HistoryEntry.permission p) =
    (p.request_id ≡ r) × (p.decision ≡ Verdict.allow)
IsRecord (denial r) (HistoryEntry.permission p) = (p.request_id ≡ r) × (p.decision ≡ Verdict.deny)
IsRecord (answer r) (HistoryEntry.question q) = (q.request_id ≡ r) × (is_some q.answers ≡ true)
IsRecord (takeover r) (HistoryEntry.handover h) =
    (h.request_id ≡ r) × (is_some h.answer_text ≡ true)
IsRecord _ _ = ⊥

abbrev pub Some : (HistoryEntry → Type 0) → List HistoryEntry → Type 0
Some P [] = ⊥
Some P (x ∷ xs) = P x ⊎ Some P xs

-- A frame with the daemon's record, which has the claim.
pub IsReplay : Claim → ViewOp → Type 0
IsReplay c op =
    (now : ℕ) × (e : Envelope) × (h : History) × (op ≡ received now e)
    × (e.type ≡ MessageType.session_history)
    × (history_payload e.payload ≡ some h)
    × Some (IsRecord c) h.entries

-- The human did it at some time.
abbrev pub HasActed : Claim → List ViewOp → Type 0
HasActed c [] = ⊥
HasActed c (op ∷ log) = IsAct c op ⊎ HasActed c log

-- The human did it and a frame came through since, or the daemon's record has it.
abbrev pub IsConfirmed : Claim → List ViewOp → Type 0
IsConfirmed c [] = ⊥
IsConfirmed c (op ∷ log) = (IsDelivered op × HasActed c log) ⊎ (IsReplay c op ⊎ IsConfirmed c log)

-- `session.ended` has come at some time.
abbrev pub HasEnded : List ViewOp → Type 0
HasEnded [] = ⊥
HasEnded (op ∷ log) = IsEnd op ⊎ HasEnded log

-- What the view shows of an ask is backed by the log; only a pending ask needs no backing.
abbrev pub IsEarned : List ViewOp → TranscriptEntry → Type 0
IsEarned log (permission p) =
    (p.decision ≡ DecisionState.approving → HasActed (approval p.request_id) log)
    × (p.decision ≡ DecisionState.rejecting → HasActed (denial p.request_id) log)
    × (p.decision ≡ DecisionState.approved → IsConfirmed (approval p.request_id) log)
    × (p.decision ≡ DecisionState.rejected → IsConfirmed (denial p.request_id) log ⊎ HasEnded log)
IsEarned log (question q) =
    (q.answer ≡ AnswerState.answering → HasActed (answer q.request_id) log)
    × (q.answer ≡ AnswerState.answered → IsConfirmed (answer q.request_id) log)
    × (q.answer ≡ AnswerState.closed → HasEnded log)
IsEarned log (handover h) =
    (h.state ≡ HandoverState.submitting → HasActed (takeover h.request_id) log)
    × (h.state ≡ HandoverState.submitted → IsConfirmed (takeover h.request_id) log)
    × (h.state ≡ HandoverState.closed → HasEnded log)
IsEarned log _ = Unit

later_rejection :
    (r : String) (op : ViewOp) (log : List ViewOp)
    → IsConfirmed (denial r) log ⊎ HasEnded log
    → IsConfirmed (denial r) (op ∷ log) ⊎ HasEnded (op ∷ log)
later_rejection r op log (inl c) = inl (inr (inr c))
later_rejection r op log (inr e) = inr (inr e)

later-IsEarned :
    (op : ViewOp) (log : List ViewOp) (e : TranscriptEntry) → IsEarned log e → IsEarned (op ∷ log) e
later-IsEarned op log (permission p) (a, b, c, d) = (
  λ e. inr (a e),
  λ e. inr (b e),
  λ e. inr (inr (c e)),
  λ e. later_rejection p.request_id op log (d e),
)
later-IsEarned op log (question q) (a, b, c) =
    (λ e. inr (a e), λ e. inr (inr (b e)), λ e. inr (c e))
later-IsEarned op log (handover h') (a, b, c) =
    (λ e. inr (a e), λ e. inr (inr (b e)), λ e. inr (c e))
later-IsEarned op log _ h = tt

-- The state of the entry is named by the constructor, so one of the claims is about it.
Evolves-IsEarned :
    (op : ViewOp) (log : List ViewOp) (e f : TranscriptEntry)
    → Evolves op e f
    → IsEarned log e
    → IsEarned (op ∷ log) f
Evolves-IsEarned op log e _ stays h = later-IsEarned op log e h
Evolves-IsEarned op log _ _ (approves eq) h =
    (λ e. inl (rw eq refl), λ e. absurd cc, λ e. absurd cc, λ e. absurd cc)
Evolves-IsEarned op log _ _ (rejects eq) h =
    (λ e. absurd cc, λ e. inl (rw eq refl), λ e. absurd cc, λ e. absurd cc)
Evolves-IsEarned op log _ _ (answers eq) h = (λ e. inl (rw eq refl), λ e. absurd cc, λ e. absurd cc)
Evolves-IsEarned op log _ _ (takes_over eq) h =
    (λ e. inl (rw eq refl), λ e. absurd cc, λ e. absurd cc)
Evolves-IsEarned op log _ _ (confirms_approval d eq) h =
    (λ e. absurd cc, λ e. absurd cc, λ e. inl (d, h.0 eq), λ e. absurd cc)
Evolves-IsEarned op log _ _ (confirms_rejection d eq) h =
    (λ e. absurd cc, λ e. absurd cc, λ e. absurd cc, λ e. inl (inl (d, h.1 eq)))
Evolves-IsEarned op log _ _ (confirms_answer d eq) h =
    (λ e. absurd cc, λ e. inl (d, h.0 eq), λ e. absurd cc)
Evolves-IsEarned op log _ _ (confirms_takeover d eq) h =
    (λ e. absurd cc, λ e. inl (d, h.0 eq), λ e. absurd cc)
Evolves-IsEarned op log _ _ (reverts_decision d eq) h =
    (λ e. absurd cc, λ e. absurd cc, λ e. absurd cc, λ e. absurd cc)
Evolves-IsEarned op log _ _ (reverts_answer d eq) h =
    (λ e. absurd cc, λ e. absurd cc, λ e. absurd cc)
Evolves-IsEarned op log _ _ (reverts_takeover d eq) h =
    (λ e. absurd cc, λ e. absurd cc, λ e. absurd cc)
Evolves-IsEarned op log _ _ (closes_permission d eq) h =
    (λ e. absurd cc, λ e. absurd cc, λ e. absurd cc, λ e. inr (inl d))
Evolves-IsEarned op log _ _ (closes_question d eq) h = (λ e. absurd cc, λ e. absurd cc, λ e. inl d)
Evolves-IsEarned op log _ _ (closes_handover d eq) h = (λ e. absurd cc, λ e. absurd cc, λ e. inl d)
Evolves-IsEarned op log _ _ (links d eq t) (a, b, c) =
    (λ e. inr (a e), λ e. inr (inr (b e)), λ e. inr (c e))

pending-IsEarned : (log : List ViewOp) (e : TranscriptEntry) → IsPending e → IsEarned log e
pending-IsEarned log (permission p) n =
    (λ e. absurd cc, λ e. absurd cc, λ e. absurd cc, λ e. absurd cc)
pending-IsEarned log (question q) n = (λ e. absurd cc, λ e. absurd cc, λ e. absurd cc)
pending-IsEarned log (handover h) n = (λ e. absurd cc, λ e. absurd cc, λ e. absurd cc)
pending-IsEarned log _ n = tt

-- An entry of the record that the view has replaced its own by.
recorded-IsEarned :
    (op : ViewOp) (log : List ViewOp) (x : HistoryEntry) (i : ℕ)
    → ((c : Claim) → IsRecord c x → IsReplay c op)
    → IsEarned (op ∷ log) (map_history_entry x (numbered i))
unfolding map_history_entry
recorded-IsEarned op log (HistoryEntry.permission p) i replay = (
  λ e. absurd (ground arith),
  λ e. absurd (ground arith),
  λ e. inr (inl (replay (approval p.request_id) (refl, ground arith))),
  λ e. inl (inr (inl (replay (denial p.request_id) (refl, ground arith)))),
)
recorded-IsEarned op log (HistoryEntry.question q) i replay = (
  λ e. absurd (ground arith),
  λ e. inr (inl (replay (answer q.request_id) (refl, ground arith))),
  λ e. absurd (ground arith),
)
recorded-IsEarned op log (HistoryEntry.handover h) i replay = (
  λ e. absurd (ground arith),
  λ e. inr (inl (replay (takeover h.request_id) (refl, ground arith))),
  λ e. absurd (ground arith),
)
recorded-IsEarned op log _ i replay = tt

map_history-IsEarned :
    (op : ViewOp) (log : List ViewOp) (xs : List HistoryEntry) (i : ℕ)
    → ((c : Claim) → Some (IsRecord c) xs → IsReplay c op)
    → All (IsEarned (op ∷ log)) (map_history i xs)
unfolding map_history
map_history-IsEarned op log [] i replay = tt
map_history-IsEarned op log (x ∷ xs) i replay = (
  recorded-IsEarned op log x i (λ c r. replay c (inl r)),
  map_history-IsEarned op log xs (suc i) (λ c r. replay c (inr r)),
)

Advances-IsEarned :
    (op : ViewOp) (log : List ViewOp) (s t : SessionState)
    → Advances op s t
    → All (IsEarned log) s.entries
    → All (IsEarned (op ∷ log)) t.entries
unfolding IsReplay
Advances-IsEarned op log s t (kept m k) h =
    Pointwise-All (IsEarned log) (IsEarned (op ∷ log)) (Evolves-IsEarned op log) m h
Advances-IsEarned op log s t (grown es e m own new g k) h = rw g (
    All-append (IsEarned (op ∷ log)) es (e ∷ [])
      (Pointwise-All (IsEarned log) (IsEarned (op ∷ log)) (Evolves-IsEarned op log) m h)
      (pending-IsEarned (op ∷ log) e new, tt))
Advances-IsEarned op log s t (emptied o g k) h = rw g tt
Advances-IsEarned op log s t (rebuilt {now = now} {e = e} {h = rec} o y p g k) h =
    rw g (map_history-IsEarned op log rec.entries 0 (λ c r. (now, e, rec, o, y, p, r)))

-- Whatever the log of a view: a permission reads as approved, a question as answered and a handover
-- as submitted only where the human did so and a frame of the daemon came through at some later
-- time, or where the daemon's record of the session, received at some time, says so; a permission
-- reads as rejected only for such a denial, or where `session.ended` has come at some time; a
-- question or a handover reads as closed only where `session.ended` has come; and each ask reads as
-- in flight only where the human acted on its request in that way.
pub run-IsEarned : (log : List ViewOp) → All (IsEarned log) (run log).entries
unfolding run
run-IsEarned [] = tt
run-IsEarned (op ∷ log) =
    Advances-IsEarned op log (run log) (run_op op (run log)) (run_op-Advances op (run log))
      (run-IsEarned log)
