-- ===== src/Web/Transcript/Ended.antt =====
-- apps/web/src/lib/session.ts: a session that has ended in the view.
use telecode.Base.{
  ℕ, ◌<◌, true, some, List, [], ◌∷◌, map, length, length-map, ◌≡◌, ◌∙◌, refl, ap, ap₂, inl, inr,
  ◌⊎◌, arith, All, Option-cases, ◌==◌, ◌&&◌, ltb, nat_eq,
}
use telecode.Protocol.Message.{MessageType}
use telecode.Protocol.Envelope.{Envelope}
use telecode.Protocol.Payload.{status_payload}
use telecode.Protocol.Frames.{relay_error_payload}
use telecode.Protocol.History.{History, history_payload}
use telecode.Web.Transcript.{
  TranscriptEntry, SessionState, permission, question, handover, DecisionState, AnswerState,
  HandoverState, confirm, close_gate, revert, is_ended, confirm_in_flight_actions, close_open_gates,
  revert_in_flight_actions,
}
use telecode.Web.Transcript.Fold.{
  fold_undelivered, fold_delivered, fold_status, fold_ended, fold_history, confirmed_base,
  apply_envelope, apply_envelope_typed,
}

-- Nobody is waited for.
abbrev pub IsSettled : TranscriptEntry → Type 0
IsSettled (permission p) =
    (p.decision ≡ DecisionState.approved) ⊎ (p.decision ≡ DecisionState.rejected)
IsSettled (question q) = (q.answer ≡ AnswerState.answered) ⊎ (q.answer ≡ AnswerState.closed)
IsSettled (handover h) = (h.state ≡ HandoverState.submitted) ⊎ (h.state ≡ HandoverState.closed)
IsSettled _ = Unit

-- A backfill without entries.
abbrev pub IsEmptyBackfill : Envelope → Type 0
IsEmptyBackfill f =
    (f.type ≡ MessageType.session_history)
    × (h : History) × (history_payload f.payload ≡ some h)
    × (length h.entries ≡ 0)

-- A report that may still arrive after the end.
abbrev pub IsStray : Envelope → Type 0
IsStray f =
    (f.type ≡ MessageType.relay_error) ⊎ ((f.type ≡ MessageType.session_status) ⊎ IsEmptyBackfill f)

-- The frames in the order of their arrival.
pub apply_all : List (ℕ × Envelope) → SessionState → SessionState
unfolding apply_envelope
apply_all [] s = s
apply_all ((now, f) ∷ fs) s = apply_all fs (apply_envelope now f s)

close_gate-confirm-IsSettled : (e : TranscriptEntry) → IsSettled (close_gate (confirm e))
unfolding close_gate confirm
close_gate-confirm-IsSettled e = ground arith

confirm-settled : (e : TranscriptEntry) → IsSettled e → confirm e ≡ e
unfolding confirm
confirm-settled e h = ground arith

revert-settled : (e : TranscriptEntry) → IsSettled e → revert e ≡ e
unfolding revert
revert-settled e h = ground arith

map-fixed :
    (f : TranscriptEntry → TranscriptEntry)
    → ((e : TranscriptEntry) → IsSettled e → f e ≡ e)
    → (es : List TranscriptEntry) → All IsSettled es
    → map f es ≡ es
map-fixed f fixed [] h = refl
map-fixed f fixed (e ∷ es) h = ap₂ ◌∷◌ (fixed e h.0) (map-fixed f fixed es h.1)

close_open_gates-IsSettled :
    (es : List TranscriptEntry) → All IsSettled (map close_gate (map confirm es))
close_open_gates-IsSettled [] = tt
close_open_gates-IsSettled (e ∷ es) =
    (close_gate-confirm-IsSettled e, close_open_gates-IsSettled es)

-- What a stray frame leaves of a settled view.
pub record IsOver (s : SessionState) : Type 0 where
  pub settled : All IsSettled s.entries
  pub ended : is_ended s.status ≡ true
  pub some_entry : 0 < length s.entries

end_status-is_ended : (e : Envelope) (s : SessionState) → is_ended (fold_ended e s).status ≡ true
unfolding fold_ended
end_status-is_ended e s = ground arith

ended-IsOver :
    (now : ℕ) (e : Envelope) (s : SessionState)
    → e.type ≡ MessageType.session_ended
    → 0 < length s.entries
    → IsOver (apply_envelope now e s)
unfolding fold_delivered fold_ended close_open_gates confirmed_base confirm_in_flight_actions
ended-IsOver now e s h n = rw (apply_envelope_typed MessageType.session_ended now e s h) (record {
  settled = close_open_gates-IsSettled s.entries;
  ended = end_status-is_ended e (confirmed_base MessageType.session_ended s);
  some_entry =
      omega (arith, length-map close_gate (map confirm s.entries), length-map confirm s.entries);
})

IsSame : SessionState → SessionState → Type 0
IsSame s t = (t.entries ≡ s.entries) × (t.status ≡ s.status)

module _ (s : SessionState) (over : IsOver s) where
  -- The base that a delivered frame is folded into has the same entries and status.
  confirmed_base-IsOver :
      (u : MessageType)
      → ((confirmed_base u s).entries ≡ s.entries) × ((confirmed_base u s).status ≡ s.status)
  unfolding confirmed_base confirm_in_flight_actions
  confirmed_base-IsOver u = (map-fixed confirm confirm-settled s.entries over.settled, refl)

  fold_undelivered-IsSame : (e : Envelope) → IsSame s (fold_undelivered e s)
  unfolding IsSame fold_undelivered revert_in_flight_actions
  fold_undelivered-IsSame e = elim (Option-cases (relay_error_payload e.payload)) [
    | inl n ↦ rw (n, fold_undelivered) (refl, refl)
    | inr (p, h) ↦
        rw (h, fold_undelivered, over.ended)
          (map-fixed revert revert-settled s.entries over.settled, refl)
  ]

  fold_status-IsSame : (e : Envelope) (b : SessionState) → IsSame s b → IsSame s (fold_status e b)
  unfolding IsSame fold_status
  fold_status-IsSame e b (x, y) = elim (Option-cases (status_payload e.payload)) [
    | inl n ↦ rw (n, fold_status) (x, y)
    | inr (p, h) ↦ rw (h, fold_status, y, over.ended) (x, refl)
  ]

  fold_history-IsSame :
      (e : Envelope) (b : SessionState)
      → IsSame s b
      → IsEmptyBackfill e
      → IsSame s (fold_history e b)
  unfolding IsSame fold_history
  fold_history-IsSame e b (x, y) (k, h, p, n) =
      let m : length b.entries ≡ length s.entries = ap length x in
      let guard : (length h.entries == 0 && ltb 0 (length b.entries)) ≡ true =
        ground (arith, over.some_entry, m, n) in
      rw (p, guard, fold_history, y, over.ended) (x, refl)

  stray-IsSame : (now : ℕ) (f : Envelope) → IsStray f → IsSame s (apply_envelope now f s)
  unfolding fold_delivered IsSame
  stray-IsSame now f (inl k) =
      rw (apply_envelope_typed MessageType.relay_error now f s k) (fold_undelivered-IsSame f)
  stray-IsSame now f (inr (inl k)) =
      rw (apply_envelope_typed MessageType.session_status now f s k)
        (fold_status-IsSame f _ (confirmed_base-IsOver MessageType.session_status))
  stray-IsSame now f (inr (inr e)) =
      rw (apply_envelope_typed MessageType.session_history now f s e.0)
        (fold_history-IsSame f _ (confirmed_base-IsOver MessageType.session_history) e)

  same-IsOver : (t : SessionState) → IsSame s t → IsOver t
  unfolding IsSame
  same-IsOver t h = record {
    settled = rw h.0 over.settled;
    ended = rw h.1 over.ended;
    some_entry = rw h.0 over.some_entry;
  }

apply_all-IsSame :
    (late : List (ℕ × Envelope)) (s : SessionState)
    → IsOver s
    → All (λ x. IsStray x.1) late
    → IsSame s (apply_all late s)
unfolding apply_all IsSame
apply_all-IsSame [] s over h = (refl, refl)
apply_all-IsSame ((now, f) ∷ fs) s over h =
    let first = stray-IsSame s over now f h.0 in
    let rest = apply_all-IsSame fs (apply_envelope now f s) (same-IsOver s over _ first) h.1 in
    (rest.0 ∙ first.0, rest.1 ∙ first.1)

-- When `session.ended` has come for a session with entries, no ask is open or in flight and the
-- status is terminal; and whatever relay errors, status reports and empty backfills arrive after it,
-- the entries and the status stay as they are.
pub ended_stays :
    (now : ℕ) (e : Envelope) (s : SessionState) (late : List (ℕ × Envelope))
    → e.type ≡ MessageType.session_ended
    → 0 < length s.entries
    → All (λ x. IsStray x.1) late
    → let t = apply_envelope now e s in
      let u = apply_all late t in
      All IsSettled t.entries
      × (is_ended t.status ≡ true)
      × (u.entries ≡ t.entries)
      × (u.status ≡ t.status)
unfolding IsSame
ended_stays now e s late h n strays =
    let over = ended-IsOver now e s h n in
    let same = apply_all-IsSame late (apply_envelope now e s) over strays in
    (over.settled, over.ended, same.0, same.1)
