-- ===== src/Web/Transcript/Lifecycle/Advance.antt =====
-- apps/web/src/lib/session.ts: every operation of the view advances it within the lifecycles.
use telecode.Base.{
  ℕ, String, true, reverse, reverse-reverse, ◌≡◌, refl, inl, inr, arith, Bool-cases, Option-cases,
  subst, nat_eq,
}
use telecode.Base.Pointwise.{Pointwise, Pointwise-map, Pointwise-reverse}
use telecode.Protocol.Message.{MessageType}
use telecode.Protocol.Envelope.{Envelope}
use telecode.Protocol.Frames.{relay_error_payload}
use telecode.Web.Transcript.{SessionState, revert, revert_in_flight_actions}
use telecode.Web.Transcript.Fold.{append_entry, fold_undelivered, is_undelivered, apply_envelope}
use telecode.Web.Transcript.Actions.{
  decide, give_answers, take_over, link_first, append_user_message, mark_deciding, mark_answering,
  mark_handover_submitting, link_handover_child,
}
use telecode.Web.Transcript.Log.{
  ViewOp, launching, received, said, decided, answered, took_over, chained, run_op,
}
use telecode.Web.Transcript.Lifecycle.{Evolves, Advances, kept, grown, emptied}
use telecode.Web.Transcript.Lifecycle.Moves.{
  revert-Evolves, decide-Evolves, give_answers-Evolves, take_over-Evolves, all_stay,
  link_first-Evolves,
}
use telecode.Web.Transcript.Lifecycle.Folds.{fold_delivered-Advances}

undelivered-IsFailure :
    (type : MessageType) → is_undelivered type ≡ true → type ≡ MessageType.relay_error
undelivered-IsFailure MessageType.relay_error h = refl
undelivered-IsFailure _ h = absurd (ground arith)

apply_envelope-Advances :
    (now : ℕ) (e : Envelope) (s : SessionState)
    → Advances (received now e) s (apply_envelope now e s)
unfolding apply_envelope
apply_envelope-Advances now e s = elim (Bool-cases (is_undelivered e.type)) [
  | inl t ↦ rw (t, apply_envelope) (failed (undelivered-IsFailure e.type t))
  | inr t ↦
      rw (t, apply_envelope) (fold_delivered-Advances (received now e) t e.type s now e refl refl)
]
  where
    failed : e.type ≡ MessageType.relay_error → Advances (received now e) s (fold_undelivered e s)
    failed f = elim (Option-cases (relay_error_payload e.payload)) [
      | inl n ↦ rw (n, fold_undelivered) (kept (all_stay s.entries) refl)
      | inr (p, h) ↦ rw (h, fold_undelivered) (kept (reverted f) refl)
    ]
      where
        reverted :
            e.type ≡ MessageType.relay_error
            → Pointwise (Evolves (received now e)) s.entries (revert_in_flight_actions s.entries)
        reverted f =
            unfold revert_in_flight_actions in
            Pointwise-map revert (revert-Evolves (received now e) f) s.entries

link_handover_child-Advances :
    (child : String) (s : SessionState) → Advances (chained child) s (link_handover_child child s)
unfolding link_handover_child
link_handover_child-Advances child s = elim (Bool-cases (link_first child (reverse s.entries)).1) [
  | inl t ↦ rw (t, link_handover_child) (kept linked refl)
  | inr t ↦ rw (t, link_handover_child) (kept (all_stay s.entries) refl)
]
  where
    linked :
        Pointwise
          (Evolves (chained child))
          s.entries
          (reverse (link_first child (reverse s.entries)).0)
    linked =
        subst
          (λ es.
            Pointwise (Evolves (chained child)) es
              (reverse (link_first child (reverse s.entries)).0))
          (reverse-reverse s.entries)
          (Pointwise-reverse (link_first-Evolves child (reverse s.entries)))

-- Every operation of the view moves each entry along its lifecycle or leaves it, and appends at
-- most one entry, which is undecided; only a launch and the daemon's record replace the entries.
pub run_op-Advances : (op : ViewOp) (s : SessionState) → Advances op s (run_op op s)
unfolding run_op append_user_message append_entry mark_deciding mark_answering
    mark_handover_submitting
run_op-Advances launching s = emptied refl refl refl
run_op-Advances (received now e) s = apply_envelope-Advances now e s
run_op-Advances (said now prompt) s = grown s.entries _ (all_stay s.entries) refl tt refl refl
run_op-Advances (decided request behavior) s =
    kept (Pointwise-map (decide request behavior) (decide-Evolves request behavior) s.entries) refl
run_op-Advances (answered request given) s =
    kept (Pointwise-map (give_answers request given) (give_answers-Evolves request given) s.entries)
      refl
run_op-Advances (took_over request reply) s =
    kept (Pointwise-map (take_over request reply) (take_over-Evolves request reply) s.entries) refl
run_op-Advances (chained child) s = link_handover_child-Advances child s
