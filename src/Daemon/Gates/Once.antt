-- ===== src/Daemon/Gates/Once.antt =====
-- packages/daemon/src/daemon.ts: no gate is settled twice, and none is lost.
use telecode.Base.{
  ℕ, ◌+◌, ◌≤◌, ◌<◌, String, Bool, not, Option, none, List, [], ◌∷◌, ◌++◌, map, filter, ◌≡◌, refl,
  inl, inr, arith, Bool-cases, ◌==◌, ==-self, ◌⊎◌, string_eq,
}
use telecode.Base.Dict.{set}
use telecode.Daemon.Policy.{PermissionMode}
use telecode.Daemon.Gates.{
  Decision, permission_resolved, question_resolved, SessionRecord, Daemon, auto_approve_by_policy,
  open_gate, request_permission, request_question_answer,
}
use telecode.Daemon.Gates.Settle.{GateOp, tool_requested, question_raised, run_op, run}
use telecode.Daemon.Gates.Kept.{Gates, gates}
use telecode.Daemon.Gates.Effects.{
  Effect, idle, approved, permission_opened, question_opened, permission_settled, question_settled,
  released, run_op-Effect,
}
use telecode.Daemon.Gates.Accounts.{
  occurrences, resolutions, settled_or_pending, requests_of, requests, occurrences-set_le,
  occurrences_le-set, occurrences-delete, get-occurrences, occurrences-filter, resolutions-append,
  resolutions-map,
}

module _ (r : String) (op : GateOp) where
  -- What a release moves from the pending gates to the resolver calls.
  released_same :
      (p : String × Option String → Bool) (message : String) (g : Gates)
      → resolutions r (
            map (λ k. question_resolved k.0 none) (filter p g.questions)
            ++ (map (λ k. permission_resolved k.0 (Decision.deny message)) (filter p g.permissions)
                ++ g.resolved))
          + (occurrences r (filter (λ k. not (p k)) g.permissions)
              + occurrences r (filter (λ k. not (p k)) g.questions))
        ≡ settled_or_pending r g
  released_same p message g =
      let asked =
        map (λ (k : String × Option String). question_resolved k.0 none) (filter p g.questions) in
      let denied =
        map (λ (k : String × Option String). permission_resolved k.0 (Decision.deny message))
          (filter p g.permissions) in
      omega (
        arith,
        resolutions-append r asked (denied ++ g.resolved),
        resolutions-append r denied g.resolved,
        resolutions-map r (λ k. question_resolved k.0 none) (λ k. refl) (filter p g.questions),
        resolutions-map r (λ k. permission_resolved k.0 (Decision.deny message)) (λ k. refl)
            (filter p g.permissions),
        occurrences-filter r p g.permissions,
        occurrences-filter r p g.questions,
      )

  Effect-le :
      (m : Option String → PermissionMode) (g h : Gates)
      → Effect op m g h
      → settled_or_pending r h ≤ requests_of r op + settled_or_pending r g
  Effect-le m g h (idle e) = rw e (omega arith)
  Effect-le m g h (approved request s o c e) = rw e (omega arith)
  Effect-le m g h (permission_opened request s o e) =
      rw (e, o) (omega (arith, occurrences-set_le r request.request_id s g.permissions))
  Effect-le m g h (question_opened asked s o e) =
      rw (e, o) (omega (arith, occurrences-set_le r asked.request_id s g.questions))
  Effect-le m g h (permission_settled q s decision f b e) =
      rw e (
        ground (arith, occurrences-delete r q g.permissions, get-occurrences r q s g.permissions f))
  Effect-le m g h (question_settled q s given f e) =
      rw e (ground (arith, occurrences-delete r q g.questions, get-occurrences r q s g.questions f))
  Effect-le m g h (released p message e) = rw e (omega (arith, released_same p message g))

  Effect-kept :
      (m : Option String → PermissionMode) (g h : Gates)
      → Effect op m g h
      → 0 < settled_or_pending r g
      → 0 < settled_or_pending r h
  Effect-kept m g h (idle e) k = rw e k
  Effect-kept m g h (approved request s o c e) k = rw e (omega arith)
  Effect-kept m g h (permission_opened request s o e) k =
      rw e (omega (arith, occurrences_le-set r request.request_id s g.permissions))
  Effect-kept m g h (question_opened asked s o e) k =
      rw e (omega (arith, occurrences_le-set r asked.request_id s g.questions))
  Effect-kept m g h (permission_settled q s decision f b e) k =
      rw e (ground (arith, occurrences-delete r q g.permissions))
  Effect-kept m g h (question_settled q s given f e) k =
      rw e (ground (arith, occurrences-delete r q g.questions))
  Effect-kept m g h (released p message e) k = rw e (omega (arith, released_same p message g))

-- The operation opens a gate for the request.
abbrev pub Opens : String → GateOp → Daemon → Type 0
Opens r (tool_requested session request) d =
    (request.request_id ≡ r) × (auto_approve_by_policy session request d ≡ none)
Opens r (question_raised session asked) d = asked.request_id ≡ r
Opens r _ d = ⊥

pub HasOpened : String → List (String × SessionRecord) → List GateOp → Type 0
HasOpened r records [] = ⊥
HasOpened r records (op ∷ log) = Opens r op (run records log) ⊎ HasOpened r records log

occurrences-set :
    (r : String) (s : Option String) (m : List (String × Option String))
    → 0 < occurrences r (set r s m)
unfolding set
occurrences-set r s [] = rw (==-self r) (omega arith)
occurrences-set r s ((j, t) ∷ m) = elim (Bool-cases (j == r)) [
  | inl e ↦ rw e (rw (==-self r) (omega arith))
  | inr e ↦ rw e (omega (arith, occurrences-set r s m))
]

set_is_pending :
    (r k : String) (s : Option String)
    → k ≡ r
    → (m : List (String × Option String)) (n q : ℕ) → 0 < n + (occurrences r (set k s m) + q)
set_is_pending r k s e m n q = rw e (omega (arith, occurrences-set r s m))

asked_is_pending :
    (r k : String) (s : Option String)
    → k ≡ r
    → (m : List (String × Option String)) (n q : ℕ) → 0 < n + (q + occurrences r (set k s m))
asked_is_pending r k s e m n q = rw e (omega (arith, occurrences-set r s m))

opened-is_pending :
    (r : String) (op : GateOp) (d : Daemon)
    → Opens r op d
    → 0 < settled_or_pending r (gates (run_op op d))
unfolding run_op request_permission request_question_answer open_gate
opened-is_pending r (tool_requested session request) d (e, n) =
    rw (n, request_permission)
      (set_is_pending r request.request_id session e _ (resolutions r _) (occurrences r _))
opened-is_pending r (question_raised session asked) d e =
    asked_is_pending r asked.request_id session e _ (resolutions r _) (occurrences r _)
opened-is_pending r _ d h = absurd h

-- For each request id, whatever happens at the gates: its pending gates and the calls of its
-- resolvers are together at most as many as the requests made under it, so that a gate whose id is
-- its own is settled at most once and never while it is pending; and once a gate was opened for it,
-- it is pending or was settled.
pub run_accounts :
    (r : String) (records : List (String × SessionRecord)) (log : List GateOp)
    → let g = gates (run records log) in
      (settled_or_pending r g ≤ requests r log)
      × (HasOpened r records log → 0 < settled_or_pending r g)
unfolding run HasOpened
run_accounts r records [] = (omega arith, λ h. absurd h)
run_accounts r records (op ∷ log) =
    let before = run_accounts r records log in
    let effect = run_op-Effect op (run records log) in
    (
      omega (arith, before.0, Effect-le r op _ _ _ effect),
      λ h. elim h [
        | inl o ↦ opened-is_pending r op (run records log) o
        | inr o ↦ Effect-kept r op _ _ _ effect (before.1 o)
      ],
    )
