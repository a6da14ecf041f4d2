-- ===== src/Daemon/Gates/Allowed.antt =====
-- packages/daemon/src/daemon.ts: a consequential tool runs only where the operator has allowed it.
use telecode.Base.{
  String, Bool, false, not, any, Option, none, List, [], ◌∷◌, map, filter, ◌++◌, ◌≡◌, ◌≢◌, refl,
  inl, inr, ◌⊎◌, In, any-In, All, All-imp, All-append, All-filter, arith, ◌==◌, ==_iff, string_eq,
  Bool-cases,
}
use telecode.Base.Dict.{get-All, All-set, All-delete}
use telecode.Protocol.Json.{Fields}
use telecode.Protocol.Frames.{PermissionRequest}
use telecode.Daemon.Policy.{
  PermissionMode, ToolClass, classify_tool, auto_approved_tools, edit_tools,
}
use telecode.Daemon.Gates.{
  Decision, Resolution, permission_resolved, question_resolved, auto_approved, SessionRecord,
}
use telecode.Daemon.Gates.Settle.{GateOp, tool_requested, run}
use telecode.Daemon.Gates.Kept.{Gates, gates}
use telecode.Daemon.Gates.Modes.{IsModeOf, run-IsModeOf}
use telecode.Daemon.Gates.Effects.{
  Allows, IsBacked, Effect, idle, approved, permission_opened, question_opened, permission_settled,
  question_settled, released, run_op-Effect,
}

-- The tools that run without the operator in a mode.
abbrev pub RunsAlone : String → PermissionMode → Type 0
RunsAlone tool mode =
    In tool ("Read" ∷ "Glob" ∷ "Grep" ∷ "NotebookRead" ∷ "TodoWrite" ∷ [])
    ⊎ (((mode ≡ PermissionMode.bypass_permissions) × (tool ≢ "AskUserQuestion"))
        ⊎ ((mode ≡ PermissionMode.accept_edits)
            × In tool ("Write" ∷ "Edit" ∷ "MultiEdit" ∷ "NotebookEdit" ∷ [])))

classify_tool-RunsAlone :
    (tool : String) (mode : PermissionMode)
    → classify_tool tool mode ≡ ToolClass.allow
    → RunsAlone tool mode
unfolding classify_tool
classify_tool-RunsAlone tool mode h = elim (Bool-cases (any (λ n. n == tool) auto_approved_tools)) [
  | inl t ↦ inl (any-In tool auto_approved_tools t)
  | inr t ↦ inr (in_mode mode t h)
]
  where
    in_mode :
        (mode : PermissionMode)
        → any (λ n. n == tool) auto_approved_tools ≡ false
        → classify_tool tool mode ≡ ToolClass.allow
        → ((mode ≡ PermissionMode.bypass_permissions) × (tool ≢ "AskUserQuestion"))
          ⊎ ((mode ≡ PermissionMode.accept_edits) × In tool edit_tools)
    in_mode PermissionMode.bypass_permissions t h =
        inl
          (refl, λ e. let asks = (==_iff tool "AskUserQuestion").1 e in ground (arith, t, h, asks))
    in_mode PermissionMode.accept_edits t h = elim (Bool-cases (any (λ n. n == tool) edit_tools)) [
      | inl e ↦ inr (refl, any-In tool edit_tools e)
      | inr e ↦ absurd (ground (arith, t, h, e))
    ]
    in_mode PermissionMode.default t h = absurd (ground (arith, t, h))
    in_mode PermissionMode.plan t h = absurd (ground (arith, t, h))

-- A request for a tool, and one by its id.
abbrev pub IsRequested : Option String → PermissionRequest → List GateOp → Type 0
IsRequested s request [] = ⊥
IsRequested s request (op ∷ log) = (op ≡ tool_requested s request) ⊎ IsRequested s request log

abbrev pub WasAsked : String → List GateOp → Type 0
WasAsked r log =
    (s : Option String) × (request : PermissionRequest) × (request.request_id ≡ r)
    × IsRequested s request log

abbrev pub HasAllowed : String → Option Fields → List GateOp → Type 0
HasAllowed r u [] = ⊥
HasAllowed r u (op ∷ log) = Allows r u op ⊎ HasAllowed r u log

-- What lets a tool run is backed by the operator's reply to a request that was made, or by the
-- policy, on a request that was made in a session of the mode.
abbrev pub IsWarranted : List (String × SessionRecord) → List GateOp → Resolution → Type 0
IsWarranted records log (permission_resolved r (Decision.allow u)) =
    WasAsked r log × HasAllowed r u log
IsWarranted records log (auto_approved s request decision) =
    (decision ≡ Decision.allow none)
    × IsRequested s request log
    × ((mode : PermissionMode) × IsModeOf records s mode × RunsAlone request.tool_name mode)
IsWarranted records log _ = Unit

later-WasAsked :
    (op : GateOp) (log : List GateOp) (r : String) → WasAsked r log → WasAsked r (op ∷ log)
later-WasAsked op log r (s, request, e, i) = (s, request, e, inr i)

All-map :
    {A : Type 0} (P : Resolution → Type 0) (f : A → Resolution)
    → ((a : A) → P (f a))
    → (xs : List A) → All P (map f xs)
All-map P f each [] = tt
All-map P f each (x ∷ xs) = (each x, All-map P f each xs)

module _ (records : List (String × SessionRecord)) (op : GateOp) (log : List GateOp) where
  later-IsWarranted :
      (r : Resolution) → IsWarranted records log r → IsWarranted records (op ∷ log) r
  later-IsWarranted (permission_resolved r (Decision.allow u)) (a, h) =
      (later-WasAsked op log r a, inr h)
  later-IsWarranted (permission_resolved r (Decision.deny m)) h = tt
  later-IsWarranted (question_resolved r given) h = tt
  later-IsWarranted (auto_approved s request decision) (d, i, m) = (d, inr i, m)

  backed-IsWarranted :
      (r : String) (decision : Decision)
      → IsBacked op r decision
      → WasAsked r log
      → IsWarranted records (op ∷ log) (permission_resolved r decision)
  backed-IsWarranted r (Decision.allow u) b a = (later-WasAsked op log r a, inl b)
  backed-IsWarranted r (Decision.deny m) b a = tt

  released-IsWarranted :
      (p : String × Option String → Bool) (message : String) (g : Gates)
      → All (IsWarranted records (op ∷ log)) g.resolved
      → All (IsWarranted records (op ∷ log)) (
          map (λ k. question_resolved k.0 none) (filter p g.questions)
          ++ (map (λ k. permission_resolved k.0 (Decision.deny message)) (filter p g.permissions)
              ++ g.resolved))
  released-IsWarranted p message g k =
      All-append (IsWarranted records (op ∷ log)) _ _ (All-map _ _ (λ a. tt) (filter p g.questions))
        (All-append (IsWarranted records (op ∷ log)) _ _
          (All-map _ _ (λ a. tt) (filter p g.permissions)) k)

  -- One operation, from gates that were all asked for.
  Effect-IsWarranted :
      (m : Option String → PermissionMode) (g h : Gates)
      → ((s : Option String) → IsModeOf records s (m s))
      → Effect op m g h
      → All (λ k. WasAsked k.0 log) g.permissions
      → All (IsWarranted records log) g.resolved
      → All (λ k. WasAsked k.0 (op ∷ log)) h.permissions
        × All (IsWarranted records (op ∷ log)) h.resolved
  Effect-IsWarranted m g h modes effect a w =
      by_effect effect (All-imp (λ k. later-WasAsked op log k.0) g.permissions a)
        (All-imp later-IsWarranted g.resolved w)
    where
      by_effect :
          Effect op m g h
          → All (λ k. WasAsked k.0 (op ∷ log)) g.permissions
          → All (IsWarranted records (op ∷ log)) g.resolved
          → All (λ k. WasAsked k.0 (op ∷ log)) h.permissions
            × All (IsWarranted records (op ∷ log)) h.resolved
      by_effect (idle e) b k = rw e (b, k)
      by_effect (approved request s o c e) b k =
          let runs = classify_tool-RunsAlone request.tool_name (m s) c in
          rw e (b, ((refl, inl o, (m s, modes s, runs)), k))
      by_effect (permission_opened request s o e) b k = rw e (
        All-set (λ r v. WasAsked r (op ∷ log)) request.request_id s g.permissions
            (s, request, refl, inl o) b,
        k,
      )
      by_effect (question_opened asked s o e) b k = rw e (b, k)
      by_effect (permission_settled r s decision f back e) b k =
          let asked = get-All (λ r v. WasAsked r log) r s g.permissions a f in
          rw e (
            All-delete (λ r v. WasAsked r (op ∷ log)) r g.permissions b,
            (backed-IsWarranted r decision back asked, k),
          )
      by_effect (question_settled r s given f e) b k = rw e (b, (tt, k))
      by_effect (released p message e) b k = rw e (
        All-filter (λ x. WasAsked x.0 (op ∷ log)) (λ x. not (p x)) g.permissions b,
        released-IsWarranted p message g k,
      )

run_sound :
    (records : List (String × SessionRecord)) (log : List GateOp)
    → let g = gates (run records log) in
      All (λ k. WasAsked k.0 log) g.permissions × All (IsWarranted records log) g.resolved
unfolding run
run_sound records [] = (tt, tt)
run_sound records (op ∷ log) =
    let before = run_sound records log in
    Effect-IsWarranted records op log _ (gates (run records log)) _
      (λ s. run-IsModeOf s records log) (run_op-Effect op (run records log)) before.0 before.1

-- Whatever happens at the gates of a daemon that starts with some records of sessions: a gate is
-- resolved with an allowance only where a tool was requested under its id, and the operator's reply to
-- that id allowed it, with the input that the reply gives; and the policy answers a request for a tool
-- only where that request was made, with an allowance that leaves the input alone, and in a session
-- whose record has a mode (`default` if there is no record) in which the tool runs alone: `Read`,
-- `Glob`, `Grep`, `NotebookRead` and `TodoWrite` in every mode, in `bypassPermissions` all but
-- `AskUserQuestion`, and in `acceptEdits` also `Write`, `Edit`, `MultiEdit` and `NotebookEdit`.
pub run-IsWarranted :
    (records : List (String × SessionRecord)) (log : List GateOp)
    → All (IsWarranted records log) (run records log).resolved
run-IsWarranted records log = (run_sound records log).1
