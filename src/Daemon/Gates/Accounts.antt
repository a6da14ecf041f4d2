-- ===== src/Daemon/Gates/Accounts.antt =====
-- packages/daemon/src/daemon.ts: how often a request was made, is pending and was resolved.
use telecode.Base.{
  ℕ, ◌+◌, ◌≤◌, String, Bool, true, false, not, Option, some, List, [], ◌∷◌, ◌++◌, map, filter, ◌≡◌,
  refl, inl, inr, arith, Bool-cases, if◌then◌else◌, ◌==◌, ==_iff, string_eq,
}
use telecode.Base.Dict.{get, set, delete}
use telecode.Daemon.Gates.{Resolution, permission_resolved, question_resolved, auto_approved}
use telecode.Daemon.Gates.Settle.{GateOp, tool_requested, question_raised}
use telecode.Daemon.Gates.Kept.{Gates}

abbrev pub one_if : Bool → ℕ
one_if true = 1
one_if false = 0

-- How often a request is pending in a map, and how often it was resolved.
abbrev pub occurrences : String → List (String × Option String) → ℕ
occurrences r [] = 0
occurrences r ((j, s) ∷ m) = one_if (j == r) + occurrences r m

abbrev pub resolves : String → Resolution → Bool
resolves r (permission_resolved j decision) = j == r
resolves r (question_resolved j given) = j == r
resolves r (auto_approved session request decision) = false

abbrev pub resolutions : String → List Resolution → ℕ
resolutions r [] = 0
resolutions r (x ∷ xs) = one_if (resolves r x) + resolutions r xs

abbrev pub settled_or_pending : String → Gates → ℕ
settled_or_pending r g =
    resolutions r g.resolved + (occurrences r g.permissions + occurrences r g.questions)

-- The operation makes the request.
abbrev pub requests_of : String → GateOp → ℕ
requests_of r (tool_requested session request) = one_if (request.request_id == r)
requests_of r (question_raised session asked) = one_if (asked.request_id == r)
requests_of r _ = 0

abbrev pub requests : String → List GateOp → ℕ
requests r [] = 0
requests r (op ∷ log) = requests_of r op + requests r log

module _ (r : String) where
  pub occurrences-set_le :
      (k : String) (s : Option String) (m : List (String × Option String))
      → occurrences r (set k s m) ≤ one_if (k == r) + occurrences r m
  unfolding set
  occurrences-set_le k s [] = omega arith
  occurrences-set_le k s ((j, t) ∷ m) =
      ground (arith, ==_iff j k, ==_iff k r, ==_iff j r, occurrences-set_le k s m)

  pub occurrences_le-set :
      (k : String) (s : Option String) (m : List (String × Option String))
      → occurrences r m ≤ occurrences r (set k s m)
  unfolding set
  occurrences_le-set k s [] = omega arith
  occurrences_le-set k s ((j, t) ∷ m) =
      ground (arith, ==_iff j k, ==_iff k r, ==_iff j r, occurrences_le-set k s m)

  pub occurrences-delete :
      (k : String) (m : List (String × Option String))
      → occurrences r (delete k m) ≡ (if k == r then 0 else occurrences r m)
  unfolding delete
  occurrences-delete k [] = ground arith
  occurrences-delete k ((j, t) ∷ m) =
      ground (arith, ==_iff j k, ==_iff k r, ==_iff j r, occurrences-delete k m)

  pub get-occurrences :
      (k : String) (s : Option String) (m : List (String × Option String))
      → get k m ≡ some s
      → one_if (k == r) ≤ occurrences r m
  unfolding get
  get-occurrences k s [] h = absurd cc
  get-occurrences k s ((j, t) ∷ m) h = elim (Bool-cases (j == k)) [
    | inl e ↦ let same : j ≡ k = (==_iff j k).0 e in rw same (omega arith)
    | inr e ↦ let found : get k m ≡ some s = rw e at h in omega (arith, get-occurrences k s m found)
  ]

  pub occurrences-filter :
      (p : String × Option String → Bool) (m : List (String × Option String))
      → occurrences r (filter p m) + occurrences r (filter (λ k. not (p k)) m) ≡ occurrences r m
  occurrences-filter p [] = refl
  occurrences-filter p ((j, t) ∷ m) = ground (arith, occurrences-filter p m)

  pub resolutions-append :
      (xs ys : List Resolution) → resolutions r (xs ++ ys) ≡ resolutions r xs + resolutions r ys
  resolutions-append [] ys = omega arith
  resolutions-append (x ∷ xs) ys = omega (arith, resolutions-append xs ys)

  pub resolutions-map :
      (f : String × Option String → Resolution)
      → ((k : String × Option String) → resolves r (f k) ≡ (k.0 == r))
      → (m : List (String × Option String)) → resolutions r (map f m) ≡ occurrences r m
  resolutions-map f same [] = refl
  resolutions-map f same (k ∷ m) = rw (same k) (omega (arith, resolutions-map f same m))
