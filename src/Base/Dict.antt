-- ===== src/Base/Dict.antt =====
-- A JavaScript `Map`: its entries in the order of insertion. Setting a key that is present keeps
-- its place.
use mathlib.Core.Path.{◌≡◌, refl}
use mathlib.Core.Bool.{Bool}
use mathlib.Core.Logic.{inl, inr}
use mathlib.Core.Option.{Option, none, some}
use mathlib.Core.List.{List, [], ◌∷◌}
use Prim.Native.Nat.{◌+◌, ◌≤◌}
use native.Mathlib.Omega.{arith}
use telecode.Base.Tests.{if◌then◌else◌, is_some, Bool-cases}
use telecode.Base.Equality.{Eq, ◌==◌, ==_iff}
use mathlib.Core.Option.{some-injective}
use telecode.Base.Lists.{length, All}

module _ {K V : Type 0} ⦃e : Eq K⦄ where
  unfoldable pub get : K → List (K × V) → Option V
  get k [] = none
  get k ((j, v) ∷ m) = if j == k then some v else get k m

  unfoldable pub set : K → V → List (K × V) → List (K × V)
  set k v [] = (k, v) ∷ []
  set k v ((j, w) ∷ m) = if j == k then (k, v) ∷ m else (j, w) ∷ set k v m

  unfoldable pub delete : K → List (K × V) → List (K × V)
  delete k [] = []
  delete k ((j, v) ∷ m) = if j == k then delete k m else (j, v) ∷ delete k m

  unfoldable pub has : K → List (K × V) → Bool
  unfolding get
  has k m = is_some (get k m)

  pub get-set :
      (k j : K) (v : V) (m : List (K × V))
      → get j (set k v m) ≡ (if k == j then some v else get j m)
  unfolding get set
  get-set k j v [] = refl
  get-set k j v ((i, w) ∷ m) = ground (arith, ==_iff k j, ==_iff i k, ==_iff i j, get-set k j v m)

  pub get-delete :
      (k j : K) (m : List (K × V)) → get j (delete k m) ≡ (if k == j then none else get j m)
  unfolding get delete
  get-delete k j [] = ground arith
  get-delete k j ((i, w) ∷ m) = ground (arith, ==_iff k j, ==_iff i k, ==_iff i j, get-delete k j m)

  pub length-set :
      (k : K) (v : V) (m : List (K × V))
      → length (set k v m) ≡ (if has k m then length m else length m + 1)
  unfolding set has get
  length-set k v [] = omega arith
  length-set k v ((j, w) ∷ m) = ground (arith, length-set k v m)

  pub length-delete-le : (k : K) (m : List (K × V)) → length (delete k m) ≤ length m
  unfolding delete
  length-delete-le k [] = omega arith
  length-delete-le k ((j, w) ∷ m) = ground (arith, length-delete-le k m)

  -- What holds of every entry holds of what is found, and stays so when such an entry is set.
  module _ (P : K → V → Type 0) where
    pub get-All :
        (k : K) (v : V) (m : List (K × V)) → All (λ x. P x.0 x.1) m → get k m ≡ some v → P k v
    unfolding get
    get-All k v [] h e = absurd cc
    get-All k v ((j, w) ∷ m) h e = elim (Bool-cases (j == k)) [
      | inl t ↦
          let same : w ≡ v = some-injective _ _ (rw t at e) in rw (← (==_iff j k).0 t, ← same) h.0
      | inr t ↦ get-All k v m h.1 (rw t at e)
    ]

    pub All-set :
        (k : K) (v : V) (m : List (K × V))
        → P k v
        → All (λ x. P x.0 x.1) m
        → All (λ x. P x.0 x.1) (set k v m)
    unfolding set
    All-set k v [] p h = (p, tt)
    All-set k v ((j, w) ∷ m) p h = elim (Bool-cases (j == k)) [
      | inl t ↦ rw t (p, h.1)
      | inr t ↦ rw t (h.0, All-set k v m p h.1)
    ]

    pub All-delete :
        (k : K) (m : List (K × V)) → All (λ x. P x.0 x.1) m → All (λ x. P x.0 x.1) (delete k m)
    unfolding delete
    All-delete k [] h = tt
    All-delete k ((j, w) ∷ m) h = elim (Bool-cases (j == k)) [
      | inl t ↦ rw t (All-delete k m h.1)
      | inr t ↦ rw t (h.0, All-delete k m h.1)
    ]
