-- ===== src/Base/Sorting.antt =====
-- JavaScript's `sort`: the elements in order, and equal ones as they stood.
use mathlib.Core.Path.{◌≡◌, refl, ap, ◌∙◌}
use native.Mathlib.Omega.{arith}
use mathlib.Core.Logic.{inl, inr}
use mathlib.Core.Bool.{Bool, true, false}
use mathlib.Core.List.Permᴰ
use mathlib.Core.List.{List, [], ◌∷◌, map, Permᴰ}
use telecode.Base.Tests.{if◌then◌else◌, Bool-cases}
use telecode.Base.Lists.{length, All, All-imp}

module _ {A : Type 0} (le : A → A → Bool) where
  unfoldable pub insert : A → List A → List A
  insert x [] = x ∷ []
  insert x (y ∷ ys) = let rest = insert x ys in if le x y then x ∷ y ∷ ys else y ∷ rest

  unfoldable pub sort_by : List A → List A
  unfolding insert
  sort_by [] = []
  sort_by (x ∷ xs) = insert x (sort_by xs)

  -- Every element stands before all that follow it.
  abbrev pub IsSorted : List A → Type 0
  IsSorted [] = Unit
  IsSorted (x ∷ xs) = All (λ y. le x y ≡ true) xs × IsSorted xs

  insert-Perm : (x : A) (ys : List A) → Permᴰ (insert x ys) (x ∷ ys)
  unfolding insert
  insert-Perm x [] = Permᴰ.refl _
  insert-Perm x (y ∷ ys) = elim (Bool-cases (le x y)) [
    | inl e ↦ rw e (Permᴰ.refl (x ∷ y ∷ ys))
    | inr e ↦ rw e (Permᴰ.trans (Permᴰ.cons refl (insert-Perm x ys)) (Permᴰ.swap refl refl))
  ]

  pub sort_by-Perm : (xs : List A) → Permᴰ (sort_by xs) xs
  unfolding sort_by
  sort_by-Perm [] = Permᴰ.nil
  sort_by-Perm (x ∷ xs) =
      Permᴰ.trans (insert-Perm x (sort_by xs)) (Permᴰ.cons refl (sort_by-Perm xs))

  All-insert : (P : A → Type 0) (x : A) (ys : List A) → P x → All P ys → All P (insert x ys)
  unfolding insert
  All-insert P x [] p h = (p, tt)
  All-insert P x (y ∷ ys) p h = elim (Bool-cases (le x y)) [
    | inl e ↦ rw e (p, h)
    | inr e ↦ rw e (h.0, All-insert P x ys p h.1)
  ]

  module _ (total : (a b : A) → le a b ≡ false → le b a ≡ true)
      (trans : (a b c : A) → le a b ≡ true → le b c ≡ true → le a c ≡ true) where
    insert-IsSorted : (x : A) (ys : List A) → IsSorted ys → IsSorted (insert x ys)
    unfolding insert
    insert-IsSorted x [] h = (tt, tt)
    insert-IsSorted x (y ∷ ys) h = elim (Bool-cases (le x y)) [
      | inl e ↦ rw e ((e, All-imp (λ z k. trans x y z e k) ys h.0), h)
      | inr e ↦ rw e (All-insert _ x ys (total x y e) h.0, insert-IsSorted x ys h.1)
    ]

    pub sort_by-IsSorted : (xs : List A) → IsSorted (sort_by xs)
    unfolding sort_by
    sort_by-IsSorted [] = tt
    sort_by-IsSorted (x ∷ xs) = insert-IsSorted x (sort_by xs) (sort_by-IsSorted xs)

pub Perm-map :
    {A B : Type 0} (f : A → B) {xs ys : List A} → Permᴰ xs ys → Permᴰ (map f xs) (map f ys)
Perm-map f Permᴰ.nil = Permᴰ.nil
Perm-map f (Permᴰ.cons e p) = Permᴰ.cons (ap f e) (Perm-map f p)
Perm-map f (Permᴰ.swap d e) = Permᴰ.swap (ap f d) (ap f e)
Perm-map f (Permᴰ.trans p q) = Permᴰ.trans (Perm-map f p) (Perm-map f q)

pub Perm-length : {A : Type 0} {xs ys : List A} → Permᴰ xs ys → length xs ≡ length ys
Perm-length Permᴰ.nil = refl
Perm-length (Permᴰ.cons e p) = omega (arith, Perm-length p)
Perm-length (Permᴰ.swap d e) = omega arith
Perm-length (Permᴰ.trans p q) = Perm-length p ∙ Perm-length q
