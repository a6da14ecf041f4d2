-- ===== src/Base/Pointwise.antt =====
-- Two lists whose elements are related one by one.
use mathlib.Core.Path.{◌≡◌, refl, ap₂}
use mathlib.Core.List.{List, [], ◌∷◌, ◌++◌, map}
use telecode.Base.Lists.{reverse, All}

pub data Pointwise {A B : Type 0} (R : A → B → Type 0) : List A → List B → Type 0 where
  nothing : Pointwise R [] []
  next :
      {x : A} {y : B} {xs : List A} {ys : List B}
      → R x y
      → Pointwise R xs ys
      → Pointwise R (x ∷ xs) (y ∷ ys)

pub Pointwise-map :
    {A : Type 0} {R : A → A → Type 0} (f : A → A)
    → ((a : A) → R a (f a))
    → (xs : List A) → Pointwise R xs (map f xs)
Pointwise-map f each [] = nothing
Pointwise-map f each (x ∷ xs) = next (each x) (Pointwise-map f each xs)

pub Pointwise-map-map :
    {A : Type 0} {R : A → A → Type 0} (f g : A → A)
    → ((a : A) → R a (g (f a)))
    → (xs : List A) → Pointwise R xs (map g (map f xs))
Pointwise-map-map f g each [] = nothing
Pointwise-map-map f g each (x ∷ xs) = next (each x) (Pointwise-map-map f g each xs)

module _ {A B : Type 0} {R : A → B → Type 0} where
  pub Pointwise-append :
      {xs us : List A} {ys vs : List B}
      → Pointwise R xs ys
      → Pointwise R us vs
      → Pointwise R (xs ++ us) (ys ++ vs)
  Pointwise-append nothing k = k
  Pointwise-append (next r h) k = next r (Pointwise-append h k)

  pub Pointwise-reverse :
      {xs : List A} {ys : List B} → Pointwise R xs ys → Pointwise R (reverse xs) (reverse ys)
  Pointwise-reverse nothing = nothing
  Pointwise-reverse (next r h) = Pointwise-append (Pointwise-reverse h) (next r nothing)

  -- What the relation carries over holds of the second list where it holds of the first.
  pub Pointwise-All :
      (P : A → Type 0) (Q : B → Type 0)
      → ((a : A) (b : B) → R a b → P a → Q b)
      → {xs : List A} {ys : List B} → Pointwise R xs ys
      → All P xs
      → All Q ys
  Pointwise-All P Q carry nothing p = tt
  Pointwise-All P Q carry (next r h) p = (carry _ _ r p.0, Pointwise-All P Q carry h p.1)

  pub Pointwise-map_eq :
      {C : Type 0} (f : A → C) (g : B → C)
      → ((a : A) (b : B) → R a b → g b ≡ f a)
      → {xs : List A} {ys : List B} → Pointwise R xs ys
      → map g ys ≡ map f xs
  Pointwise-map_eq f g same nothing = refl
  Pointwise-map_eq f g same (next r h) = ap₂ ◌∷◌ (same _ _ r) (Pointwise-map_eq f g same h)
