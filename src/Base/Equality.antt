-- ===== src/Base/Equality.antt =====
-- `===` on the program's keys: an interface with the law that tells it is equality.
use Prim.Native.Nat.{ℕ}
use Prim.Native.String.{String}
use mathlib.Core.Path.{◌≡◌, refl, sym}
use mathlib.Core.Logic.{◌↔◌, inl, inr}
use mathlib.Core.List.{List, [], ◌∷◌}
use mathlib.Core.Bool.{Bool, true}
use text.Mathlib.Text.{◌==◌ as str_eq}
use text.Mathlib.TextEquality.{eq_iff}
use telecode.Base.Tests.{nat_beq, nat_beq_iff, Bool-cases}
use telecode.Base.Lists.{any, In}

pub record Eq (A : Type 0) : Type 0 where
  pub beq : A → A → Bool
  pub beq_iff : (a b : A) → (beq a b ≡ true) ↔ (a ≡ b)

infix 50 ◌==◌
abbrev pub ◌==◌ : {A : Type 0} ⦃e : Eq A⦄ → A → A → Bool
◌==◌ ⦃e⦄ = e.beq

instance abbrev pub nat_eq : Eq ℕ
nat_eq = record { beq = nat_beq; beq_iff = nat_beq_iff }

instance abbrev pub string_eq : Eq String
string_eq = record { beq = str_eq; beq_iff = eq_iff }

pub ==_iff : {A : Type 0} ⦃e : Eq A⦄ (a b : A) → ((a == b) ≡ true) ↔ (a ≡ b)
==_iff ⦃e⦄ a b = e.beq_iff a b

pub ==-self : {A : Type 0} ⦃e : Eq A⦄ (a : A) → (a == a) ≡ true
==-self a = (==_iff a a).1 refl

-- What a search by equality finds stands in the list.
pub any-In : {A : Type 0} ⦃e : Eq A⦄ (a : A) (xs : List A) → any (λ x. x == a) xs ≡ true → In a xs
any-In a [] h = absurd cc
any-In a (x ∷ xs) h = elim (Bool-cases (x == a)) [
  | inl t ↦ inl (sym ((==_iff x a).0 t))
  | inr t ↦ inr (any-In a xs (rw t at h))
]
