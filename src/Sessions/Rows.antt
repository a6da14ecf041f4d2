-- ===== src/Sessions/Rows.antt =====
-- Lemmas on tables: what an `update` or a `delete` keeps.
use telecode.Base.{
  Bool, true, false, ◌||◌, ◌≡◌, refl, List, [], ◌∷◌, ◌++◌, map, arith, if◌then◌else◌, any, filter,
  All, string_eq, Bool-cases, inl, inr,
}
use telecode.Sessions.{Row, Table, update_where}

pub any-append :
    {A : Type 0} (p : A → Bool) (xs ys : List A) → any p (xs ++ ys) ≡ (any p xs || any p ys)
any-append p [] ys = refl
any-append p (x ∷ xs) ys = ground (arith, any-append p xs ys)

pub any-map :
    {A B : Type 0} (p : B → Bool) (f : A → B) (xs : List A)
    → any p (map f xs) ≡ any (λ x. p (f x)) xs
any-map p f [] = refl
any-map p f (x ∷ xs) = ground (arith, any-map p f xs)

pub any-congr :
    {A : Type 0} (p q : A → Bool) → ((x : A) → p x ≡ q x) → (xs : List A) → any p xs ≡ any q xs
any-congr p q h [] = refl
any-congr p q h (x ∷ xs) = ground (arith, h x, any-congr p q h xs)

-- An update that keeps what a test reads keeps the rows that the test selects.
pub any-update_where :
    (q p : Row → Bool) (f : Row → Row) (rows : Table)
    → ((r : Row) → q (f r) ≡ q r)
    → any q (update_where p f rows) ≡ any q rows
any-update_where q p f [] h = refl
any-update_where q p f (r ∷ rows) h = ground (arith, h r, any-update_where q p f rows h)

pub filter-update_where :
    (q p : Row → Bool) (f : Row → Row) (rows : Table)
    → ((r : Row) → p r ≡ true → q r ≡ false)
    → ((r : Row) → q (f r) ≡ q r)
    → filter q (update_where p f rows) ≡ filter q rows
filter-update_where q p f [] apart keeps = refl
filter-update_where q p f (r ∷ rows) apart keeps =
    ground (arith, apart r, keeps r, filter-update_where q p f rows apart keeps)

pub All-update_where :
    (P : Row → Type 0) (p : Row → Bool) (f : Row → Row) (rows : Table)
    → ((r : Row) → P r → p r ≡ true → P (f r))
    → All P rows
    → All P (update_where p f rows)
All-update_where P p f [] h a = tt
All-update_where P p f (r ∷ rows) h a = (here, All-update_where P p f rows h a.1)
  where
    here : P (if p r then f r else r)
    here = elim (Bool-cases (p r)) [ inl e ↦ rw e (h r a.0 e) | inr e ↦ rw e a.0 ]

pub filter-append :
    {A : Type 0} (q : A → Bool) (xs ys : List A) → filter q (xs ++ ys) ≡ filter q xs ++ filter q ys
filter-append q [] ys = refl
filter-append q (x ∷ xs) ys = ground (arith, filter-append q xs ys)

module _ {A : Type 0} (p q : A → Bool) where
  pub any-filter-false : (xs : List A) → any p xs ≡ false → any p (filter q xs) ≡ false
  any-filter-false [] h = refl
  any-filter-false (x ∷ xs) h = ground (arith, any-filter-false xs)

  -- A filter that keeps all that a test finds does not change its answer.
  pub any-filter_kept :
      ((x : A) → p x ≡ true → q x ≡ true) → (xs : List A) → any p (filter q xs) ≡ any p xs
  any-filter_kept h [] = refl
  any-filter_kept h (x ∷ xs) = ground (arith, h x, any-filter_kept h xs)

pub All-map :
    {A : Type 0} (P Q : A → Type 0) (f : A → A) (xs : List A)
    → ((x : A) → P x → Q (f x))
    → All P xs
    → All Q (map f xs)
All-map P Q f [] h a = tt
All-map P Q f (x ∷ xs) h a = (h x a.0, All-map P Q f xs h a.1)

pub any_mono :
    {A : Type 0} (p q : A → Bool)
    → ((x : A) → p x ≡ true → q x ≡ true)
    → (xs : List A) → any p xs ≡ true
    → any q xs ≡ true
any_mono p q h [] e = e
any_mono p q h (x ∷ xs) e = ground (arith, h x, any_mono p q h xs)
