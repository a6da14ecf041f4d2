-- ===== src/Sessions/Ordering.antt =====
-- `order by updated_at desc, id desc`: the order of the paged reads, and that filtering commutes
-- with it.
use telecode.Base.{
  ℕ, String, Bool, true, false, ◌&&◌, ◌||◌, ◌≡◌, refl, ◌∙◌, ap, List, [], ◌∷◌, arith, if◌then◌else◌,
  any, filter, All, All-imp, All-filter, ◌==◌, string_eq, eq_iff, Bool-cases, inl, inr,
}
use telecode.Sessions.{Row, Table}
use telecode.Sessions.Pages.{newer, insert_newest, newest_first}
use telecode.Sessions.Rows.{any-filter-false}
use telecode.Sessions.Consistent.{HasUniqueIds, has_id}

pub filter-HasUniqueIds :
    (q : Row → Bool) (rows : Table) → HasUniqueIds rows → HasUniqueIds (filter q rows)
filter-HasUniqueIds q [] u = tt
filter-HasUniqueIds q (r ∷ rows) u = elim (Bool-cases (q r)) [
  | inl e ↦ rw e (any-filter-false (has_id r.id) q rows u.0, filter-HasUniqueIds q rows u.1)
  | inr e ↦ rw e (filter-HasUniqueIds q rows u.1)
]

pub filter-and :
    {A : Type 0} (p q : A → Bool) (xs : List A)
    → filter (λ x. p x && q x) xs ≡ filter q (filter p xs)
filter-and p q [] = refl
filter-and p q (x ∷ xs) = ground (arith, filter-and p q xs)

module _ (uuid_value : String → ℕ) where
  abbrev newer_than : Row → Row → Bool
  newer_than = newer uuid_value

  -- Nothing in the list is newer than what stands before it.
  abbrev pub IsOrdered : List Row → Type 0
  IsOrdered [] = Unit
  IsOrdered (r ∷ rows) = All (λ s. newer_than s r ≡ false) rows × IsOrdered rows

  -- Each row is strictly newer than all that follow.
  abbrev pub IsDescending : List Row → Type 0
  IsDescending [] = Unit
  IsDescending (r ∷ rows) = All (λ s. newer_than r s ≡ true) rows × IsDescending rows

  pub not_newer_trans :
      (a b c : Row) → newer_than a b ≡ false → newer_than b c ≡ false → newer_than a c ≡ false
  not_newer_trans a b c h k = ground arith

  pub newer_trans :
      (a b c : Row) → newer_than a b ≡ true → newer_than b c ≡ true → newer_than a c ≡ true
  newer_trans a b c h k = ground arith

  pub newer_asymm : (a b : Row) → newer_than a b ≡ true → newer_than b a ≡ false
  newer_asymm a b h = ground arith

  All-insert_newest :
      (P : Row → Type 0) (r : Row) (rows : List Row)
      → P r
      → All P rows
      → All P (insert_newest uuid_value r rows)
  unfolding insert_newest
  All-insert_newest P r [] h a = (h, tt)
  All-insert_newest P r (s ∷ rows) h a = elim (Bool-cases (newer_than s r)) [
    | inl e ↦ rw e (a.0, All-insert_newest P r rows h a.1)
    | inr e ↦ rw e (h, a)
  ]

  insert_newest-IsOrdered :
      (r : Row) (rows : List Row) → IsOrdered rows → IsOrdered (insert_newest uuid_value r rows)
  unfolding insert_newest
  insert_newest-IsOrdered r [] o = (tt, tt)
  insert_newest-IsOrdered r (s ∷ rows) o = elim (Bool-cases (newer_than s r)) [
    | inl e ↦
        rw e
          (All-insert_newest _ r rows (newer_asymm s r e) o.0, insert_newest-IsOrdered r rows o.1)
    | inr e ↦ rw e ((e, All-imp (λ x h. not_newer_trans x s r h e) rows o.0), o)
  ]

  pub newest_first-IsOrdered : (rows : List Row) → IsOrdered (newest_first uuid_value rows)
  unfolding newest_first
  newest_first-IsOrdered [] = tt
  newest_first-IsOrdered (r ∷ rows) = insert_newest-IsOrdered r _ (newest_first-IsOrdered rows)

  insert_newest_front :
      (r : Row) (rows : List Row)
      → All (λ s. newer_than s r ≡ false) rows
      → insert_newest uuid_value r rows ≡ r ∷ rows
  unfolding insert_newest
  insert_newest_front r [] a = refl
  insert_newest_front r (s ∷ rows) a = rw (a.0)

  filter-insert_newest :
      (p : Row → Bool) (r : Row) (rows : List Row)
      → IsOrdered rows
      → filter p (insert_newest uuid_value r rows)
        ≡ (if p r then insert_newest uuid_value r (filter p rows) else filter p rows)
  unfolding insert_newest
  filter-insert_newest p r [] o = refl
  filter-insert_newest p r (s ∷ rows) o = elim (Bool-cases (newer_than s r)) [
    | inl e ↦ ground (arith, e, filter-insert_newest p r rows o.1)
    | inr e ↦
        let older : All (λ x. newer_than x r ≡ false) (s ∷ rows) =
          (e, All-imp (λ x h. not_newer_trans x s r h e) rows o.0) in
        ground
          (arith, e, insert_newest_front r (filter p (s ∷ rows)) (All-filter _ p (s ∷ rows) older))
  ]

  -- Sorting what a test selects is selecting from what is sorted.
  pub newest_first-filter :
      (p : Row → Bool) (rows : List Row)
      → newest_first uuid_value (filter p rows) ≡ filter p (newest_first uuid_value rows)
  unfolding newest_first
  newest_first-filter p [] = refl
  newest_first-filter p (r ∷ rows) = ground (
    arith,
    newest_first-filter p rows,
    filter-insert_newest p r (newest_first uuid_value rows) (newest_first-IsOrdered rows),
  )

  any-insert_newest :
      (q : Row → Bool) (r : Row) (rows : List Row)
      → any q (insert_newest uuid_value r rows) ≡ (q r || any q rows)
  unfolding insert_newest
  any-insert_newest q r [] = refl
  any-insert_newest q r (s ∷ rows) = ground (arith, any-insert_newest q r rows)

  pub any-newest_first :
      (q : Row → Bool) (rows : List Row) → any q (newest_first uuid_value rows) ≡ any q rows
  unfolding newest_first
  any-newest_first q [] = refl
  any-newest_first q (r ∷ rows) =
      any-insert_newest q r _ ∙ ap (λ b. q r || b) (any-newest_first q rows)

  module _ (uuid_value-injective : (a b : String) → uuid_value a ≡ uuid_value b → a ≡ b) where
    distinct_newer :
        (r s : Row) → (s.id == r.id) ≡ false → newer_than s r ≡ false → newer_than r s ≡ true
    distinct_newer r s d h = ground (arith, eq_iff s.id r.id, uuid_value-injective s.id r.id)

    insert_newest-IsDescending :
        (r : Row) (rows : List Row)
        → any (has_id r.id) rows ≡ false
        → IsDescending rows
        → IsDescending (insert_newest uuid_value r rows)
    unfolding insert_newest
    insert_newest-IsDescending r [] d o = (tt, tt)
    insert_newest-IsDescending r (s ∷ rows) d o = elim (Bool-cases (newer_than s r)) [
      | inl e ↦
          rw e
            (All-insert_newest _ r rows e o.0, insert_newest-IsDescending r rows (ground arith) o.1)
      | inr e ↦
          let first = distinct_newer r s (ground arith) e in
          rw e ((first, All-imp (λ x h. newer_trans r s x first h) rows o.0), o)
    ]

    -- With distinct ids the sorted list is strictly descending.
    pub newest_first-IsDescending :
        (rows : List Row) → HasUniqueIds rows → IsDescending (newest_first uuid_value rows)
    unfolding newest_first
    newest_first-IsDescending [] u = tt
    newest_first-IsDescending (r ∷ rows) u =
        insert_newest-IsDescending r _ (any-newest_first (has_id r.id) rows ∙ u.0)
          (newest_first-IsDescending rows u.1)
