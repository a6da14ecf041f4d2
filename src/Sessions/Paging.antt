-- ===== src/Sessions/Paging.antt =====
-- Following `next_cursor` from page to page.
use telecode.Base.{
  ℕ, zero, suc, ◌+◌, ◌<◌, String, Bool, true, false, not, ◌&&◌, ◌||◌, ◌≡◌, refl, sym, subst, ◌∙◌,
  ap, List, [], ◌∷◌, ◌++◌, arith, if◌then◌else◌, filter, take, drop, last, length, length-drop,
  length-take, take-append-drop, take_all, take-take, take-ne-nil, append-nil, append_assoc, All,
  All-imp, All-take, ◌==◌, string_eq, Bool-cases, inl, inr, Option, none, some, is_some, ltb,
}
use mathlib.Core.Option.{some-injective}
use telecode.Protocol.Status.{is_session_end_status}
use telecode.Sessions.{Row, Table}
use telecode.Sessions.Pages.{
  newer, newest_first, SessionPageCursor, paged_scope, after_cursor, cursor_of, in_page, list_page,
}
use telecode.Sessions.Consistent.{HasUniqueIds}
use telecode.Sessions.Ordering.{
  IsDescending, newer_asymm, newest_first-filter, newest_first-IsDescending, filter-HasUniqueIds,
}

module _ (uuid_value : String → ℕ) where
  -- What a client that follows the cursors receives, page after page.
  unfoldable pub walk : ℕ → String → ℕ → Option SessionPageCursor → Bool → Table → List Row
  walk zero user limit cursor archived rows = []
  walk (suc fuel) user limit cursor archived rows =
      let page = list_page uuid_value user limit cursor archived rows in
      page.sessions
      ++ elim page.next_cursor [ none ↦ [] | some c ↦ walk fuel user limit (some c) archived rows ]

  abbrev pub in_scope : String → Bool → Row → Bool
  in_scope user archived r = r.user_id == user && paged_scope uuid_value archived r

  -- All rows of the paged section, newest first.
  abbrev pub section : String → Bool → Table → List Row
  section user archived rows = newest_first uuid_value (filter (in_scope user archived) rows)

  -- The rows that ride the first page of the default view.
  abbrev pub active_rows : String → Bool → Table → List Row
  active_rows user true rows = []
  active_rows user false rows =
      newest_first uuid_value
        (filter (λ r. r.user_id == user && not (is_session_end_status r.status)) rows)

  abbrev rest : String → Bool → Option SessionPageCursor → Table → List Row
  rest user archived cursor rows =
      newest_first uuid_value (filter (in_page uuid_value user archived cursor) rows)

  filter-in_page :
      (user : String) (archived : Bool) (cursor : Option SessionPageCursor) (rows : Table)
      → filter (in_page uuid_value user archived cursor) rows
        ≡ filter (after_cursor uuid_value cursor) (filter (in_scope user archived) rows)
  filter-in_page user archived cursor [] = refl
  filter-in_page user archived cursor (r ∷ rows) =
      ground (arith, filter-in_page user archived cursor rows)

  rest-section :
      (user : String) (archived : Bool) (cursor : Option SessionPageCursor) (rows : Table)
      → rest user archived cursor rows
        ≡ filter (after_cursor uuid_value cursor) (section user archived rows)
  rest-section user archived cursor rows =
      ap (newest_first uuid_value) (filter-in_page user archived cursor rows)
      ∙ newest_first-filter uuid_value (after_cursor uuid_value cursor)
          (filter (in_scope user archived) rows)

  abbrev at : Row → SessionPageCursor
  at r = record { updated_at = r.updated_at; id = r.id }

  filter-all : (q : Row → Bool) (xs : List Row) → All (λ x. q x ≡ true) xs → filter q xs ≡ xs
  filter-all q [] h = refl
  filter-all q (x ∷ xs) h = rw (h.0) (ap (◌∷◌ x) (filter-all q xs h.1))

  All-last : (P : Row → Type 0) (xs : List Row) (r : Row) → All P xs → last xs ≡ some r → P r
  All-last P [] r h e = cc
  All-last P (x ∷ []) r h e = subst P (some-injective _ _ e) h.0
  All-last P (x ∷ y ∷ xs) r h e = All-last P (y ∷ xs) r h.1 e

  filter-narrow :
      (p q : Row → Bool)
      → ((x : Row) → q x ≡ true → p x ≡ true)
      → (xs : List Row) → filter q (filter p xs) ≡ filter q xs
  filter-narrow p q h [] = refl
  filter-narrow p q h (x ∷ xs) = ground (arith, h x, filter-narrow p q h xs)

  filter-All : (p : Row → Bool) (xs : List Row) → All (λ x. p x ≡ true) (filter p xs)
  filter-All p [] = tt
  filter-All p (x ∷ xs) = elim (Bool-cases (p x)) [
    | inl e ↦ rw e (e, filter-All p xs)
    | inr e ↦ rw e (filter-All p xs)
  ]

  after_cursor_trans :
      (cursor : Option SessionPageCursor) (r x : Row)
      → after_cursor uuid_value cursor r ≡ true
      → after_cursor uuid_value (some (at r)) x ≡ true
      → after_cursor uuid_value cursor x ≡ true
  after_cursor_trans none r x h k = refl
  after_cursor_trans (some c) r x h k = ground arith

  after_cursor-newer : (r s : Row) → after_cursor uuid_value (some (at r)) s ≡ newer uuid_value r s
  after_cursor-newer r s = ground arith

  filter-after_self :
      (x : Row) (xs : List Row)
      → All (λ s. newer uuid_value x s ≡ true) xs
      → filter (after_cursor uuid_value (some (at x))) (x ∷ xs) ≡ xs
  filter-after_self x xs h =
      let itself : after_cursor uuid_value (some (at x)) x ≡ false = ground arith in
      rw itself (filter-all _ xs (All-imp (λ s k. after_cursor-newer x s ∙ k) xs h))

  -- The rows strictly after the last row of a prefix are those behind the prefix.
  filter-after_last :
      (n : ℕ) (xs : List Row) (r : Row)
      → IsDescending uuid_value xs
      → last (take n xs) ≡ some r
      → filter (after_cursor uuid_value (some (at r))) xs ≡ drop n xs
  filter-after_last zero xs r o e = cc
  filter-after_last (suc n) [] r o e = cc
  filter-after_last (suc zero) (x ∷ xs) r o e =
      subst (λ r. filter (after_cursor uuid_value (some (at r))) (x ∷ xs) ≡ xs)
        (some-injective _ _ e) (filter-after_self x xs o.0)
  filter-after_last (suc (suc n)) (x ∷ []) r o e =
      subst (λ r. filter (after_cursor uuid_value (some (at r))) (x ∷ []) ≡ [])
        (some-injective _ _ e) (filter-after_self x [] tt)
  filter-after_last (suc (suc n)) (x ∷ y ∷ xs) r o e =
      let ahead =
        All-last (λ s. newer uuid_value x s ≡ true) (take (suc n) (y ∷ xs)) r
          (All-take _ (suc n) (y ∷ xs) o.0) e in
      let skipped : after_cursor uuid_value (some (at r)) x ≡ false =
        after_cursor-newer r x ∙ newer_asymm uuid_value x r ahead in
      rw skipped (filter-after_last (suc n) (y ∷ xs) r o.1 e)

  module _ (uuid_value-injective : (a b : String) → uuid_value a ≡ uuid_value b → a ≡ b)
      (user : String) (limit : ℕ) (archived : Bool) (rows : Table) (unique : HasUniqueIds rows)
      (positive : 0 < limit) where
    abbrev here : Option SessionPageCursor → List Row
    here cursor = rest user archived cursor rows

    here-IsDescending : (cursor : Option SessionPageCursor) → IsDescending uuid_value (here cursor)
    here-IsDescending cursor =
        newest_first-IsDescending uuid_value uuid_value-injective _
          (filter-HasUniqueIds _ rows unique)

    -- The cursor of the last row of a page selects what lies behind the page.
    here-next :
        (cursor : Option SessionPageCursor) (r : Row)
        → last (take limit (here cursor)) ≡ some r
        → here (some (at r)) ≡ drop limit (here cursor)
    here-next cursor r e =
        let after = after_cursor uuid_value (some (at r)) in
        let whole = rest-section user archived cursor rows in
        let placed : after_cursor uuid_value cursor r ≡ true =
          All-last (λ x. after_cursor uuid_value cursor x ≡ true) (take limit (here cursor)) r
            (All-take _ limit (here cursor)
              (rw whole (filter-All (after_cursor uuid_value cursor) (section user archived rows))))
            e in
        rest-section user archived (some (at r)) rows
        ∙ sym (
            filter-narrow (after_cursor uuid_value cursor) after
              (λ x. after_cursor_trans cursor r x placed) (section user archived rows))
        ∙ ap (filter after) (sym whole)
        ∙ filter-after_last limit (here cursor) r (here-IsDescending cursor) e

    abbrev page_rows : (cursor : Option SessionPageCursor) → List Row
    page_rows cursor = take limit (here cursor)

    abbrev first_rows : Option SessionPageCursor → List Row
    first_rows none = active_rows user archived rows
    first_rows (some c) = []

    first_rows_lem :
        (cursor : Option SessionPageCursor)
        → (if archived || is_some cursor
            then []
            else newest_first uuid_value
                (filter (λ r. r.user_id == user && not (is_session_end_status r.status)) rows))
          ≡ first_rows cursor
    first_rows_lem none = ground arith
    first_rows_lem (some c) = ground arith

    -- A page holds the next `limit` rows, and names a cursor exactly when rows are left.
    list_page_lem :
        (cursor : Option SessionPageCursor)
        → list_page uuid_value user limit cursor archived rows ≡ record {
          sessions = first_rows cursor ++ page_rows cursor;
          next_cursor =
              if ltb limit (length (here cursor))
              then cursor_of uuid_value (last (page_rows cursor))
              else none;
        }
    unfolding list_page
    list_page_lem cursor =
        let all = here cursor in
        let size = length-take (limit + 1) all in
        elim (Bool-cases (ltb limit (length all))) [
          | inl more ↦
              let has_more : ltb limit (length (take (limit + 1) all)) ≡ true =
                ground (arith, size) in
              rw (
                has_more,
                take-take limit (limit + 1) all (omega arith),
                more,
                first_rows_lem cursor,
              )
          | inr done ↦
              let whole = take_all (limit + 1) all (ground arith) in
              let page = take_all limit all (ground arith) in
              rw (whole, done, page, first_rows_lem cursor)
        ]

    walk_all :
        (fuel : ℕ) (cursor : Option SessionPageCursor)
        → length (here cursor) < fuel
        → walk fuel user limit cursor archived rows ≡ first_rows cursor ++ here cursor
    unfolding walk
    walk_all zero cursor h = absurd (omega arith)
    walk_all (suc fuel) cursor h =
        rw (list_page_lem cursor) (elim (Bool-cases (ltb limit (length (here cursor)))) [
          | inl more ↦
              let (r, e) = take-ne-nil limit (here cursor) positive (ground arith) in
              let next = here-next cursor r e in
              let shorter : length (here (some (at r))) < fuel =
                rw next (ground (arith, length-drop limit (here cursor))) in
              rw (more, e)
                (ap (◌++◌ (first_rows cursor ++ page_rows cursor))
                    (walk_all fuel (some (at r)) shorter ∙ next)
                  ∙ append_assoc (first_rows cursor) (page_rows cursor) (drop limit (here cursor))
                  ∙ ap (◌++◌ (first_rows cursor)) (take-append-drop limit (here cursor)))
          | inr done ↦ rw (done, take_all limit (here cursor) (ground arith)) (append-nil _)
        ])

-- Following `next_cursor` from the first page until there is none serves, with a positive page size
-- and unique ids, the active rows and then each row of the section exactly once, newest first; one
-- page more than there are rows in the section is always enough. In the archived view there are no
-- active rows.
pub walk_complete :
    (uuid_value : String → ℕ) (fuel : ℕ) (user : String) (limit : ℕ) (archived : Bool)
    (rows : Table)
    → ((a b : String) → uuid_value a ≡ uuid_value b → a ≡ b)
    → HasUniqueIds rows
    → 0 < limit
    → length (section uuid_value user archived rows) < fuel
    → walk uuid_value fuel user limit none archived rows
      ≡ active_rows uuid_value user archived rows ++ section uuid_value user archived rows
walk_complete uuid_value fuel user limit archived rows injective unique positive enough =
    let same : rest uuid_value user archived none rows ≡ section uuid_value user archived rows =
      rest-section uuid_value user archived none rows ∙ filter-all uuid_value _ _ (everything _) in
    subst
      (λ xs.
        walk uuid_value fuel user limit none archived rows
        ≡ active_rows uuid_value user archived rows ++ xs)
      same
      (walk_all uuid_value injective user limit archived rows unique positive fuel none
        (rw same enough))
  where
    everything : (xs : List Row) → All (λ x. after_cursor uuid_value none x ≡ true) xs
    everything [] = tt
    everything (x ∷ xs) = (refl, everything xs)
