-- ===== src/Web/Threads/Climb.antt =====
-- apps/web/src/lib/threads.ts: chainFor ends.
use telecode.Base.{
  ℕ, zero, suc, ◌≤◌, ◌<◌, String, Bool, true, false, not, Option, none, some, List, [], ◌∷◌, map,
  reverse, filter, length, ◌≡◌, refl, sym, ap, inl, inr, ◌⊎◌, arith, In, All, All-reverse,
  Bool-cases, Option-cases, if◌then◌else◌, ◌==◌, ==-self, ◌∙◌, string_eq, length-filter-le,
  length-map,
}
use mathlib.Core.Option.{some-injective}
use telecode.Base.Dict.{get, set, get-set}
use telecode.Web.Rows.{SessionRow}
use telecode.Web.Threads.{member, index, climb, chain_for}

-- The ids that were not visited yet.
abbrev pub unvisited : List String → List String → ℕ
unvisited visited ids = length (filter (λ id. not (member id visited)) ids)

unvisited_le :
    (id : String) (visited ids : List String) → unvisited (id ∷ visited) ids ≤ unvisited visited ids
unvisited_le id visited [] = omega arith
unvisited_le id visited (j ∷ ids) = ground (arith, unvisited_le id visited ids)

pub unvisited_lt :
    (id : String) (visited ids : List String)
    → In id ids
    → member id visited ≡ false
    → unvisited (id ∷ visited) ids < unvisited visited ids
unvisited_lt id visited [] m n = absurd m
unvisited_lt id visited (j ∷ ids) (inl e) n =
    rw (← e) (ground (arith, n, ==-self id, unvisited_le id visited ids))
unvisited_lt id visited (j ∷ ids) (inr m) n = ground (arith, unvisited_lt id visited ids m n)

get-index_aux :
    (k : String) (v : SessionRow) (rows : List SessionRow) (by_id : List (String × SessionRow))
    → get k (index rows by_id) ≡ some v
    → In v rows ⊎ (get k by_id ≡ some v)
unfolding index
get-index_aux k v [] by_id h = inr h
get-index_aux k v (row ∷ rows) by_id h = elim (get-index_aux k v rows (set row.id row by_id) h) [
  | inl m ↦ inl (inr m)
  | inr g ↦ found (sym (get-set row.id k row by_id) ∙ g)
]
  where
    of_if :
        (b : Bool) (o : Option SessionRow)
        → (if b then some row else o) ≡ some v
        → (v ≡ row) ⊎ (o ≡ some v)
    of_if true o e = inl (sym (some-injective _ _ e))
    of_if false o e = inr e

    found :
        (if row.id == k then some row else get k by_id) ≡ some v
        → In v (row ∷ rows) ⊎ (get k by_id ≡ some v)
    found e = elim (of_if (row.id == k) (get k by_id) e) [ inl w ↦ inl (inl w) | inr w ↦ inr w ]

-- What the map of the rows finds is one of them.
pub get-index-In :
    (k : String) (v : SessionRow) (rows : List SessionRow)
    → get k (index rows []) ≡ some v
    → In v rows
unfolding get
get-index-In k v rows h = ground (arith, get-index_aux k v rows [] h)

module _ (rows : List SessionRow) where
  ids : List String
  ids = map (λ row. row.id) rows

  In-ids :
      (v : SessionRow) (rows : List SessionRow) → In v rows → In v.id (map (λ row. row.id) rows)
  In-ids v (row ∷ rows) (inl e) = inl (ap (λ r. r.id) e)
  In-ids v (row ∷ rows) (inr m) = inr (In-ids v rows m)
  In-ids v [] m = absurd m

  -- More rounds than there are unvisited ids are enough.
  climb_ends :
      (fuel : ℕ) (visited : List String) (parent : Option String)
      → unvisited visited ids < fuel
      → (chain : List SessionRow) × (climb fuel (index rows []) visited parent ≡ some chain)
        × All (λ row. In row rows) chain
  unfolding climb ids
  climb_ends zero visited parent h = absurd (omega arith)
  climb_ends (suc fuel) visited none h = ([], refl, tt)
  climb_ends (suc fuel) visited (some id) h = elim (Option-cases (get id (index rows []))) [
    | inl n ↦ ([], rw (n, climb) refl, tt)
    | inr (p, e) ↦ elim (Bool-cases (member p.id visited)) [
      | inl t ↦ ([], rw (e, t, climb) refl, tt)
      | inr t ↦
          let less : unvisited (p.id ∷ visited) ids < unvisited visited ids =
            unvisited_lt p.id visited ids (In-ids p rows (get-index-In id p rows e)) t in
          let (chain, end, known) =
            climb_ends fuel (p.id ∷ visited) p.parent_session_id (omega arith) in
          (p ∷ chain, rw (e, t, climb, end) refl, (get-index-In id p rows e, known))
    ]
  ]

  -- The walk from a leaf ends within one round more than there are rows, and meets rows only.
  pub chain_for_ends :
      (leaf : SessionRow)
      → In leaf rows
      → (chain : List SessionRow) × (chain_for (suc (length rows)) leaf (index rows [])
          ≡ some chain)
        × All (λ row. In row rows) chain
  unfolding chain_for ids
  chain_for_ends leaf m =
      let (ancestors, end, known) =
        climb_ends (suc (length rows)) (leaf.id ∷ []) leaf.parent_session_id (
          omega (
            arith,
            length-filter-le (λ id. not (member id (leaf.id ∷ []))) ids,
            length-map (λ (row : SessionRow). row.id) rows,
          )) in
      (
        reverse (leaf ∷ ancestors),
        rw (end, chain_for) refl,
        All-reverse (λ row. In row rows) (leaf ∷ ancestors) (m, known),
      )
