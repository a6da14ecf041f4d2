-- ===== src/Web/Threads.antt =====
-- apps/web/src/lib/threads.ts: the chains of linked sessions, each one row of the dashboard.
pub mod Climb
pub mod Coverage
use telecode.Base.{
  ℕ, zero, suc, String, Bool, true, false, ◌&&◌, ◌||◌, not, Option, none, some, List, [], ◌∷◌, ◌++◌,
  map, any, length, reverse, ltb, is_some, or_else, if◌then◌else◌, ◌==◌, string_eq,
}
use telecode.Base.Dict.{get, set}
use telecode.Protocol.Status.{SessionOrigin}
use telecode.Web.Rows.{SessionRow}

pub record ThreadSegment : Type 0 where
  pub session_id : String
  pub origin : SessionOrigin
  pub started_at : ℕ
  pub is_current : Bool

-- A row with its segments.
pub record ThreadRow : Type 0 where
  pub row : SessionRow
  pub segments : List ThreadSegment

-- A `Set` of ids as the list of what was added.
abbrev pub member : String → List String → Bool
member id ids = any (λ j. j == id) ids

-- `new Map(rows.map((row) => [row.id, row]))`, onto the map so far.
unfoldable pub index : List SessionRow → List (String × SessionRow) → List (String × SessionRow)
unfolding set
index [] by_id = by_id
index (row ∷ rows) by_id = index rows (set row.id row by_id)

unfoldable pub segment_for : SessionRow → String → ThreadSegment
segment_for row leaf = record {
  session_id = row.id;
  origin = row.origin;
  started_at = row.created_at;
  is_current = row.id == leaf;
}

-- The loop of `chainFor`: the ancestors, the nearest first. A round costs a unit of fuel, and
-- without any there is no result.
unfoldable pub climb :
    ℕ → List (String × SessionRow) → List String → Option String → Option (List SessionRow)
unfolding get
climb zero by_id visited parent = none
climb (suc fuel) by_id visited none = some []
climb (suc fuel) by_id visited (some id) = elim (get id by_id) [
  | none ↦ some []
  | some parent ↦
      let rest = climb fuel by_id (parent.id ∷ visited) parent.parent_session_id in
      if member parent.id visited then some [] else with_head parent rest
]
  where
    with_head : SessionRow → Option (List SessionRow) → Option (List SessionRow)
    with_head row none = none
    with_head row (some rows) = some (row ∷ rows)

-- Of as many rounds as there are rows, and one.
unfoldable pub chain_for : ℕ → SessionRow → List (String × SessionRow) → Option (List SessionRow)
unfolding climb
chain_for rounds leaf by_id = elim (climb rounds by_id (leaf.id ∷ []) leaf.parent_session_id) [
  | none ↦ none
  | some ancestors ↦ some (reverse (leaf ∷ ancestors))
]

unfoldable pub parents_with_children : List SessionRow → List (String × SessionRow) → List String
unfolding get
parents_with_children [] known = []
parents_with_children (row ∷ rows) known =
    let rest = parents_with_children rows known in
    elim row.parent_session_id [
      | none ↦ rest
      | some p ↦ if is_some (get p known) then p ∷ rest else rest
    ]

abbrev first_title : List SessionRow → Option String
first_title [] = none
first_title (row ∷ rows) = elim row.title [ none ↦ first_title rows | some t ↦ some t ]

unfoldable pub thread_for : SessionRow → List SessionRow → ThreadRow
unfolding segment_for
thread_for leaf chain = record {
  row = record leaf { origin = root_origin chain; title = first_title chain };
  segments = map (λ row. segment_for row leaf.id) chain;
}
  where
    root_origin : List SessionRow → SessionOrigin
    root_origin [] = leaf.origin
    root_origin (root ∷ rest) = root.origin

abbrev pub plain : SessionRow → ThreadRow
plain row = record { row = row; segments = [] }

-- The threads and the set of absorbed ids.
pub record Threads : Type 0 where
  pub threads : List ThreadRow
  pub absorbed : List String

-- One leaf's part of the first loop, put before what its other rows give.
unfoldable pub with_leaf : SessionRow → Option (List SessionRow) → Option Threads → Option Threads
unfolding thread_for
with_leaf leaf none rest = none
with_leaf leaf (some chain) none = none
with_leaf leaf (some chain) (some rest) = some (
    if ltb (length chain) 2 then record rest { threads = plain leaf ∷ rest.threads } else record {
      threads = thread_for leaf chain ∷ rest.threads;
      absorbed = map (λ row. row.id) chain ++ rest.absorbed;
    })

-- The first loop of `buildThreadRows`, over the leaves.
unfoldable pub leaf_threads :
    ℕ → List (String × SessionRow) → List String → List SessionRow → Option Threads
unfolding chain_for with_leaf
leaf_threads rounds by_id has_child [] = some (record { threads = []; absorbed = [] })
leaf_threads rounds by_id has_child (leaf ∷ rows) =
    let rest = leaf_threads rounds by_id has_child rows in
    if member leaf.id has_child then rest else with_leaf leaf (chain_for rounds leaf by_id) rest

-- The second loop: the members of cycles, which no leaf's chain has absorbed.
unfoldable pub cycle_threads : List String → List String → List SessionRow → List ThreadRow
cycle_threads has_child absorbed [] = []
cycle_threads has_child absorbed (row ∷ rows) =
    let rest = cycle_threads has_child absorbed rows in
    if member row.id has_child && not (member row.id absorbed) then plain row ∷ rest else rest

unfoldable pub build_thread_rows : List SessionRow → Option (List ThreadRow)
unfolding index parents_with_children leaf_threads cycle_threads
build_thread_rows rows =
    let by_id = index rows [] in
    let has_child = parents_with_children rows by_id in
    elim (leaf_threads (suc (length rows)) by_id has_child rows) [
      | none ↦ none
      | some t ↦ some (t.threads ++ cycle_threads has_child t.absorbed rows)
    ]
