-- ===== src/Web/Lineage.antt =====
-- apps/web/src/lib/lineage.ts: the conversation that a session belongs to, for the session's page.
pub mod Chain
pub mod Walks
pub mod Linear
use telecode.Base.{
  ℕ, zero, suc, String, ◌||◌, Option, none, some, List, [], ◌∷◌, ◌++◌, map, length, reverse, ltb,
  if◌then◌else◌, ◌==◌, string_eq,
}
use telecode.Base.Dict.{get, set}
use telecode.Protocol.Status.{SessionOrigin}
use telecode.Web.Threads.{ThreadSegment, member}

pub record LineageMember : Type 0 where
  pub id : String
  pub parent_session_id : Option String
  pub origin : SessionOrigin
  pub created_at : ℕ

-- `new Map(members.map((m) => [m.id, m]))`, onto the map so far.
unfoldable pub members_by_id :
    List LineageMember → List (String × LineageMember) → List (String × LineageMember)
unfolding set
members_by_id [] known = known
members_by_id (m ∷ ms) known = members_by_id ms (set m.id m known)

-- What `walkUpward` gives: `null` on a cycle, or the ancestors, the nearest first, with the set
-- `visited` as the walk leaves it.
pub data Upward : Type 0 where
  unfinished cyclic : Upward
  ancestors : List LineageMember → (visited : List String) → Upward

abbrev pub below : LineageMember → Upward → Upward
below parent (ancestors up visited) = ancestors (parent ∷ up) visited
below parent unfinished = unfinished
below parent cyclic = cyclic

-- A round costs a unit of fuel, and without any the walk is unfinished.
unfoldable pub walk_upward :
    ℕ → List (String × LineageMember) → List String → Option String → Upward
unfolding get
walk_upward zero by_id visited parent = unfinished
walk_upward (suc fuel) by_id visited none = ancestors [] visited
walk_upward (suc fuel) by_id visited (some id) = elim (get id by_id) [
  | none ↦ ancestors [] visited
  | some parent ↦
      let rest = walk_upward fuel by_id (parent.id ∷ visited) parent.parent_session_id in
      if member parent.id visited then cyclic else below parent rest
]

-- A round of the loop that fills `newestChildOf`.
unfoldable pub note_child :
    LineageMember → List (String × LineageMember) → List (String × LineageMember)
unfolding get set
note_child m newest = elim m.parent_session_id [
  | none ↦ newest
  | some p ↦ elim (get p newest) [
    | none ↦ set p m newest
    | some best ↦ if ltb best.created_at m.created_at then set p m newest else newest
  ]
]

unfoldable pub newest_child_of :
    List LineageMember → List (String × LineageMember) → List (String × LineageMember)
unfolding note_child
newest_child_of [] newest = newest
newest_child_of (m ∷ ms) newest = newest_child_of ms (note_child m newest)

abbrev pub above : LineageMember → Option (List LineageMember) → Option (List LineageMember)
above child none = none
above child (some down) = some (child ∷ down)

-- The unbounded loop of `walkDownward` from a tip, on fuel as above.
unfoldable pub walk_downward :
    ℕ → List (String × LineageMember) → List String → String → Option (List LineageMember)
unfolding get
walk_downward zero newest visited tip = none
walk_downward (suc fuel) newest visited tip = elim (get tip newest) [
  | none ↦ some []
  | some child ↦
      let rest = walk_downward fuel newest (child.id ∷ visited) child.id in
      if member child.id visited then some [] else above child rest
]

unfoldable pub lineage_segment : String → LineageMember → ThreadSegment
lineage_segment opened m = record {
  session_id = m.id;
  origin = m.origin;
  started_at = m.created_at;
  is_current = m.id == opened;
}

-- The chain of the session, or nothing where it is shorter than two.
unfoldable pub strip_of :
    LineageMember → List LineageMember → List LineageMember → List LineageMember
strip_of opened up down =
    let chain = reverse up ++ (opened ∷ down) in if ltb (length chain) 2 then [] else chain

-- `lineageOf` from the session that it found.
unfoldable pub lineage_from : LineageMember → List LineageMember → Option (List LineageMember)
unfolding members_by_id newest_child_of walk_upward walk_downward strip_of
lineage_from opened members =
    let rounds = suc (length members) in
    elim (walk_upward rounds (members_by_id members []) (opened.id ∷ []) opened.parent_session_id) [
      | unfinished ↦ none
      | cyclic ↦ some []
      | ancestors up visited ↦
          elim (walk_downward rounds (newest_child_of members []) visited opened.id) [
            | none ↦ none
            | some down ↦ some (strip_of opened up down)
          ]
    ]

unfoldable pub lineage_of : String → List LineageMember → Option (List ThreadSegment)
unfolding members_by_id get lineage_from lineage_segment
lineage_of session members = elim (get session (members_by_id members [])) [
  | none ↦ some []
  | some opened ↦ elim (lineage_from opened members) [
    | none ↦ none
    | some chain ↦ some (map (lineage_segment opened.id) chain)
  ]
]
