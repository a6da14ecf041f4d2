-- ===== src/Web/Lineage/Walks.antt =====
-- apps/web/src/lib/lineage.ts: walkUpward and walkDownward end, each within one round more than there
-- are members.
use telecode.Base.{
  ℕ, zero, suc, ◌+◌, ◌≤◌, ◌<◌, String, false, Option, none, some, List, [], ◌∷◌, ◌≡◌, refl, inl,
  inr, ◌⊎◌, arith, In, All, Bool-cases, Option-cases, ◌==◌, ==_iff, string_eq,
}
use telecode.Base.Dict.{get, get-All}
use telecode.Web.Threads.{member}
use telecode.Web.Threads.Climb.{unvisited, unvisited_lt}
use telecode.Web.Lineage.{LineageMember, cyclic, ancestors, walk_upward, walk_downward}
use telecode.Web.Lineage.Chain.{
  ids_of, occurs, occurs_none, Rises, Falls, In-ids_of, IsNamed, IsChild,
}

-- What a walk from the sessions visited may add to them.
occurs_once :
    (k id : String) (rest visited : List String)
    → member id visited ≡ false
    → (occurs k (id ∷ visited) ≤ 1 → occurs k rest + occurs k (id ∷ visited) ≤ 1)
    → occurs k visited ≤ 1
    → occurs k (id ∷ rest) + occurs k visited ≤ 1
occurs_once k id rest visited n ih h = elim (Bool-cases (id == k)) [
  | inl t ↦
      let new : occurs k visited ≡ 0 = occurs_none k visited (rw (← (==_iff id k).0 t) n) in
      ground (arith, t, new, ih)
  | inr t ↦ ground (arith, t, ih, h)
]

module _ (members : List LineageMember) where
  abbrev pub IsClimb : List String → Option String → List LineageMember → List String → Type 0
  IsClimb visited parent up after =
      Rises parent up
      × All (λ m. In m members) up
      × ((k : String) → occurs k visited ≤ 1 → occurs k (ids_of up) + occurs k visited ≤ 1)
      × ((k : String) → occurs k after ≡ occurs k (ids_of up) + occurs k visited)

  abbrev pub IsDescent : List String → String → List LineageMember → Type 0
  IsDescent visited tip down =
      Falls tip down
      × All (λ m. In m members) down
      × ((k : String) → occurs k visited ≤ 1 → occurs k (ids_of down) + occurs k visited ≤ 1)

  pub walk_downward_ends :
      (newest : List (String × LineageMember)) (fuel : ℕ) (visited : List String) (tip : String)
      → All (λ x. IsChild members x.0 x.1) newest
      → unvisited visited (ids_of members) < fuel
      → (down : List LineageMember) × (walk_downward fuel newest visited tip ≡ some down)
        × IsDescent visited tip down
  unfolding walk_downward
  walk_downward_ends newest zero visited tip is h = absurd (omega arith)
  walk_downward_ends newest (suc fuel) visited tip is h = elim (Option-cases (get tip newest)) [
    | inl n ↦ ([], rw (n, walk_downward) refl, (tt, tt, λ k o. omega (arith, o)))
    | inr (c, e) ↦ elim (Bool-cases (member c.id visited)) [
      | inl t ↦ ([], rw (e, t, walk_downward) refl, (tt, tt, λ k o. omega (arith, o)))
      | inr t ↦
          let child : IsChild members tip c =
            get-All (λ k m. IsChild members k m) tip c newest is e in
          let less : unvisited (c.id ∷ visited) (ids_of members)
              < unvisited visited (ids_of members) =
            unvisited_lt c.id visited (ids_of members) (In-ids_of c members child.1) t in
          let (down, end, (falls, known, once)) =
            walk_downward_ends newest fuel (c.id ∷ visited) c.id is (omega arith) in
          (
            c ∷ down,
            rw (e, t, walk_downward, end) refl,
            (
              (child.0, falls),
              (child.1, known),
              λ k. occurs_once k c.id (ids_of down) visited t (once k),
            ),
          )
    ]
  ]

  pub walk_upward_ends :
      (by_id : List (String × LineageMember)) (fuel : ℕ) (visited : List String)
      (parent : Option String)
      → All (λ x. IsNamed members x.0 x.1) by_id
      → unvisited visited (ids_of members) < fuel
      → (walk_upward fuel by_id visited parent ≡ cyclic)
        ⊎ ((up : List LineageMember) × (after : List String) × (walk_upward fuel by_id visited
                parent
              ≡ ancestors up after)
            × IsClimb visited parent up after)
  unfolding walk_upward
  walk_upward_ends by_id zero visited parent is h = absurd (omega arith)
  walk_upward_ends by_id (suc fuel) visited none is h =
      inr ([], visited, refl, (tt, tt, (λ k o. omega (arith, o)), λ k. omega arith))
  walk_upward_ends by_id (suc fuel) visited (some id) is h = elim (Option-cases (get id by_id)) [
    | inl n ↦ inr (
      [],
      visited,
      rw (n, walk_upward) refl,
      (tt, tt, (λ k o. omega (arith, o)), λ k. omega arith),
    )
    | inr (p, e) ↦ elim (Bool-cases (member p.id visited)) [
      | inl t ↦ inl (rw (e, t, walk_upward) refl)
      | inr t ↦
          let found : IsNamed members id p = get-All (λ k m. IsNamed members k m) id p by_id is e in
          let less : unvisited (p.id ∷ visited) (ids_of members)
              < unvisited visited (ids_of members) =
            unvisited_lt p.id visited (ids_of members) (In-ids_of p members found.1) t in
          elim (walk_upward_ends by_id fuel (p.id ∷ visited) p.parent_session_id is (omega arith)) [
            | inl c ↦ inl (rw (e, t, walk_upward, c) refl)
            | inr (up, after, end, (rises, known, once, sums)) ↦ inr (
              p ∷ up,
              after,
              rw (e, t, walk_upward, end) refl,
              (
                (rw found.0 refl, rises),
                (found.1, known),
                (λ k. occurs_once k p.id (ids_of up) visited t (once k)),
                λ k. ground (arith, sums k),
              ),
            )
          ]
    ]
  ]
