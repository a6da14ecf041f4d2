-- ===== src/Web/Lineage/Linear.antt =====
-- apps/web/src/lib/lineage.ts: what lineageOf gives.
use telecode.Base.{
  suc, ◌+◌, ◌≤◌, ◌<◌, String, not, some, List, [], ◌∷◌, ◌++◌, map, reverse, length, ltb, ◌≡◌, refl,
  inl, inr, ◌⊎◌, arith, In, In-append_right, All, All_In, All-append, All-reverse, Bool-cases,
  Option-cases, string_eq, length-filter-le, length-map, map-append,
}
use telecode.Base.Dict.{get, get-All}
use telecode.Web.Threads.{member}
use telecode.Web.Threads.Climb.{unvisited}
use telecode.Web.Lineage.{
  LineageMember, members_by_id, newest_child_of, lineage_segment, strip_of, lineage_from,
  lineage_of,
}
use telecode.Web.Lineage.Chain.{
  ids_of, occurs, occurs-append, occurs-reverse, reverse-IsLinked, Falls-IsLinked, IsLinked,
  IsNamed, members_by_id-IsNamed, newest_child_of-IsChild,
}
use telecode.Web.Lineage.Walks.{IsClimb, IsDescent, walk_upward_ends, walk_downward_ends}

module _ (members : List LineageMember) where
  rounds_suffice :
      (visited : List String) → unvisited visited (ids_of members) < suc (length members)
  rounds_suffice visited = omega (
    arith,
    length-filter-le (λ id. not (member id visited)) (ids_of members),
    length-map (λ (m : LineageMember). m.id) members,
  )

  -- A strip for the session: nothing, or a chain of two or more with the session in it.
  abbrev pub IsStrip : String → List LineageMember → Type 0
  IsStrip session chain =
      IsLinked chain
      × All (λ m. In m members) chain
      × ((k : String) → occurs k (ids_of chain) ≤ 1)
      × ((chain ≡ []) ⊎ (In session (ids_of chain) × (2 ≤ length chain)))

  whole_chain :
      (opened : LineageMember) (up down : List LineageMember) (after : List String)
      → In opened members
      → IsClimb members (opened.id ∷ []) opened.parent_session_id up after
      → IsDescent members after opened.id down
      → IsStrip opened.id (strip_of opened up down)
  unfolding strip_of
  whole_chain opened up down after m (rises, known_up, once_up, sums)
        (falls, known_down, once_down) =
      elim (Bool-cases (ltb (length (reverse up ++ (opened ∷ down))) 2)) [
        | inl t ↦ rw (t, strip_of) (tt, tt, (λ k. omega arith), inl refl)
        | inr t ↦
            rw (t, strip_of)
              (
                reverse-IsLinked up opened down rises (Falls-IsLinked opened down falls),
                All-append (λ m. In m members) (reverse up) (opened ∷ down)
                    (All-reverse (λ m. In m members) up known_up) (m, known_down),
                once,
                inr (here, ground (arith, t)),
              )
      ]
    where
      ids :
          ids_of (reverse up ++ (opened ∷ down)) ≡ ids_of (reverse up) ++ (opened.id ∷ ids_of down)
      ids = map-append (λ (x : LineageMember). x.id) (reverse up) (opened ∷ down)

      here : In opened.id (ids_of (reverse up ++ (opened ∷ down)))
      here = rw ids (In-append_right opened.id (ids_of (reverse up)) _ (inl refl))

      once : (k : String) → occurs k (ids_of (reverse up ++ (opened ∷ down))) ≤ 1
      once k =
          let s : occurs k (ids_of (reverse up) ++ (opened.id ∷ ids_of down))
              ≡ occurs k (ids_of (reverse up)) + occurs k (opened.id ∷ ids_of down) =
            occurs-append k (ids_of (reverse up)) (opened.id ∷ ids_of down) in
          let r = occurs-reverse k up in
          rw ids (ground (arith, s, r, sums k, once_up k, once_down k))

  lineage_from-IsStrip :
      (opened : LineageMember)
      → In opened members
      → (chain : List LineageMember) × (lineage_from opened members ≡ some chain)
        × IsStrip opened.id chain
  unfolding lineage_from
  lineage_from-IsStrip opened m =
      elim (walk_upward_ends members (members_by_id members []) (suc (length members))
        (opened.id ∷ []) opened.parent_session_id
        (members_by_id-IsNamed members members [] (All_In members) tt)
        (rounds_suffice (opened.id ∷ []))) [
          | inl c ↦ ([], rw (c, lineage_from) refl, (tt, tt, (λ k. omega arith), inl refl))
          | inr (up, after, end, climb) ↦
              let (down, ended, descent) =
                walk_downward_ends members (newest_child_of members []) (suc (length members)) after
                  opened.id (newest_child_of-IsChild members members [] (All_In members) tt)
                  (rounds_suffice after) in
              (
                strip_of opened up down,
                rw (end, lineage_from, ended) refl,
                whole_chain opened up down after m climb descent,
              )
        ]

-- For any sessions, whatever their parent links, cycles and forks included, both walks end, within
-- one round more than there are sessions, and the strip is an honest line: of the sessions given, no
-- id twice, each continuing the one before it; it is empty or has at least two, the opened one among
-- them, which is the one it marks.
pub lineage_of_linear :
    (session : String) (members : List LineageMember)
    → (chain : List LineageMember) × (lineage_of session members
        ≡ some (map (lineage_segment session) chain))
      × IsStrip members session chain
unfolding lineage_of
lineage_of_linear session members = elim (Option-cases (get session (members_by_id members []))) [
  | inl n ↦ ([], rw (n, lineage_of) refl, (tt, tt, (λ k. omega arith), inl refl))
  | inr (opened, e) ↦
      let found : IsNamed members session opened =
        get-All (λ k m. IsNamed members k m) session opened (members_by_id members [])
          (members_by_id-IsNamed members members [] (All_In members) tt) e in
      let (chain, end, strip) = lineage_from-IsStrip members opened found.1 in
      (chain, rw (e, lineage_of, end, found.0) refl, rw (← found.0) strip)
]
