-- ===== src/Web/Lineage/Chain.antt =====
-- apps/web/src/lib/lineage.ts: the walks end, and the strip is an honest chain.
use telecode.Base.{
  ℕ, suc, ◌+◌, String, false, Option, some, List, [], ◌∷◌, ◌++◌, map, reverse, ltb, ◌≡◌, refl, ap,
  inl, inr, arith, In, All, Bool-cases, Option-cases, if◌then◌else◌, ◌==◌, string_eq, map-append,
}
use telecode.Base.Dict.{get, set, All-set}
use telecode.Web.Threads.{member}
use telecode.Web.Lineage.{LineageMember, members_by_id, note_child, newest_child_of}

abbrev pub ids_of : List LineageMember → List String
ids_of ms = map (λ m. m.id) ms

-- How often an id stands in a list.
abbrev pub occurs : String → List String → ℕ
occurs k [] = 0
occurs k (j ∷ js) = if j == k then suc (occurs k js) else occurs k js

-- Each member but the first continues the one before it.
abbrev pub IsLinked : List LineageMember → Type 0
IsLinked [] = Unit
IsLinked (m ∷ []) = Unit
IsLinked (m ∷ n ∷ ms) = (n.parent_session_id ≡ some m.id) × IsLinked (n ∷ ms)

-- From a session to its ancestors, and from a session to its descendants.
abbrev pub Rises : Option String → List LineageMember → Type 0
Rises parent [] = Unit
Rises parent (p ∷ ps) = (parent ≡ some p.id) × Rises p.parent_session_id ps

abbrev pub Falls : String → List LineageMember → Type 0
Falls id [] = Unit
Falls id (c ∷ cs) = (c.parent_session_id ≡ some id) × Falls c.id cs

pub occurs-append :
    (k : String) (xs ys : List String) → occurs k (xs ++ ys) ≡ occurs k xs + occurs k ys
occurs-append k [] ys = omega arith
occurs-append k (x ∷ xs) ys = ground (arith, occurs-append k xs ys)

pub occurs_none : (k : String) (ks : List String) → member k ks ≡ false → occurs k ks ≡ 0
occurs_none k [] h = refl
occurs_none k (j ∷ ks) h = ground (arith, h, occurs_none k ks)

pub Falls-IsLinked :
    (m : LineageMember) (down : List LineageMember) → Falls m.id down → IsLinked (m ∷ down)
Falls-IsLinked m [] h = tt
Falls-IsLinked m (c ∷ cs) h = (h.0, Falls-IsLinked c cs h.1)

append-snoc :
    (xs : List LineageMember) (m : LineageMember) (ys : List LineageMember)
    → (xs ++ (m ∷ [])) ++ ys ≡ xs ++ (m ∷ ys)
append-snoc [] m ys = refl
append-snoc (x ∷ xs) m ys = ap (◌∷◌ x) (append-snoc xs m ys)

-- The ancestors turned round lead down to the session.
pub reverse-IsLinked :
    (up : List LineageMember) (m : LineageMember) (down : List LineageMember)
    → Rises m.parent_session_id up
    → IsLinked (m ∷ down)
    → IsLinked (reverse up ++ (m ∷ down))
reverse-IsLinked [] m down r h = h
reverse-IsLinked (p ∷ ps) m down r h =
    rw (append-snoc (reverse ps) p (m ∷ down)) (reverse-IsLinked ps p (m ∷ down) r.1 (r.0, h))

pub occurs-reverse :
    (k : String) (up : List LineageMember) → occurs k (ids_of (reverse up)) ≡ occurs k (ids_of up)
occurs-reverse k [] = refl
occurs-reverse k (m ∷ up) =
    rw (map-append (λ (x : LineageMember). x.id) (reverse up) (m ∷ []))
      (ground (arith, occurs-reverse k up, occurs-append k (ids_of (reverse up)) (m.id ∷ [])))

pub In-ids_of : (v : LineageMember) (ms : List LineageMember) → In v ms → In v.id (ids_of ms)
In-ids_of v (m ∷ ms) (inl e) = inl (ap (λ x. x.id) e)
In-ids_of v (m ∷ ms) (inr h) = inr (In-ids_of v ms h)
In-ids_of v [] h = absurd h

module _ (members : List LineageMember) where
  -- An entry of `byId`, and one of `newestChildOf`.
  abbrev pub IsNamed : String → LineageMember → Type 0
  IsNamed k m = (m.id ≡ k) × In m members

  abbrev pub IsChild : String → LineageMember → Type 0
  IsChild k m = (m.parent_session_id ≡ some k) × In m members

  pub members_by_id-IsNamed :
      (ms : List LineageMember) (known : List (String × LineageMember))
      → All (λ m. In m members) ms
      → All (λ x. IsNamed x.0 x.1) known
      → All (λ x. IsNamed x.0 x.1) (members_by_id ms known)
  unfolding members_by_id
  members_by_id-IsNamed [] known h k = k
  members_by_id-IsNamed (m ∷ ms) known h k =
      members_by_id-IsNamed ms (set m.id m known) h.1
        (All-set (λ k m. (m.id ≡ k) × In m members) m.id m known (refl, h.0) k)

  note_child-IsChild :
      (m : LineageMember) (newest : List (String × LineageMember))
      → In m members
      → All (λ x. IsChild x.0 x.1) newest
      → All (λ x. IsChild x.0 x.1) (note_child m newest)
  unfolding note_child
  note_child-IsChild m newest i h = elim (Option-cases m.parent_session_id) [
    | inl n ↦ simp (n, note_child) h
    | inr (p, e) ↦
        let kept : All (λ x. IsChild x.0 x.1) (set p m newest) =
          All-set (λ k m. (m.parent_session_id ≡ some k) × In m members) p m newest (e, i) h in
        elim (Option-cases (get p newest)) [
          | inl n ↦ simp (e, n, note_child) kept
          | inr (best, f) ↦ elim (Bool-cases (ltb best.created_at m.created_at)) [
            | inl t ↦ simp (e, f, t, note_child) kept
            | inr t ↦ simp (e, f, t, note_child) h
          ]
        ]
  ]

  pub newest_child_of-IsChild :
      (ms : List LineageMember) (newest : List (String × LineageMember))
      → All (λ m. In m members) ms
      → All (λ x. IsChild x.0 x.1) newest
      → All (λ x. IsChild x.0 x.1) (newest_child_of ms newest)
  unfolding newest_child_of
  newest_child_of-IsChild [] newest h k = k
  newest_child_of-IsChild (m ∷ ms) newest h k =
      newest_child_of-IsChild ms (note_child m newest) h.1 (note_child-IsChild m newest h.0 k)
