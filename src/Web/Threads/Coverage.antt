-- ===== src/Web/Threads/Coverage.antt =====
-- apps/web/src/lib/threads.ts: buildThreadRows loses no session and invents none.
use telecode.Base.{
  suc, String, true, false, not, ◌&&◌, some, List, [], ◌∷◌, ◌++◌, map, length, ltb, ◌≡◌, refl, sym,
  ap, subst, inl, inr, ◌⊎◌, arith, In, any-In, In-append_left, In-append_right, All_In, All,
  All-append, Bool-cases, string_eq, append_assoc,
}
use telecode.Web.Rows.{SessionRow}
use telecode.Web.Threads.{
  ThreadRow, ThreadSegment, Threads, member, index, segment_for, parents_with_children, thread_for,
  plain, with_leaf, leaf_threads, cycle_threads, build_thread_rows,
}
use telecode.Web.Threads.Climb.{chain_for_ends}

-- The sessions that a thread shows: its own and its segments'.
abbrev pub shown : ThreadRow → List String
shown t = t.row.id ∷ map (λ s. s.session_id) t.segments

abbrev pub shown_all : List ThreadRow → List String
shown_all [] = []
shown_all (t ∷ ts) = shown t ++ shown_all ts

abbrev pub ids_of : List SessionRow → List String
ids_of rows = map (λ row. row.id) rows

In-append_cases : (a : String) (xs ys : List String) → In a (xs ++ ys) → In a xs ⊎ In a ys
In-append_cases a [] ys m = inr m
In-append_cases a (x ∷ xs) ys (inl e) = inl (inl e)
In-append_cases a (x ∷ xs) ys (inr m) = elim (In-append_cases a xs ys m) [
  | inl l ↦ inl (inr l)
  | inr r ↦ inr r
]

In-ids_of : (row : SessionRow) (rows : List SessionRow) → In row rows → In row.id (ids_of rows)
In-ids_of row (r ∷ rows) (inl e) = inl (ap (λ (x : SessionRow). x.id) e)
In-ids_of row (r ∷ rows) (inr m) = inr (In-ids_of row rows m)
In-ids_of row [] m = absurd m

segments_ids :
    (leaf : String) (chain : List SessionRow)
    → map (λ (s : ThreadSegment). s.session_id) (map (λ row. segment_for row leaf) chain)
      ≡ ids_of chain
unfolding segment_for
segments_ids leaf [] = refl
segments_ids leaf (row ∷ chain) = ap (◌∷◌ row.id) (segments_ids leaf chain)

-- What the first loop gives for some of the rows.
record IsThreading (all : List SessionRow) (has_child : List String) (rows : List SessionRow)
    (t : Threads) : Type 0 where
  leaves_shown :
      (row : SessionRow)
      → In row rows
      → member row.id has_child ≡ false
      → In row.id (shown_all t.threads)
  absorbed_shown : (id : String) → In id t.absorbed → In id (shown_all t.threads)
  known : All (λ id. In id (ids_of all)) (shown_all t.threads)

known_ids :
    (all rows : List SessionRow)
    → All (λ row. In row all) rows
    → All (λ id. In id (ids_of all)) (ids_of rows)
known_ids all [] h = tt
known_ids all (row ∷ rows) h = (In-ids_of row all h.0, known_ids all rows h.1)

module _ (all : List SessionRow) (has_child : List String) where
  with_leaf-IsThreading :
      (leaf : SessionRow) (chain rows : List SessionRow) (t : Threads)
      → In leaf all
      → All (λ row. In row all) chain
      → IsThreading all has_child rows t
      → (u : Threads) × (with_leaf leaf (some chain) (some t) ≡ some u)
        × IsThreading all has_child (leaf ∷ rows) u
  unfolding with_leaf thread_for
  with_leaf-IsThreading leaf chain rows t m k h = elim (Bool-cases (ltb (length chain) 2)) [
    | inl e ↦ (
      record t { threads = plain leaf ∷ t.threads },
      rw e refl,
      record {
        leaves_shown = λ row i n. elim i [
          | inl q ↦ inl (ap (λ (x : SessionRow). x.id) q)
          | inr j ↦ inr (h.leaves_shown row j n)
        ];
        absorbed_shown = λ id i. inr (h.absorbed_shown id i);
        known = (In-ids_of leaf all m, h.known);
      },
    )
    | inr e ↦ (
      record { threads = thread_for leaf chain ∷ t.threads; absorbed = ids_of chain ++ t.absorbed },
      rw e refl,
      record {
        leaves_shown = λ row i n. elim i [
          | inl q ↦ inl (ap (λ (x : SessionRow). x.id) q)
          | inr j ↦ inr (In-append_right row.id _ _ (h.leaves_shown row j n))
        ];
        absorbed_shown = λ id i. elim (In-append_cases id (ids_of chain) t.absorbed i) [
          | inl j ↦ inr (
              In-append_left id (map (λ s. s.session_id) (thread_for leaf chain).segments)
                (shown_all t.threads) (rw (segments_ids leaf.id chain) j))
          | inr j ↦ inr (In-append_right id _ _ (h.absorbed_shown id j))
        ];
        known = (
          In-ids_of leaf all m,
          All-append _ _ _ (rw (segments_ids leaf.id chain) (known_ids all chain k)) h.known,
        );
      },
    )
  ]

  leaf_threads_ends :
      (rows : List SessionRow)
      → All (λ row. In row all) rows
      → (t : Threads) × (leaf_threads (suc (length all)) (index all []) has_child rows ≡ some t)
        × IsThreading all has_child rows t
  unfolding leaf_threads
  leaf_threads_ends [] h = (
    record { threads = []; absorbed = [] },
    refl,
    record { leaves_shown = λ row i n. absurd i; absorbed_shown = λ id i. absurd i; known = tt },
  )
  leaf_threads_ends (leaf ∷ rows) h =
      let (t, end, is) = leaf_threads_ends rows h.1 in
      elim (Bool-cases (member leaf.id has_child)) [
        | inl e ↦ (
          t,
          rw (e, end) refl,
          record {
            leaves_shown = λ row i n. elim i [
              | inl q ↦
                  let left : member leaf.id has_child ≡ false =
                    subst (λ (x : SessionRow). member x.id has_child ≡ false) q n in
                  absurd (ground (arith, left, e))
              | inr j ↦ is.leaves_shown row j n
            ];
            absorbed_shown = is.absorbed_shown;
            known = is.known;
          },
        )
        | inr e ↦
            let (chain, walked, met) = chain_for_ends all leaf h.0 in
            let (u, made, done) = with_leaf-IsThreading leaf chain rows t h.0 met is in
            (u, rw (e, end, walked) made, done)
      ]

  cycle_threads_shown :
      (absorbed : List String) (rows : List SessionRow) (row : SessionRow)
      → In row rows
      → member row.id has_child ≡ true
      → member row.id absorbed ≡ false
      → In row.id (shown_all (cycle_threads has_child absorbed rows))
  unfolding cycle_threads
  cycle_threads_shown absorbed (r ∷ rows) row (inl q) c a =
      let guard : (member r.id has_child && not (member r.id absorbed)) ≡ true =
        subst (λ (x : SessionRow). (member x.id has_child && not (member x.id absorbed)) ≡ true) q
          (ground (arith, c, a)) in
      rw guard (inl (ap (λ (x : SessionRow). x.id) q))
  cycle_threads_shown absorbed (r ∷ rows) row (inr m) c a =
      let rest = cycle_threads_shown absorbed rows row m c a in
      elim (Bool-cases (member r.id has_child && not (member r.id absorbed))) [
        | inl e ↦ rw e (inr rest)
        | inr e ↦ rw e rest
      ]
  cycle_threads_shown absorbed [] row m c a = absurd m

  cycle_threads_known :
      (absorbed : List String) (rows : List SessionRow)
      → All (λ row. In row all) rows
      → All (λ id. In id (ids_of all)) (shown_all (cycle_threads has_child absorbed rows))
  unfolding cycle_threads
  cycle_threads_known absorbed [] h = tt
  cycle_threads_known absorbed (r ∷ rows) h =
      elim (Bool-cases (member r.id has_child && not (member r.id absorbed))) [
        | inl e ↦ rw e (In-ids_of r all h.0, cycle_threads_known absorbed rows h.1)
        | inr e ↦ rw e (cycle_threads_known absorbed rows h.1)
      ]

shown_all-append : (ts us : List ThreadRow) → shown_all (ts ++ us) ≡ shown_all ts ++ shown_all us
shown_all-append [] us = refl
shown_all-append (t ∷ ts) us =
    rw (shown_all-append ts us) (sym (append_assoc (shown t) (shown_all ts) (shown_all us)))

-- For any rows, whatever their parent links, cycles included, the collapse ends, within one round
-- of a walk more than there are rows; every session stands in the result, as a thread's row or in a
-- thread's segments, and nothing else does.
pub build_thread_rows_covers :
    (rows : List SessionRow)
    → (threads : List ThreadRow) × (build_thread_rows rows ≡ some threads)
      × ((row : SessionRow) → In row rows → In row.id (shown_all threads))
      × All (λ id. In id (ids_of rows)) (shown_all threads)
unfolding build_thread_rows
build_thread_rows_covers rows =
    let has_child = parents_with_children rows (index rows []) in
    let (t, end, is) = leaf_threads_ends rows has_child rows (All_In rows) in
    let cycles = cycle_threads has_child t.absorbed rows in
    (
      t.threads ++ cycles,
      rw (end, build_thread_rows) refl,
      rw (shown_all-append t.threads cycles) (λ row m. elim (Bool-cases (member row.id has_child)) [
        | inr n ↦
            In-append_left row.id (shown_all t.threads) (shown_all cycles) (is.leaves_shown row m n)
        | inl c ↦ elim (Bool-cases (member row.id t.absorbed)) [
          | inl a ↦
              In-append_left row.id (shown_all t.threads) (shown_all cycles)
                (is.absorbed_shown row.id (any-In row.id t.absorbed a))
          | inr a ↦
              In-append_right row.id (shown_all t.threads) (shown_all cycles)
                (cycle_threads_shown rows has_child t.absorbed rows row m c a)
        ]
      ]),
      rw (shown_all-append t.threads cycles) (
          All-append (λ id. In id (ids_of rows)) (shown_all t.threads) (shown_all cycles) is.known
            (cycle_threads_known rows has_child t.absorbed rows (All_In rows))),
    )
