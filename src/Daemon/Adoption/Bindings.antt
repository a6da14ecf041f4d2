-- ===== src/Daemon/Adoption/Bindings.antt =====
-- packages/daemon/src/adopt/adopted-sessions.ts: a session that is bound stays so.
use telecode.Base.{
  String, false, none, some, List, [], ◌∷◌, ◌++◌, filter, ◌≡◌, refl, inl, inr, Bool-cases, ◌==◌,
  ==_iff, string_eq, ◌∙◌,
}
use telecode.Base.Dict.{get, get-set, get-delete}
use telecode.Daemon.Adoption.{AdoptedSessions, settle, restore, is_pending, telecode_id_for}
use telecode.Daemon.Adoption.Changes.{
  AdoptOp, run, restored_all, Change, idle, announces, binds, fails, run_op-Change,
}

-- A session is not both bound and waited for.
abbrev pub IsApart : AdoptedSessions → Type 0
IsApart a = (k id : String) → get k a.by_claude_id ≡ some id → get k a.pending ≡ none

pub announcements : String → AdoptedSessions → List String
announcements k a = filter (λ j. j == k) a.announced

pub no_pending : (persisted : List (String × String)) → (restored_all persisted).pending ≡ []
unfolding restored_all restore settle get
no_pending [] = refl
no_pending ((k, id) ∷ persisted) =
    let e : get k (restored_all persisted).pending ≡ none = rw (no_pending persisted) refl in
    simp (e, settle) (no_pending persisted)

Change-IsApart : {a b : AdoptedSessions} → Change a b → IsApart a → IsApart b
Change-IsApart (idle e) h = rw e h
Change-IsApart {a = a} (announces k n m e) h = rw e (λ j id f.
    rw (get-set k j a.promises a.pending) (elim (Bool-cases (k == j)) [
      | inl t ↦ absurd (cc (n, f, (==_iff k j).0 t))
      | inr t ↦ rw t (h j id f)
    ]))
Change-IsApart {a = a} (binds k w i p e) h = rw e (λ j id f.
    rw (get-delete k j a.pending) (elim (Bool-cases (k == j)) [
      | inl t ↦ rw t refl
      | inr t ↦ rw t (h j id (rw (get-set k j i a.by_claude_id, t) at f))
    ]))
Change-IsApart {a = a} (fails k w p e) h = rw e (λ j id f.
    rw (get-delete k j a.pending)
      (elim (Bool-cases (k == j)) [ inl t ↦ rw t refl | inr t ↦ rw t (h j id f) ]))

run-IsApart :
    (persisted : List (String × String)) (log : List AdoptOp) → IsApart (run persisted log)
unfolding run
run-IsApart persisted [] = λ k id e. rw (no_pending persisted) (unfold get in refl)
run-IsApart persisted (op ∷ log) =
    Change-IsApart (run_op-Change op (run persisted log)) (run-IsApart persisted log)

Change-keeps :
    {a b : AdoptedSessions} (k id : String)
    → Change a b
    → IsApart a
    → get k a.by_claude_id ≡ some id
    → (get k b.by_claude_id ≡ some id) × (announcements k b ≡ announcements k a)
unfolding announcements
Change-keeps k id (idle e) h f = rw e (f, refl)
Change-keeps k id (announces j n m e) h f = elim (Bool-cases (j == k)) [
  | inl t ↦ absurd (cc (n, f, (==_iff j k).0 t))
  | inr t ↦ rw (e, t) (f, refl)
]
Change-keeps {a = a} k id (binds j w i p e) h f = elim (Bool-cases (j == k)) [
  | inl t ↦ absurd (cc (p, h k id f, (==_iff j k).0 t))
  | inr t ↦ rw e (rw (get-set j k i a.by_claude_id, t) f, refl)
]
Change-keeps k id (fails j w p e) h f = rw e (f, refl)

-- Once an adopted session has an id, it keeps that id whatever hook events, acknowledgements, forged
-- ones included, and timeouts follow; it is not announced again, and nothing waits for it.
pub bound_stays :
    (persisted : List (String × String)) (early late : List AdoptOp) (claude_id session : String)
    → telecode_id_for claude_id (run persisted early) ≡ some session
    → let a = run persisted (late ++ early) in
      (telecode_id_for claude_id a ≡ some session)
      × (announcements claude_id a ≡ announcements claude_id (run persisted early))
      × (is_pending claude_id a ≡ false)
unfolding telecode_id_for is_pending run
bound_stays persisted early [] k id h = (h, refl, rw (run-IsApart persisted early k id h) refl)
bound_stays persisted early (op ∷ late) k id h =
    let (bound, same, quiet) = bound_stays persisted early late k id h in
    let change = run_op-Change op (run persisted (late ++ early)) in
    let apart = run-IsApart persisted (late ++ early) in
    let (kept, silent) = Change-keeps k id change apart bound in
    (kept, silent ∙ same, rw (Change-IsApart change apart k id kept) refl)
