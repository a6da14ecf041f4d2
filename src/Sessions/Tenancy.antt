-- ===== src/Sessions/Tenancy.antt =====
-- Users do not reach one another's rows through the registry.
use telecode.Base.{
  ℕ, String, Bool, true, false, not, ◌≡◌, ◌≢◌, refl, subst, ◌∙◌, ap, [], ◌∷◌, map, arith, any,
  filter, All, All-imp, append-nil, ◌==◌, string_eq, eq_iff, Bool-cases, inl, inr, Option, none,
  some,
}
use mathlib.Core.Path.{ap₂}
use telecode.Sessions.{
  Row, Table, NewSession, owned, owned_ended, update_where, create_session, set_archived,
  delete_session, unlink, verified_parent_id, live_on, orphaned,
}
use telecode.Sessions.Mutation.{Change, apply}
use telecode.Sessions.Rows.{any_mono, filter-update_where, filter-append}
use telecode.Sessions.Consistent.{IsConsistent, HasUniqueIds, HasParent, has_parent_in, has_id}

abbrev pub of_user : String → Table → Table
of_user user rows = filter (λ r. r.user_id == user) rows

any-has_id :
    (v s : String) (rows : Table) → any (owned v s) rows ≡ true → any (has_id s) rows ≡ true
any-has_id v s rows = any_mono (owned v s) (has_id s) (λ r h. ground arith) rows

-- With unique ids a session has one owner.
unique_owner :
    (rows : Table) (s u v : String)
    → HasUniqueIds rows
    → any (owned u s) rows ≡ true
    → any (owned v s) rows ≡ true
    → v ≡ u
unique_owner [] s u v unique e f = cc
unique_owner (r ∷ rows) s u v unique e f = ground (
  arith,
  eq_iff r.id s,
  eq_iff r.user_id u,
  eq_iff r.user_id v,
  ap (λ x. any (has_id x) rows) {x = r.id} {y = s},
  any-has_id u s rows,
  any-has_id v s rows,
  unique_owner rows s u v unique.1,
)

-- A row of another user is no child of the deleted session.
unlink_other :
    (user session : String) (rows : Table) (r : Row)
    → HasUniqueIds rows
    → any (owned user session) rows ≡ true
    → (r.user_id == user) ≡ false
    → HasParent rows r
    → unlink session r.parent_session_id ≡ r.parent_session_id
unlink_other user session rows r unique found other h = go r.parent_session_id h
  where
    go : (o : Option String) → has_parent_in rows r.user_id o ≡ true → unlink session o ≡ o
    go none e = refl
    go (some p) e = elim (Bool-cases (p == session)) [
      | inl same ↦ absurd (
          ground (
            arith,
            eq_iff r.user_id user,
            unique_owner rows session user r.user_id unique found
                (subst (λ x. any (owned r.user_id x) rows ≡ true) ((eq_iff p session).0 same) e),
          ))
      | inr differs ↦ rw differs
    ]

delete_other :
    (user v session : String) (rows : Table)
    → user ≢ v
    → All
        (λ r. (r.user_id == v) ≡ true → unlink session r.parent_session_id ≡ r.parent_session_id)
        rows
    → of_user v (map (orphaned session) (filter (λ r. not (owned_ended user session r)) rows))
      ≡ of_user v rows
delete_other user v session [] apart h = refl
delete_other user v session (r ∷ rows) apart h = elim (Bool-cases (r.user_id == v)) [
  | inl theirs ↦
      let keep : owned_ended user session r ≡ false =
        ground (arith, apart, eq_iff r.user_id user, eq_iff r.user_id v) in
      rw (keep, theirs)
        (ap₂ ◌∷◌ (ap (λ o. record r { parent_session_id = o }) (h.0 theirs))
          (delete_other user v session rows apart h.1))
  | inr other ↦ ground (arith, other, delete_other user v session rows apart h.1)
]

delete_session_other :
    (user v session : String) (rows : Table)
    → user ≢ v
    → IsConsistent rows
    → of_user v (delete_session user session rows).0 ≡ of_user v rows
unfolding delete_session
delete_session_other user v session rows apart c =
    elim (Bool-cases (any (owned_ended user session) rows)) [
      | inl found ↦ rw found (
          delete_other user v session rows apart (
            All-imp
              (λ r h theirs.
                unlink_other user session rows r c.unique
                  (any_mono (owned_ended user session) (owned user session) (λ x e. ground arith)
                    rows found)
                  (ground (arith, apart, eq_iff r.user_id user, eq_iff r.user_id v)) h)
              rows c.linked))
      | inr missed ↦ rw missed
    ]

-- A guarded update of `user` writes no row of another.
update_other :
    (user v : String) (p : Row → Bool) (f : Row → Row) (rows : Table)
    → user ≢ v
    → ((r : Row) → p r ≡ true → (r.user_id == user) ≡ true)
    → ((r : Row) → (f r).user_id ≡ r.user_id)
    → of_user v (update_where p f rows) ≡ of_user v rows
update_other user v p f rows apart guarded same =
    filter-update_where (λ r. r.user_id == v) p f rows
      (λ r e. ground (arith, apart, guarded r e, eq_iff r.user_id user, eq_iff r.user_id v))
      (λ r. ap (λ u. u == v) (same r))

update_owned_other :
    (user v session : String) (f : Row → Row) (rows : Table)
    → user ≢ v
    → ((r : Row) → (f r).user_id ≡ r.user_id)
    → of_user v (update_where (owned user session) f rows) ≡ of_user v rows
update_owned_other user v session f rows apart same =
    update_other user v (owned user session) f rows apart (λ r e. ground arith) same

set_archived_other :
    (user v session : String) (archived : Bool) (now : ℕ) (rows : Table)
    → user ≢ v
    → of_user v (set_archived user session archived now rows).0 ≡ of_user v rows
unfolding set_archived
set_archived_other user v session archived now rows apart =
    elim (Bool-cases (any (owned_ended user session) rows)) [
      | inl found ↦ rw found (
          update_other user v (owned_ended user session) _ rows apart (λ r e. ground arith)
            (λ r. refl))
      | inr missed ↦ rw missed
    ]

-- In a consistent table, no call that the registry makes for one user adds, removes or changes a row
-- of another user.
pub apply_isolated :
    (user v : String) (now : ℕ) (c : Change) (rows : Table)
    → user ≢ v
    → IsConsistent rows
    → of_user v (apply user now c rows) ≡ of_user v rows
unfolding apply
apply_isolated user v now (Change.runs s) rows apart c =
    update_owned_other user v s _ rows apart (λ r. refl)
apply_isolated user v now (Change.awaits_input s) rows apart c =
    update_owned_other user v s _ rows apart (λ r. refl)
apply_isolated user v now (Change.waits_locally s) rows apart c =
    update_owned_other user v s _ rows apart (λ r. refl)
apply_isolated user v now (Change.seals_meta s _ _) rows apart c =
    update_owned_other user v s _ rows apart (λ r. refl)
apply_isolated user v now (Change.seals_title s _ _) rows apart c =
    update_owned_other user v s _ rows apart (λ r. refl)
apply_isolated user v now (Change.archives s archived) rows apart c =
    set_archived_other user v s archived now rows apart
apply_isolated user v now (Change.deletes s) rows apart c =
    delete_session_other user v s rows apart c
apply_isolated user v now (Change.ends s status) rows apart c =
    update_owned_other user v s _ rows apart (λ r. refl)
apply_isolated user v now (Change.ends_device d) rows apart c =
    update_other user v (live_on user d) _ rows apart (λ r e. ground arith) (λ r. refl)
apply_isolated user v now (Change.creates id s) rows apart c =
    filter-append (λ r. r.user_id == v) rows _
    ∙ (let e : (user == v) ≡ false = ground (arith, apart, eq_iff user v) in rw e (append-nil _))

-- A parent that is not the user's own row is dropped: creating a session with the id of another
-- user's session gives the same table as creating it with an id that does not exist, or with none.
create_session_foreign :
    (id : String) (now : ℕ) (s : NewSession) (parent : String) (rows : Table)
    → any (owned s.user_id parent) rows ≡ false
    → create_session id now (record s { parent_session_id = some parent }) rows
      ≡ create_session id now (record s { parent_session_id = none }) rows
unfolding create_session verified_parent_id
create_session_foreign id now s parent rows foreign = rw foreign
