-- ===== src/Sessions/Invariant.antt =====
-- What every row of the sessions table satisfies, whatever the registry is asked to do.
use telecode.Base.{
  ℕ, String, Bool, true, false, not, ◌||◌, ◌≡◌, refl, ◌∙◌, ap, [], ◌∷◌, ◌++◌, map, arith, any,
  filter, All-imp, All-append, All-filter, ◌==◌, string_eq, eq_iff, Bool-cases, inl, inr, Option,
  none, some, is_some,
}
use telecode.Protocol.Status.{is_session_end_status}
use telecode.Sessions.{
  Row, Table, NewSession, owned, owned_ended, create_session, set_archived, delete_session, unlink,
  verified_parent_id, live_on, orphaned,
}
use telecode.Protocol.Status.{EndStatus, end_status}
use telecode.Sessions.Mutation.{Change, apply}
use telecode.Sessions.Rows.{
  any-append, any-map, any-congr, All-map, any-filter-false, any-filter_kept,
}
use telecode.Sessions.Consistent.{
  has_parent_in, HasParent, has_id, HasUniqueIds, IsShelvedEnded, IsConsistent,
  update_where-IsConsistent,
}

-- A new row has an id that no row has; the other calls need nothing.
abbrev pub IsFresh : Change → Table → Type 0
IsFresh (Change.creates id s) rows = any (has_id id) rows ≡ false
IsFresh _ rows = Unit

delete-HasUniqueIds :
    (q : Row → Bool) (f : Row → Row) (rows : Table)
    → ((r : Row) → (f r).id ≡ r.id)
    → HasUniqueIds rows
    → HasUniqueIds (map f (filter q rows))
delete-HasUniqueIds q f [] same u = tt
delete-HasUniqueIds q f (r ∷ rows) same u = elim (Bool-cases (q r)) [
  | inl e ↦ rw e (
    rw (same r) (
        any-map (has_id r.id) f _
        ∙ (any-congr _ _ (λ x. ap (λ y. y == r.id) (same x)) (filter q rows)
            ∙ any-filter-false _ q rows u.0)),
    delete-HasUniqueIds q f rows same u.1,
  )
  | inr e ↦ rw e (delete-HasUniqueIds q f rows same u.1)
]

orphaned-HasParent :
    (user session : String) (rows : Table) (r : Row)
    → HasParent rows r
    → HasParent
        (map (orphaned session) (filter (λ x. not (owned_ended user session x)) rows))
        (orphaned session r)
orphaned-HasParent user session rows r h = go r.parent_session_id h
  where
    kept :
        (u s : String)
        → (s == session) ≡ false
        → any
            (owned u s)
            (map (orphaned session) (filter (λ x. not (owned_ended user session x)) rows))
          ≡ any (owned u s) rows
    kept u s other =
        any-map (owned u s) (orphaned session) _
        ∙ any-filter_kept (owned u s) (λ x. not (owned_ended user session x))
            (λ x e. ground (arith, eq_iff x.id s, eq_iff x.id session, eq_iff s session)) rows

    go :
        (o : Option String)
        → has_parent_in rows r.user_id o ≡ true
        → has_parent_in
            (map (orphaned session) (filter (λ x. not (owned_ended user session x)) rows))
            r.user_id
            (unlink session o)
          ≡ true
    go none e = refl
    go (some s) e = elim (Bool-cases (s == session)) [
      | inl same ↦ rw same
      | inr other ↦ rw (other) (kept r.user_id s other ∙ e)
    ]

delete_session-IsConsistent :
    (user session : String) (rows : Table)
    → IsConsistent rows
    → IsConsistent (delete_session user session rows).0
unfolding delete_session
delete_session-IsConsistent user session rows c =
    elim (Bool-cases (any (owned_ended user session) rows)) [
      | inl found ↦ rw found (record {
        shelved =
            All-map IsShelvedEnded IsShelvedEnded (orphaned session) _ (λ r h. h)
              (All-filter _ _ rows c.shelved);
        linked =
            All-map (HasParent rows) _ (orphaned session) _ (orphaned-HasParent user session rows)
              (All-filter _ _ rows c.linked);
        unique = delete-HasUniqueIds _ (orphaned session) rows (λ r. refl) c.unique;
      })
      | inr missed ↦ rw missed c
    ]

set_archived-IsConsistent :
    (user session : String) (archived : Bool) (now : ℕ) (rows : Table)
    → IsConsistent rows
    → IsConsistent (set_archived user session archived now rows).0
unfolding set_archived
set_archived-IsConsistent user session archived now rows c =
    elim (Bool-cases (any (owned_ended user session) rows)) [
      | inl found ↦ rw found (
          update_where-IsConsistent (owned_ended user session) _ rows (λ r. refl) (λ r. refl)
            (λ r. refl) (λ r h e. ground arith) c)
      | inr missed ↦ rw missed c
    ]

-- Appending one row with a fresh id.
append-HasUniqueIds :
    (rows : Table) (r : Row)
    → HasUniqueIds rows
    → any (has_id r.id) rows ≡ false
    → HasUniqueIds (rows ++ r ∷ [])
append-HasUniqueIds [] r u fresh = (refl, tt)
append-HasUniqueIds (x ∷ rows) r u fresh = (
  ground (arith, any-append (has_id x.id) rows (r ∷ []), eq_iff x.id r.id, eq_iff r.id x.id),
  append-HasUniqueIds rows r u.1 (ground arith),
)

create_session-IsConsistent :
    (id : String) (now : ℕ) (s : NewSession) (rows : Table)
    → any (has_id id) rows ≡ false
    → IsConsistent rows
    → IsConsistent (create_session id now s rows)
unfolding create_session verified_parent_id
create_session-IsConsistent id now s rows fresh c = record {
  shelved = All-append IsShelvedEnded rows _ c.shelved (refl, tt);
  linked =
      All-append _ rows _ (All-imp (λ r h. longer r.user_id r.parent_session_id h) rows c.linked)
        (linked_child s.parent_session_id, tt);
  unique = append-HasUniqueIds rows _ c.unique fresh;
}
  where
    child : Table
    child = create_session id now s rows

    longer :
        (u : String) (o : Option String)
        → has_parent_in rows u o ≡ true
        → has_parent_in child u o ≡ true
    longer u none h = refl
    longer u (some p) h = any-append (owned u p) rows _ ∙ rw h

    linked_child :
        (o : Option String)
        → has_parent_in child s.user_id (verified_parent_id rows s.user_id o) ≡ true
    linked_child none = refl
    linked_child (some p) = elim (Bool-cases (any (owned s.user_id p) rows)) [
      | inl e ↦ rw (e, verified_parent_id) (longer s.user_id (some p) e)
      | inr e ↦ rw (e, verified_parent_id)
    ]

-- Every call of the registry keeps the table consistent: an archived row is terminal, a parent link
-- names a row of the same user, and ids are unique, if a created row has a fresh id.
pub apply-IsConsistent :
    (user : String) (now : ℕ) (c : Change) (rows : Table)
    → IsFresh c rows
    → IsConsistent rows
    → IsConsistent (apply user now c rows)
unfolding apply
apply-IsConsistent user now (Change.runs session) rows fresh v =
    update_where-IsConsistent (owned user session) _ rows (λ r. refl) (λ r. refl) (λ r. refl)
      (λ r h e. refl) v
apply-IsConsistent user now (Change.awaits_input session) rows fresh v =
    update_where-IsConsistent (owned user session) _ rows (λ r. refl) (λ r. refl) (λ r. refl)
      (λ r h e. refl) v
apply-IsConsistent user now (Change.waits_locally session) rows fresh v =
    update_where-IsConsistent (owned user session) _ rows (λ r. refl) (λ r. refl) (λ r. refl)
      (λ r h e. refl) v
apply-IsConsistent user now (Change.seals_meta session blob nonce) rows fresh v =
    update_where-IsConsistent (owned user session) _ rows (λ r. refl) (λ r. refl) (λ r. refl)
      (λ r h e. h) v
apply-IsConsistent user now (Change.seals_title session _ _) rows fresh v =
    update_where-IsConsistent (owned user session) _ rows (λ r. refl) (λ r. refl) (λ r. refl)
      (λ r h e. h) v
apply-IsConsistent user now (Change.archives session archived) rows fresh v =
    set_archived-IsConsistent user session archived now rows v
apply-IsConsistent user now (Change.deletes session) rows fresh v =
    delete_session-IsConsistent user session rows v
apply-IsConsistent user now (Change.ends session status) rows fresh v =
    update_where-IsConsistent (owned user session) _ rows (λ r. refl) (λ r. refl) (λ r. refl)
      (λ r h e. ended status r) v
  where
    ended :
        (s : EndStatus) (r : Row)
        → (not (is_some r.archived_at) || is_session_end_status (end_status s)) ≡ true
    ended s r = ground arith
apply-IsConsistent user now (Change.ends_device device) rows fresh v =
    update_where-IsConsistent (live_on user device) _ rows (λ r. refl) (λ r. refl) (λ r. refl)
      (λ r h e. ground arith) v
apply-IsConsistent user now (Change.creates id s) rows fresh v =
    create_session-IsConsistent id now (record s { user_id = user }) rows fresh v
