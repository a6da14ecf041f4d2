-- ===== src/Sessions/Outcomes.antt =====
-- What the guarded writes of the registry answer, and what they leave.
use telecode.Base.{
  ℕ, String, Bool, true, false, not, ◌≡◌, ◌≢◌, ◌↔◌, refl, ◌∙◌, ap, subst, ◌⊎◌, [], ◌∷◌, map, arith,
  any, filter, In, All, string_eq, eq_iff, Bool-cases, inl, inr, Option, none, some,
}
use telecode.Base.Pointwise.{Pointwise}
use telecode.Protocol.Status.{SessionStatus}
use telecode.Sessions.{
  Row, Table, SessionMutationOutcome, ok, not_found, not_ended, owned, owned_ended, update_where,
  set_archived, delete_session, end_sessions_for_device, live_on, orphaned, ended_row, unlink,
  shelved,
}
use telecode.Sessions.Terminal.{
  IsOf, IsOver, IsUnended, HasRow, owned_iff, owned_ended_iff, live_on_iff, any_iff, none_iff,
}
use telecode.Sessions.Revocation.{IsRevoked, each-IsRevoked, reported, none_live, ended_nothing}
use telecode.Sessions.Rows.{any-update_where, any_mono, any-map, any-filter-false}
use telecode.Sessions.Consistent.{IsConsistent, HasUniqueIds, has_id}

-- The answer of a guarded write by the code's guards, and the table after it.
record IsAnswered (user session : String) (rows after : Table) (outcome : SessionMutationOutcome)
    : Type 0 where
  landed : (outcome ≡ ok) ↔ (any (owned_ended user session) rows ≡ true)
  missing : (outcome ≡ not_found) ↔ (any (owned user session) rows ≡ false)
  live :
      (outcome ≡ not_ended)
      ↔ ((any (owned user session) rows ≡ true) × (any (owned_ended user session) rows ≡ false))
  refused : (outcome ≡ ok) ⊎ (after ≡ rows)

-- The answer of a guarded write by the sessions that there are, and the table after it.
pub record IsHonest (user session : String) (rows after : Table) (outcome : SessionMutationOutcome)
    : Type 0 where
  pub landed : (outcome ≡ ok) ↔ HasRow (IsOver user session) rows
  pub missing : (outcome ≡ not_found) ↔ (¬ HasRow (IsOf user session) rows)
  pub live :
      (outcome ≡ not_ended)
      ↔ (HasRow (IsOf user session) rows × ¬ HasRow (IsOver user session) rows)
  pub refused : (outcome ≡ ok) ⊎ (after ≡ rows)

IsAnswered-IsHonest :
    {user session : String} {rows after : Table} {outcome : SessionMutationOutcome}
    → IsAnswered user session rows after outcome
    → IsHonest user session rows after outcome
IsAnswered-IsHonest {user = user} {session = session} {rows = rows} a =
    let mine = any_iff (owned user session) (IsOf user session) (owned_iff user session) rows in
    let none_mine =
      none_iff (owned user session) (IsOf user session) (owned_iff user session) rows in
    let over =
      any_iff (owned_ended user session) (IsOver user session) (owned_ended_iff user session)
        rows in
    let none_over =
      none_iff (owned_ended user session) (IsOver user session) (owned_ended_iff user session)
        rows in
    record {
      landed = (λ o. over.0 (a.landed.0 o), λ h. a.landed.1 (over.1 h));
      missing = (λ o. none_mine.0 (a.missing.0 o), λ h. a.missing.1 (none_mine.1 h));
      live = (
        λ o. let (m, n) = a.live.0 o in (mine.0 m, none_over.0 n),
        λ h. a.live.1 (mine.1 h.0, none_over.1 h.1),
      );
      refused = a.refused;
    }

owned_of_ended :
    (user session : String) (rows : Table)
    → any (owned_ended user session) rows ≡ true
    → any (owned user session) rows ≡ true
owned_of_ended user session =
    any_mono (owned_ended user session) (owned user session) (λ r h. ground arith)

set_archived-IsAnswered :
    (user session : String) (archived : Bool) (now : ℕ) (rows : Table)
    → let (after, outcome) = set_archived user session archived now rows in
      IsAnswered user session rows after outcome
unfolding set_archived
set_archived-IsAnswered user session archived now rows =
    ground (arith, owned_of_ended user session rows)

delete_session-IsAnswered :
    (user session : String) (rows : Table)
    → let (after, outcome) = delete_session user session rows in
      IsAnswered user session rows after outcome
unfolding delete_session
delete_session-IsAnswered user session rows = ground (arith, owned_of_ended user session rows)

-- Archiving and deleting answer alike: `ok` exactly when the table has a row of the user with the
-- session's id whose status is `done`, `error`, `turn_limit` or `needs_restart`; `not_found` exactly
-- when it has no row of the user with that id; `not_ended` exactly when it has one and none in such a
-- status; and whatever is not `ok` leaves the table unchanged.
pub housekeeping-IsHonest :
    (user session : String) (archived : Bool) (now : ℕ) (rows : Table)
    → let (shelf, shelving) = set_archived user session archived now rows in
      let (rest, deletion) = delete_session user session rows in
      IsHonest user session rows shelf shelving × IsHonest user session rows rest deletion
housekeeping-IsHonest user session archived now rows = (
  IsAnswered-IsHonest (set_archived-IsAnswered user session archived now rows),
  IsAnswered-IsHonest (delete_session-IsAnswered user session rows),
)

-- With unique ids the guarded filter leaves no row with the session's id.
deleted_gone :
    (user session : String) (rows : Table)
    → HasUniqueIds rows
    → any (owned_ended user session) rows ≡ true
    → any (has_id session) (filter (λ r. not (owned_ended user session r)) rows) ≡ false
deleted_gone user session [] unique found = refl
deleted_gone user session (r ∷ rows) unique found = elim (Bool-cases (owned_ended user session r)) [
  | inl here ↦ rw here (
      any-filter-false (has_id session) _ rows (
        subst (λ x. any (has_id x) rows ≡ false) ((eq_iff r.id session).0 (ground arith)) unique.0))
  | inr later ↦ ground (
    arith,
    later,
    deleted_gone user session rows unique.1,
    ap (λ x. any (has_id x) rows) {x = r.id} {y = session},
    eq_iff r.id session,
    any_mono (owned_ended user session) (has_id session) (λ x h. ground arith) rows,
  )
]

-- After a deletion that answers `ok` no row has the session's id, and no row has it as its parent.
delete_session-gone :
    (user session : String) (rows : Table)
    → IsConsistent rows
    → (delete_session user session rows).1 ≡ ok
    → (any (has_id session) (delete_session user session rows).0 ≡ false)
      × All (λ r. r.parent_session_id ≢ some session) (delete_session user session rows).0
unfolding delete_session
delete_session-gone user session rows c h =
    elim (Bool-cases (any (owned_ended user session) rows)) [
      | inl found ↦ rw found (
        any-map (has_id session) (orphaned session) _
            ∙ deleted_gone user session rows c.unique found,
        orphans (filter (λ r. not (owned_ended user session r)) rows),
      )
      | inr missed ↦ cc ((delete_session-IsAnswered user session rows).landed.0 h)
    ]
  where
    unlinked : (o : Option String) → unlink session o ≢ some session
    unlinked none = cc
    unlinked (some p) = ground (arith, eq_iff p session)

    orphans :
        (xs : Table) → All (λ r. r.parent_session_id ≢ some session) (map (orphaned session) xs)
    orphans [] = tt
    orphans (x ∷ xs) = (unlinked x.parent_session_id, orphans xs)

shelve_twice :
    (user session : String) (a b : Option ℕ) (rows : Table)
    → update_where
        (owned_ended user session)
        (shelved b)
        (update_where (owned_ended user session) (shelved a) rows)
      ≡ update_where (owned_ended user session) (shelved b) rows
shelve_twice user session a b [] = refl
shelve_twice user session a b (r ∷ rows) = ground (arith, shelve_twice user session a b rows)

abbrev pub recency : Row → String × ℕ
recency r = (r.id, r.updated_at)

-- Shelving is not activity: it changes no row's recency, and restoring a session after shelving it
-- gives what restoring it at once gives.
set_archived-restores :
    (user session : String) (at later : ℕ) (rows : Table)
    → (map recency (set_archived user session true at rows).0 ≡ map recency rows)
      × ((set_archived user session false later (set_archived user session true at rows).0).0
          ≡ (set_archived user session false later rows).0)
unfolding set_archived
set_archived-restores user session at later rows =
    elim (Bool-cases (any (owned_ended user session) rows)) [
      | inl found ↦
          let same =
            any-update_where (owned_ended user session) (owned_ended user session)
              (shelved (some at)) rows (λ r. refl) in
          rw found (kept rows, rw (same, found) (shelve_twice user session (some at) none rows))
      | inr missed ↦ rw missed (refl, rw missed)
    ]
  where
    kept :
        (xs : Table)
        → map recency (update_where (owned_ended user session) (shelved (some at)) xs)
          ≡ map recency xs
    kept [] = refl
    kept (x ∷ xs) = ground (arith, kept xs)

-- Revoking a device ends all that could still run on it: each row of the user on the device whose
-- status is not `done`, `error`, `turn_limit` or `needs_restart` becomes `done`, ended and updated at
-- that time, and every other row stays as it is, so that the user has no row on the device in another
-- status; the ids that are told are exactly those of the rows that were ended; and ending again
-- changes nothing and tells nothing.
pub end_sessions_for_device_complete :
    (user device : String) (now later : ℕ) (rows : Table) (session : String)
    → let (after, ids) = end_sessions_for_device user device now rows in
      Pointwise (IsRevoked user device now) rows after
      × (¬ HasRow (IsUnended user device) after)
      × (In session ids ↔ HasRow (λ r. IsUnended user device r × (r.id ≡ session)) rows)
      × (end_sessions_for_device user device later after ≡ (after, []))
unfolding end_sessions_for_device
end_sessions_for_device_complete user device now later rows session =
    let quiet = none_live user device now rows in
    let after = update_where (live_on user device) (ended_row SessionStatus.done now) rows in
    let again =
      ended_nothing (live_on user device) (ended_row SessionStatus.done later) after quiet in
    (
      each-IsRevoked user device now rows,
      (none_iff (live_on user device) (IsUnended user device) (live_on_iff user device) after).0
          quiet,
      reported user device session rows,
      rw (again.0, again.1) refl,
    )
