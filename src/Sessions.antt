-- ===== src/Sessions.antt =====
-- apps/relay/src/registry/session-registry.ts over the `sessions` table of apps/relay/src/db/schema.ts.
-- A table is the list of its rows. Times and the ids of new rows are arguments; a statement that runs
-- in `withUserContext` sees and changes the rows of its user alone, which the `where` clauses repeat.
pub mod Terminal
pub mod Revocation
pub mod Pages
pub mod Mutation
pub mod Invariant
pub mod Tenancy
pub mod Outcomes
pub mod Ordering
pub mod Paging
mod Tests
mod Rows
pub mod Consistent
use telecode.Base.{
  ℕ, ◌+◌, String, Bool, true, false, not, ◌&&◌, ◌||◌, Option, none, some, List, [], ◌∷◌, ◌++◌, map,
  if◌then◌else◌, ltb, is_some, or_else, filter, find, any, take, last, length, ◌==◌, string_eq,
  nat_eq,
}
use telecode.Base.Dict.{get, set}
use telecode.Protocol.Status.{
  SessionStatus, starting, running, awaiting_input, done, waiting_local, offline_paused,
  SessionOrigin, launched, external, is_session_end_status,
}

pub record Row : Type 0 where
  pub id : String
  pub user_id : String
  pub device_id : String
  pub title : Option String
  pub status : SessionStatus
  pub origin : SessionOrigin
  pub parent_session_id : Option String
  pub cwd : Option String
  pub sealed_meta : Option String
  pub sealed_meta_nonce : Option String
  pub sealed_title : Option String
  pub sealed_title_nonce : Option String
  pub archived_at : Option ℕ
  pub created_at : ℕ
  pub updated_at : ℕ
  pub ended_at : Option ℕ

abbrev pub Table : Type 0
Table = List Row

pub data SessionMutationOutcome : Type 0 where
  ok not_found not_ended : SessionMutationOutcome

-- `eq(sessions.id, sessionId) and eq(sessions.userId, userId)`.
abbrev pub owned : String → String → Row → Bool
owned user session r = r.id == session && r.user_id == user

-- `update … set … where …`.
abbrev pub update_where : (Row → Bool) → (Row → Row) → Table → Table
update_where p f rows = map (λ r. if p r then f r else r) rows

abbrev pub is_live_status : SessionStatus → Bool
is_live_status starting = true
is_live_status running = true
is_live_status awaiting_input = true
is_live_status waiting_local = true
is_live_status offline_paused = true
is_live_status _ = false

pub record NewSession : Type 0 where
  pub user_id : String
  pub device_id : String
  pub origin : Option SessionOrigin
  pub title : Option String
  pub cwd : Option String
  pub parent_session_id : Option String

abbrev initial_status : SessionOrigin → SessionStatus
initial_status external = running
initial_status launched = starting

-- The parent link lands only when the parent is the user's own row.
verified_parent_id : Table → String → Option String → Option String
verified_parent_id rows user none = none
verified_parent_id rows user (some parent) =
    if any (owned user parent) rows then some parent else none

unfoldable pub create_session : String → ℕ → NewSession → Table → Table
unfolding verified_parent_id
create_session id now s rows =
    let origin = or_else s.origin launched in
    rows
    ++ record {
      id = id;
      user_id = s.user_id;
      device_id = s.device_id;
      title = s.title;
      status = initial_status origin;
      origin = origin;
      parent_session_id = verified_parent_id rows s.user_id s.parent_session_id;
      cwd = s.cwd;
      sealed_meta = none;
      sealed_meta_nonce = none;
      sealed_title = none;
      sealed_title_nonce = none;
      archived_at = none;
      created_at = now;
      updated_at = now;
      ended_at = none;
    }
      ∷ []

-- A session that comes back to life leaves the shelf.
abbrev revived : SessionStatus → ℕ → Row → Row
revived status now r = record r { status = status; archived_at = none; updated_at = now }

set_status : String → String → SessionStatus → ℕ → Table → Table
set_status user session status now rows =
    update_where (owned user session) (revived status now) rows

unfoldable pub mark_running : String → String → ℕ → Table → Table
unfolding set_status
mark_running user session now rows = set_status user session running now rows

unfoldable pub mark_awaiting_input : String → String → ℕ → Table → Table
unfolding set_status
mark_awaiting_input user session now rows = set_status user session awaiting_input now rows

unfoldable pub mark_waiting_local : String → String → ℕ → Table → Table
unfolding set_status
mark_waiting_local user session now rows = set_status user session waiting_local now rows

abbrev with_meta : String → String → ℕ → Row → Row
with_meta blob nonce now r = record r {
  sealed_meta = some blob;
  sealed_meta_nonce = some nonce;
  updated_at = now;
}

unfoldable pub set_sealed_meta : String → String → String → String → ℕ → Table → Table
set_sealed_meta user session blob nonce now rows =
    update_where (owned user session) (with_meta blob nonce now) rows

abbrev with_title : Option String → Option String → ℕ → Row → Row
with_title blob nonce now r = record r {
  sealed_title = blob;
  sealed_title_nonce = nonce;
  updated_at = now;
}

-- The device of the updated row, or `null` when no row is the user's.
unfoldable pub set_sealed_title :
    String → String → Option String → Option String → ℕ → Table → Table × Option String
set_sealed_title user session blob nonce now rows = (
  update_where (owned user session) (with_title blob nonce now) rows,
  elim (find (owned user session) rows) [ none ↦ none | some r ↦ some r.device_id ],
)

-- The guard of the two terminal-only mutations.
abbrev pub owned_ended : String → String → Row → Bool
owned_ended user session r = owned user session r && is_session_end_status r.status

unfoldable pub resolve_miss_outcome : String → String → Table → SessionMutationOutcome
resolve_miss_outcome user session rows =
    if any (owned user session) rows then not_ended else not_found

abbrev shelved : Option ℕ → Row → Row
shelved at r = record r { archived_at = at }

unfoldable pub set_archived : String → String → Bool → ℕ → Table → Table × SessionMutationOutcome
unfolding resolve_miss_outcome
set_archived user session archived now rows =
    if any (owned_ended user session) rows
    then (
      update_where (owned_ended user session) (shelved (if archived then some now else none)) rows,
      ok,
    )
    else (rows, resolve_miss_outcome user session rows)

-- `on delete set null` of the self-reference.
abbrev unlink : String → Option String → Option String
unlink session none = none
unlink session (some parent) = if parent == session then none else some parent

abbrev orphaned : String → Row → Row
orphaned session r = record r { parent_session_id = unlink session r.parent_session_id }

unfoldable pub delete_session : String → String → Table → Table × SessionMutationOutcome
unfolding resolve_miss_outcome
delete_session user session rows =
    if any (owned_ended user session) rows
    then (map (orphaned session) (filter (λ r. not (owned_ended user session r)) rows), ok)
    else (rows, resolve_miss_outcome user session rows)

abbrev pub ended_row : SessionStatus → ℕ → Row → Row
ended_row status now r = record r { status = status; ended_at = some now; updated_at = now }

-- `status` is one of the end statuses; the callers pass no other.
unfoldable pub mark_ended : String → String → SessionStatus → ℕ → Table → Table
mark_ended user session status now rows =
    update_where (owned user session) (ended_row status now) rows

abbrev pub live_on : String → String → Row → Bool
live_on user device r = r.user_id == user && r.device_id == device && is_live_status r.status

unfoldable pub end_sessions_for_device : String → String → ℕ → Table → Table × List String
end_sessions_for_device user device now rows = (
  update_where (live_on user device) (ended_row done now) rows,
  map (λ r. r.id) (filter (live_on user device) rows),
)

-- `group by device_id` with `count()`, in the order of first appearance.
count_into : List Row → List (String × ℕ) → List (String × ℕ)
unfolding get set
count_into [] counts = counts
count_into (r ∷ rows) counts =
    count_into rows (set r.device_id (or_else (get r.device_id counts) 0 + 1) counts)

unfoldable pub count_by_device : String → Table → List (String × ℕ)
unfolding count_into
count_by_device user rows = count_into (filter (λ r. r.user_id == user) rows) []
