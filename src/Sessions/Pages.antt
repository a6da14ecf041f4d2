-- ===== src/Sessions/Pages.antt =====
-- apps/relay/src/registry/session-registry.ts: the reads that sort, and the keyset pages.
use telecode.Base.{
  ℕ, ◌+◌, String, Bool, true, false, not, ◌&&◌, ◌||◌, Option, none, some, List, [], ◌∷◌, ◌++◌,
  if◌then◌else◌, ltb, is_some, filter, take, last, length, ◌==◌, string_eq, nat_eq,
}
use telecode.Protocol.Status.{is_session_end_status}
use telecode.Sessions.{Row, Table}

pub record SessionPageCursor : Type 0 where
  pub updated_at : ℕ
  pub id : String

pub record SessionPage : Type 0 where
  pub sessions : List Row
  pub next_cursor : Option SessionPageCursor

-- How the database orders `uuid` values is a parameter of the reads that sort.
module _ (uuid_value : String → ℕ) where
  -- `order by updated_at desc, id desc`.
  abbrev pub newer : Row → Row → Bool
  newer a b =
      ltb b.updated_at a.updated_at
      || (a.updated_at == b.updated_at && ltb (uuid_value b.id) (uuid_value a.id))

  unfoldable pub insert_newest : Row → List Row → List Row
  insert_newest r [] = r ∷ []
  insert_newest r (s ∷ rows) = if newer s r then s ∷ insert_newest r rows else r ∷ s ∷ rows

  unfoldable pub newest_first : List Row → List Row
  unfolding insert_newest
  newest_first [] = []
  newest_first (r ∷ rows) = insert_newest r (newest_first rows)

  unfoldable pub list_by_user : String → Table → List Row
  unfolding newest_first
  list_by_user user rows = newest_first (filter (λ r. r.user_id == user) rows)

  abbrev pub paged_scope : Bool → Row → Bool
  paged_scope true r = is_some r.archived_at && is_session_end_status r.status
  paged_scope false r = is_session_end_status r.status && not (is_some r.archived_at)

  -- Strictly after where the previous page stopped.
  abbrev pub after_cursor : Option SessionPageCursor → Row → Bool
  after_cursor none r = true
  after_cursor (some c) r =
      ltb r.updated_at c.updated_at
      || (r.updated_at == c.updated_at && ltb (uuid_value r.id) (uuid_value c.id))

  abbrev pub cursor_of : Option Row → Option SessionPageCursor
  cursor_of none = none
  cursor_of (some r) = some (record { updated_at = r.updated_at; id = r.id })

  abbrev pub in_page : String → Bool → Option SessionPageCursor → Row → Bool
  in_page user archived cursor r =
      r.user_id == user && paged_scope archived r && after_cursor cursor r

  unfoldable pub list_page : String → ℕ → Option SessionPageCursor → Bool → Table → SessionPage
  unfolding newest_first
  list_page user ended_limit cursor archived rows =
      let paged =
        take (ended_limit + 1) (newest_first (filter (in_page user archived cursor) rows)) in
      let has_more = ltb ended_limit (length paged) in
      let page = if has_more then take ended_limit paged else paged in
      let active =
        if archived || is_some cursor
        then []
        else newest_first
            (filter (λ r. r.user_id == user && not (is_session_end_status r.status)) rows) in
      record {
        sessions = active ++ page;
        next_cursor = if has_more then cursor_of (last page) else none;
      }
