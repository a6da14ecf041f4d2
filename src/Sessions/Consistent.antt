-- ===== src/Sessions/Consistent.antt =====
-- The consistency of a sessions table: shelved rows, parent links and ids.
use telecode.Base.{
  String, Bool, true, false, not, ◌||◌, ◌≡◌, refl, sym, ap, [], ◌∷◌, arith, any, All, All-imp, ◌==◌,
  string_eq, Option, none, some, is_some,
}
use telecode.Protocol.Status.{is_session_end_status}
use telecode.Sessions.{Row, Table, owned, update_where}
use telecode.Sessions.Rows.{any-update_where, All-update_where}

-- The CHECK of migration 0011: archived implies terminal.
abbrev pub IsShelvedEnded : Row → Type 0
IsShelvedEnded r = (not (is_some r.archived_at) || is_session_end_status r.status) ≡ true

-- A parent link names a row of the same user.
abbrev pub has_parent_in : Table → String → Option String → Bool
has_parent_in rows user none = true
has_parent_in rows user (some parent) = any (owned user parent) rows

abbrev pub HasParent : Table → Row → Type 0
HasParent rows r = has_parent_in rows r.user_id r.parent_session_id ≡ true

-- The primary key.
abbrev pub has_id : String → Row → Bool
has_id id r = r.id == id

abbrev pub HasUniqueIds : Table → Type 0
HasUniqueIds [] = Unit
HasUniqueIds (r ∷ rows) = (any (has_id r.id) rows ≡ false) × HasUniqueIds rows

pub record IsConsistent (rows : Table) : Type 0 where
  pub shelved : All IsShelvedEnded rows
  pub linked : All (HasParent rows) rows
  pub unique : HasUniqueIds rows

any_id-update_where :
    (id : String) (p : Row → Bool) (f : Row → Row) (rows : Table)
    → ((r : Row) → (f r).id ≡ r.id)
    → any (has_id id) (update_where p f rows) ≡ any (has_id id) rows
any_id-update_where id p f rows same =
    any-update_where (has_id id) p f rows (λ r. ap (λ x. x == id) (same r))

update_where-HasUniqueIds :
    (p : Row → Bool) (f : Row → Row) (rows : Table)
    → ((r : Row) → (f r).id ≡ r.id)
    → HasUniqueIds rows
    → HasUniqueIds (update_where p f rows)
update_where-HasUniqueIds p f [] same u = tt
update_where-HasUniqueIds p f (r ∷ rows) same u = (
  ground (arith, same r, any_id-update_where r.id p f rows same, u.0),
  update_where-HasUniqueIds p f rows same u.1,
)

-- An update that keeps the keys of its rows and the parent links keeps the table consistent, if the
-- rows that it writes are terminal or off the shelf.
pub update_where-IsConsistent :
    (p : Row → Bool) (f : Row → Row) (rows : Table)
    → ((r : Row) → (f r).id ≡ r.id)
    → ((r : Row) → (f r).user_id ≡ r.user_id)
    → ((r : Row) → (f r).parent_session_id ≡ r.parent_session_id)
    → ((r : Row) → IsShelvedEnded r → p r ≡ true → IsShelvedEnded (f r))
    → IsConsistent rows
    → IsConsistent (update_where p f rows)
update_where-IsConsistent p f rows id user parent ends c = record {
  shelved = All-update_where IsShelvedEnded p f rows ends c.shelved;
  linked =
      All-imp (λ r h. moved r h) _
        (All-update_where (HasParent rows) p f rows (λ r h _. rw (user r, parent r) h) c.linked);
  unique = update_where-HasUniqueIds p f rows id c.unique;
}
  where
    same : (u s : String) → any (owned u s) (update_where p f rows) ≡ any (owned u s) rows
    same u s = any-update_where (owned u s) p f rows (λ r. ground (arith, id r, user r))

    same_parent :
        (u : String) (o : Option String)
        → has_parent_in rows u o ≡ has_parent_in (update_where p f rows) u o
    same_parent u none = refl
    same_parent u (some s) = sym (same u s)

    moved : (r : Row) → HasParent rows r → HasParent (update_where p f rows) r
    moved r h = rw (← same_parent r.user_id r.parent_session_id) h
