-- ===== src/Devices.antt =====
-- apps/relay/src/registry/device-registry.ts over the `devices` table of apps/relay/src/db/schema.ts.
-- A table is the list of its rows; times and the ids of new rows are arguments.
pub mod Laws
pub mod Access
mod Tests
use telecode.Base.{
  ℕ, String, Bool, true, false, not, ◌&&◌, Option, none, some, List, [], ◌∷◌, ◌++◌, map, max,
  if◌then◌else◌, is_some, or_else, filter, find, any, leb, ltb, ◌==◌, string_eq,
}

pub record Device : Type 0 where
  pub id : String
  pub user_id : String
  pub name : String
  pub public_key : Option String
  pub os : Option String
  pub device_token_hash : String
  pub last_seen_at : Option ℕ
  pub revoked_at : Option ℕ
  pub created_at : ℕ

abbrev pub Table : Type 0
Table = List Device

pub record Descriptors : Type 0 where
  pub name : Option String
  pub public_key : Option String
  pub os : Option String

unfoldable pub create_device : String → ℕ → String → String → String → Descriptors → Table → Table
create_device id now user name token_hash d devices =
    devices
    ++ record {
      id = id;
      user_id = user;
      name = name;
      public_key = d.public_key;
      os = d.os;
      device_token_hash = token_hash;
      last_seen_at = none;
      revoked_at = none;
      created_at = now;
    }
      ∷ []

abbrev pub is_active_with : String → Device → Bool
is_active_with token_hash d = d.device_token_hash == token_hash && not (is_some d.revoked_at)

abbrev pub is_revoked_with : String → Device → Bool
is_revoked_with token_hash d = d.device_token_hash == token_hash && is_some d.revoked_at

unfoldable pub find_active_by_token_hash : String → Table → Option Device
find_active_by_token_hash token_hash devices = find (is_active_with token_hash) devices

unfoldable pub find_revoked_by_token_hash : String → Table → Option Device
find_revoked_by_token_hash token_hash devices = find (is_revoked_with token_hash) devices

abbrev pub update_where : (Device → Bool) → (Device → Device) → Table → Table
update_where p f devices = map (λ d. if p d then f d else d) devices

abbrev pub seen : ℕ → Device → Device
seen now d = record d { last_seen_at = some (max (or_else d.last_seen_at 0) now) }

-- Monotonic: `greatest(coalesce(last_seen_at, to_timestamp(0)), now)`.
unfoldable pub touch_last_seen : String → ℕ → Table → Table
touch_last_seen device now devices = update_where (λ d. d.id == device) (seen now) devices

abbrev pub owned_active : String → String → Device → Bool
owned_active user device d = d.id == device && d.user_id == user && not (is_some d.revoked_at)

abbrev pub owned_revoked : String → String → Device → Bool
owned_revoked user device d = d.id == device && d.user_id == user && is_some d.revoked_at

-- `order by … desc` on a time, an absent time first.
pub insert_latest : (Device → ℕ) → Device → Table → Table
insert_latest at d [] = d ∷ []
insert_latest at d (x ∷ devices) =
    if ltb (at d) (at x) then x ∷ insert_latest at d devices else d ∷ x ∷ devices

pub latest_first : (Device → ℕ) → Table → Table
unfolding insert_latest
latest_first at [] = []
latest_first at (d ∷ devices) = insert_latest at d (latest_first at devices)

unfoldable pub find_active_by_user : String → Table → Table
unfolding latest_first
find_active_by_user user devices =
    latest_first (λ d. d.created_at)
      (filter (λ d. d.user_id == user && not (is_some d.revoked_at)) devices)

unfoldable pub find_revoked_by_user : String → Table → Table
unfolding latest_first
find_revoked_by_user user devices =
    latest_first (λ d. or_else d.revoked_at 0)
      (filter (λ d. d.user_id == user && is_some d.revoked_at) devices)

abbrev revoked : ℕ → Device → Device
revoked now d = record d { revoked_at = some now }

unfoldable pub revoke : String → String → ℕ → Table → Table × Bool
revoke user device now devices = (
  update_where (owned_active user device) (revoked now) devices,
  any (owned_active user device) devices,
)

abbrev named : String → Device → Device
named name d = record d { name = name }

unfoldable pub rename : String → String → String → Table → Table × Bool
rename user device name devices = (
  update_where (owned_active user device) (named name) devices,
  any (owned_active user device) devices,
)

-- A descriptor that the pairing request did not supply keeps the stored one.
abbrev kept_or : Option String → Option String → Option String
kept_or none stored = stored
kept_or (some v) stored = some v

abbrev pub restored : String → Descriptors → Device → Device
restored token_hash s d = record d {
  revoked_at = none;
  device_token_hash = token_hash;
  name = or_else s.name d.name;
  public_key = kept_or s.public_key d.public_key;
  os = kept_or s.os d.os;
}

unfoldable pub restore_device : String → String → String → Descriptors → Table → Table × Bool
restore_device user device token_hash s devices = (
  update_where (owned_revoked user device) (restored token_hash s) devices,
  any (owned_revoked user device) devices,
)
