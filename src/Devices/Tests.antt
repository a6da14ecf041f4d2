-- ===== src/Devices/Tests.antt =====
-- The device table on a revoked laptop and a stranger's desk.
use telecode.Base.{ℕ, String, true, false, ◌≡◌, refl, [], ◌∷◌, string_eq, none, some, map}
use telecode.Devices.{
  Device, Table, create_device, find_active_by_token_hash, find_revoked_by_token_hash,
  find_active_by_user, find_revoked_by_user, insert_latest, latest_first, revoke, rename,
  restore_device, touch_last_seen,
}
use telecode.Devices.Access.{renames, write, of_user, write_isolated}

abbrev device : String → String → ℕ → Device
device id user at = record {
  id = id;
  user_id = user;
  name = "device";
  public_key = none;
  os = none;
  device_token_hash = "#1";
  last_seen_at = some 50;
  revoked_at = none;
  created_at = at;
}

abbrev devices : Table
devices =
    device "d1" "ann" 10
    ∷ record (device "d2" "ann" 20) { device_token_hash = "#2" }
    ∷ record (device "d3" "bob" 30) { device_token_hash = "#3"; revoked_at = some 40 }
    ∷ []

writes : Unit {0}
unfolding create_device find_active_by_token_hash find_revoked_by_token_hash find_active_by_user
    find_revoked_by_user insert_latest latest_first revoke rename restore_device touch_last_seen
    write
writes = tt

table_tests :
    (map (λ d. d.id) (find_active_by_user "ann" devices) ≡ "d2" ∷ "d1" ∷ [])
    × (map (λ d. d.id) (find_revoked_by_user "bob" devices) ≡ "d3" ∷ [])
    × ((revoke "ann" "d3" 60 devices).1 ≡ false)
    × ((rename "bob" "d3" "desk" devices).1 ≡ false)
    × (find_active_by_token_hash "#1" (revoke "ann" "d1" 60 devices).0 ≡ none)
    × ((restore_device "bob" "d3" "#9"
          (record { name = some "desk"; public_key = none; os = none })
          devices).1
        ≡ true)
    × (find_active_by_token_hash "#3" devices ≡ none)
unfolding writes
table_tests = (refl, refl, refl, refl, refl, refl, refl)

write_isolated_example :
    of_user "bob" (write "ann" (renames "d1" "laptop") devices) ≡ of_user "bob" devices
write_isolated_example = write_isolated "ann" "bob" (renames "d1" "laptop") devices refl
