-- ===== src/Pairing/Restore.antt =====
-- Which device an approval binds.
use telecode.Base.{
  ℕ, ◌+◌, String, Bool, true, false, ◌&&◌, ◌≡◌, refl, sym, none, some, length, length-map,
  length-append, any, if◌then◌else◌, or_else, arith, string_eq, Bool-cases, Option-cases, inl, inr,
}
use telecode.Devices.{
  Device, Table, create_device, restore_device, update_where, owned_revoked, restored,
  find_active_by_token_hash,
}
use telecode.Devices.Laws.{is_unknown, find_active-create_device, find_active-restore_device}
use telecode.Pairing.{PendingRecord, bind_device, is_owner, fresh_device}

-- The pending code carries evidence for a row that its owner, the approver, has revoked.
abbrev pub can_restore : PendingRecord → String → Table → Bool
can_restore r user devices = elim r.restore_device_id [
  | none ↦ false
  | some device ↦ is_owner r user && any (owned_revoked user device) devices
]

-- The table after a restore and after a fresh insert.
abbrev pub after_restore : PendingRecord → String → String → String → Table → Table
after_restore r user device token_hash devices =
    update_where (owned_revoked user device) (restored token_hash r.supplied) devices

bind_device-restores :
    (id : String) (now : ℕ) (r : PendingRecord) (user token_hash device : String) (devices : Table)
    → r.restore_device_id ≡ some device
    → can_restore r user devices ≡ true
    → bind_device id now r user token_hash devices
      ≡ (after_restore r user device token_hash devices, device, true)
unfolding bind_device restore_device
bind_device-restores id now r user token_hash device devices e h =
    let h' : is_owner r user && any (owned_revoked user device) devices ≡ true = rw e at h in
    rw (e, bind_device, h') refl

bind_device-inserts :
    (id : String) (now : ℕ) (r : PendingRecord) (user token_hash : String) (devices : Table)
    → can_restore r user devices ≡ false
    → bind_device id now r user token_hash devices ≡ (
      create_device id now user (or_else r.supplied.name "device") token_hash r.supplied devices,
      id,
      false,
    )
unfolding bind_device restore_device fresh_device
bind_device-inserts id now r user token_hash devices h = elim (Option-cases r.restore_device_id) [
  | inl e ↦ rw (e, bind_device) refl
  | inr (device, e) ↦
      let h' : is_owner r user && any (owned_revoked user device) devices ≡ false = rw e at h in
      rw (e, bind_device, h') refl
]

-- What a bind promises: the token is that of an active row of the approver; the row is the revoked
-- one exactly when it can be restored, and then no row is added; else one row is added to the others.
abbrev pub IsBound :
    String → PendingRecord → String → String → Table → Table × String × Bool → Type 0
IsBound id r user token_hash devices (devices', device, is_restored) =
    (is_restored ≡ can_restore r user devices)
    × (device ≡ (if is_restored then or_else r.restore_device_id id else id))
    × (length devices' ≡ (if is_restored then length devices else length devices + 1))
    × ((row : Device) × (find_active_by_token_hash token_hash devices' ≡ some row)
        × (row.id ≡ device)
        × (row.user_id ≡ user))

restored-IsBound :
    (id : String) (r : PendingRecord) (user token_hash device : String) (devices : Table)
    → is_unknown token_hash devices ≡ true
    → r.restore_device_id ≡ some device
    → can_restore r user devices ≡ true
    → IsBound id r user token_hash devices
        (after_restore r user device token_hash devices, device, true)
unfolding restore_device
restored-IsBound id r user token_hash device devices new e h =
    let h' : is_owner r user && any (owned_revoked user device) devices ≡ true = rw e at h in
    (
      sym h,
      rw e refl,
      length-map _ devices,
      find_active-restore_device user device token_hash r.supplied devices new (ground (arith, h')),
    )

inserted-IsBound :
    (id : String) (now : ℕ) (r : PendingRecord) (user token_hash : String) (devices : Table)
    → is_unknown token_hash devices ≡ true
    → can_restore r user devices ≡ false
    → IsBound id r user token_hash devices (
      create_device id now user (or_else r.supplied.name "device") token_hash r.supplied devices,
      id,
      false,
    )
unfolding create_device
inserted-IsBound id now r user token_hash devices new h = (
  sym h,
  refl,
  length-append devices _,
  find_active-create_device id now user (or_else r.supplied.name "device") token_hash r.supplied
      devices new,
)

pub bind_device-IsBound :
    (id : String) (now : ℕ) (r : PendingRecord) (user token_hash : String) (devices : Table)
    → is_unknown token_hash devices ≡ true
    → IsBound id r user token_hash devices (bind_device id now r user token_hash devices)
bind_device-IsBound id now r user token_hash devices new =
    elim (Bool-cases (can_restore r user devices)) [
      | inl can ↦ elim (Option-cases r.restore_device_id) [
        | inl e ↦ absurd (ground (arith, rw e at can))
        | inr (device, e) ↦
            rw (bind_device-restores id now r user token_hash device devices e can)
              (restored-IsBound id r user token_hash device devices new e can)
      ]
      | inr cannot ↦
          rw (bind_device-inserts id now r user token_hash devices cannot)
            (inserted-IsBound id now r user token_hash devices new cannot)
    ]
