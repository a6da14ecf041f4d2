-- ===== src/Devices/Access.antt =====
-- Who can change a device row, and which tokens a row admits.
use telecode.Base.{
  ℕ, ◌≤◌, String, Bool, true, false, ◌&&◌, ◌≡◌, refl, sym, ap, subst, ◌∙◌, some, [], ◌∷◌, ◌++◌,
  append-nil, is_some, or_else, filter, find, ◌==◌, string_eq, eq_iff, arith, Bool-cases, inl, inr,
}
use mathlib.Core.Option.{some-injective}
use telecode.Devices.{
  Device, Table, Descriptors, create_device, is_active_with, find_active_by_token_hash,
  update_where, owned_active, owned_revoked, restore_device, revoke, rename, touch_last_seen, seen,
}

-- The writes that act for a user.
pub data Write : Type 0 where
  creates : (id : String) (now : ℕ) (name token_hash : String) (s : Descriptors) → Write
  revokes : (device : String) (now : ℕ) → Write
  renames : (device name : String) → Write
  restores : (device token_hash : String) (s : Descriptors) → Write

unfoldable pub write : String → Write → Table → Table
unfolding create_device revoke rename restore_device
write user (creates id now name token_hash s) devices =
    create_device id now user name token_hash s devices
write user (revokes device now) devices = (revoke user device now devices).0
write user (renames device name) devices = (rename user device name devices).0
write user (restores device token_hash s) devices =
    (restore_device user device token_hash s devices).0

abbrev pub of_user : String → Table → Table
of_user user devices = filter (λ d. d.user_id == user) devices

update_where_isolated :
    (other : String) (p : Device → Bool) (f : Device → Device) (devices : Table)
    → ((d : Device) → (f d).user_id ≡ d.user_id)
    → ((d : Device) → (p d && d.user_id == other) ≡ false)
    → of_user other (update_where p f devices) ≡ of_user other devices
update_where_isolated other p f [] same apart = refl
update_where_isolated other p f (d ∷ devices) same apart =
    let rest = update_where_isolated other p f devices same apart in
    elim (Bool-cases (p d)) [
      | inl hit ↦
          let theirs : (d.user_id == other) ≡ false = ground (arith, apart d, hit) in
          rw (hit, same d, theirs) rest
      | inr miss ↦ rw miss (elim (Bool-cases (d.user_id == other)) [
        | inl e ↦ rw e (ap (◌∷◌ d) rest)
        | inr e ↦ rw e rest
      ])
    ]

of_user-append :
    (user : String) (xs ys : Table) → of_user user (xs ++ ys) ≡ of_user user xs ++ of_user user ys
of_user-append user [] ys = refl
of_user-append user (x ∷ xs) ys = elim (Bool-cases (x.user_id == user)) [
  | inl e ↦ rw e (ap (◌∷◌ x) (of_user-append user xs ys))
  | inr e ↦ rw e (of_user-append user xs ys)
]

-- A write that acts for one user leaves the rows of every other user as they were.
pub write_isolated :
    (user other : String) (w : Write) (devices : Table)
    → (user == other) ≡ false
    → of_user other (write user w devices) ≡ of_user other devices
unfolding write
write_isolated user other (creates id now name token_hash s) devices h =
    of_user-append other devices _ ∙ rw h (append-nil (of_user other devices))
write_isolated user other (revokes device now) devices h =
    update_where_isolated other (owned_active user device) _ devices (λ d. refl)
      (λ d. ground (arith, eq_iff d.user_id user, eq_iff d.user_id other, eq_iff user other))
write_isolated user other (renames device name) devices h =
    update_where_isolated other (owned_active user device) _ devices (λ d. refl)
      (λ d. ground (arith, eq_iff d.user_id user, eq_iff d.user_id other, eq_iff user other))
write_isolated user other (restores device token_hash s) devices h =
    update_where_isolated other (owned_revoked user device) _ devices (λ d. refl)
      (λ d. ground (arith, eq_iff d.user_id user, eq_iff d.user_id other, eq_iff user other))

find_active_revoked :
    (user device token_hash : String) (f : Device → Device) (devices : Table) (d : Device)
    → ((x : Device) → is_some (f x).revoked_at ≡ true)
    → find (is_active_with token_hash) (update_where (owned_active user device) f devices) ≡ some d
    → (d.id == device && d.user_id == user) ≡ false
find_active_revoked user device token_hash f [] d gone h = cc
find_active_revoked user device token_hash f (x ∷ devices) d gone h =
    elim (Bool-cases (owned_active user device x)) [
      | inl hit ↦
          let skipped : is_active_with token_hash (f x) ≡ false = ground (arith, gone x) in
          find_active_revoked user device token_hash f devices d gone (rw (hit, skipped) at h)
      | inr miss ↦ elim (Bool-cases (is_active_with token_hash x)) [
        | inl e ↦
            let same : x ≡ d = some-injective _ _ (rw (miss, e) at h) in
            subst (λ y. (y.id == device && y.user_id == user) ≡ false) same
              (ground (arith, miss, e))
        | inr e ↦ find_active_revoked user device token_hash f devices d gone (rw (miss, e) at h)
      ]
    ]

-- After a user revokes a device, no token authenticates as that device of the user.
find_active_by_token_hash-revoke :
    (user device : String) (now : ℕ) (devices : Table) (token_hash : String) (d : Device)
    → find_active_by_token_hash token_hash (revoke user device now devices).0 ≡ some d
    → (d.id == device && d.user_id == user) ≡ false
unfolding revoke find_active_by_token_hash
find_active_by_token_hash-revoke user device now devices token_hash d h =
    find_active_revoked user device token_hash _ devices d (λ x. refl) h

-- A touched row's last-seen time is at least what it was and at least the time of the touch.
touch_last_seen_mono :
    (device : String) (now : ℕ) (devices : Table) (d : Device)
    → find (λ x. x.id == device) devices ≡ some d
    → (d' : Device) × (find (λ x. x.id == device) (touch_last_seen device now devices) ≡ some d')
      × (or_else d.last_seen_at 0 ≤ or_else d'.last_seen_at 0)
      × (now ≤ or_else d'.last_seen_at 0)
unfolding touch_last_seen
touch_last_seen_mono device now [] d h = absurd (cc)
touch_last_seen_mono device now (x ∷ devices) d h = elim (Bool-cases (x.id == device)) [
  | inl e ↦
      let same : x ≡ d = some-injective _ _ (rw e at h) in
      (seen now x, rw (e, e) refl, rw (sym same) (ground arith), ground arith)
  | inr e ↦
      let (d', found, older, newer) = touch_last_seen_mono device now devices d (rw e at h) in
      (d', rw (e, e) found, older, newer)
]
