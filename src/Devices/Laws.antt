-- ===== src/Devices/Laws.antt =====
-- Lemmas on the device table for the components that authenticate with it.
use telecode.Base.{
  ℕ, String, Bool, true, false, not, ◌≡◌, refl, some, List, [], ◌∷◌, ◌++◌, find, any, ◌==◌,
  string_eq, eq_iff, arith, Bool-cases, inl, inr,
}
use telecode.Devices.{
  Device, Table, Descriptors, create_device, is_active_with, find_active_by_token_hash,
  update_where, owned_revoked, restored, restore_device,
}

-- No device holds the token.
abbrev pub is_unknown : String → Table → Bool
is_unknown token_hash devices = not (any (λ d. d.device_token_hash == token_hash) devices)

find-append_new :
    {A : Type 0} (p : A → Bool) (xs : List A) (x : A)
    → any p xs ≡ false
    → p x ≡ true
    → find p (xs ++ x ∷ []) ≡ some x
find-append_new p [] x h k = rw k
find-append_new p (y ∷ xs) x h k = ground (arith, find-append_new p xs x)

none_active :
    (token_hash : String) (devices : Table)
    → is_unknown token_hash devices ≡ true
    → any (is_active_with token_hash) devices ≡ false
none_active token_hash [] h = refl
none_active token_hash (d ∷ devices) h = ground (arith, none_active token_hash devices)

-- The device that holds an unused token after a pairing is the new row.
pub find_active-create_device :
    (id : String) (now : ℕ) (user name token_hash : String) (s : Descriptors) (devices : Table)
    → is_unknown token_hash devices ≡ true
    → (d : Device) × (find_active_by_token_hash token_hash
          (create_device id now user name token_hash s devices)
        ≡ some d)
      × (d.id ≡ id)
      × (d.user_id ≡ user)
unfolding find_active_by_token_hash create_device
find_active-create_device id now user name token_hash s devices h = (
  _,
  find-append_new (is_active_with token_hash) devices _ (none_active token_hash devices h)
      (ground (arith, eq_iff token_hash token_hash)),
  refl,
  refl,
)

find-restored :
    (user device token_hash : String) (s : Descriptors) (devices : Table)
    → is_unknown token_hash devices ≡ true
    → any (owned_revoked user device) devices ≡ true
    → (d : Device) × (find
          (is_active_with token_hash)
          (update_where (owned_revoked user device) (restored token_hash s) devices)
        ≡ some d)
      × (d.id ≡ device)
      × (d.user_id ≡ user)
find-restored user device token_hash s [] h k = absurd (ground arith)
find-restored user device token_hash s (d ∷ devices) h k =
    elim (Bool-cases (owned_revoked user device d)) [
      | inl hit ↦ (
        restored token_hash s d,
        ground (arith, eq_iff token_hash token_hash),
        ground (arith, eq_iff d.id device),
        ground (arith, eq_iff d.user_id user),
      )
      | inr miss ↦
          let (e, found, id, user_id) =
            find-restored user device token_hash s devices (ground arith) (ground arith) in
          (e, ground (arith, found), id, user_id)
    ]

-- So it is after a restore, and it is the restored row of the same user.
pub find_active-restore_device :
    (user device token_hash : String) (s : Descriptors) (devices : Table)
    → is_unknown token_hash devices ≡ true
    → (restore_device user device token_hash s devices).1 ≡ true
    → (d : Device) × (find_active_by_token_hash token_hash
          (restore_device user device token_hash s devices).0
        ≡ some d)
      × (d.id ≡ device)
      × (d.user_id ≡ user)
unfolding find_active_by_token_hash restore_device
find_active-restore_device user device token_hash s devices h k =
    find-restored user device token_hash s devices h k
