-- ===== src/Pairing/Tests.antt =====
-- A pairing of a new laptop, one of a revoked phone, and a user who guesses.
use Prim.Native.String.{◌++◌ as append}
use telecode.Base.{
  ℕ, String, true, false, ◌≡◌, refl, List, [], ◌∷◌, string_eq, none, some, arith, ◌≤◌,
}
use telecode.Base.Dict.{get, set, delete}
use telecode.Devices.{
  Device, Descriptors, create_device, find_active_by_token_hash, find_revoked_by_token_hash,
  restore_device,
}
use telecode.Pairing.{
  Settings, Service, PendingRecord, request_code, poll, live, deliver, claim, claim_record, approve,
  settle, release, bind_device, fresh_device, locked_out, record_failure, refused_result,
  approved_result, restored_name, restore_ids, pending_restore_device_ids, authorization_pending,
  expired, joins, binds, in_flight, settled, answered, refused, approved, rate_limited,
}
use telecode.Pairing.Single.{claim_single}
use telecode.Pairing.Delivery.{IsDelivered, pairing_delivers}
use telecode.Pairing.Lockout.{invalids, invalids_le_limit}

abbrev settings : Settings
settings = record {
  verification_uri = "https://telecode.dev/device";
  expires_in_ms = 300;
  interval_sec = 1;
  max_approve_failures = 2;
  approve_failure_window_ms = 100;
}

abbrev idle_service : Service
idle_service = record { by_device_code = []; user_code_to_device_code = []; approve_failures = [] }

-- A digest with no two tokens alike.
abbrev digest : String → String
digest token = append "#" token

abbrev phone : Device
phone = record {
  id = "d1";
  user_id = "ann";
  name = "Ann's phone";
  public_key = none;
  os = some "ios";
  device_token_hash = "#old";
  last_seen_at = some 5;
  revoked_at = some 9;
  created_at = 1;
}

abbrev unnamed : Descriptors
unnamed = record { name = none; public_key = none; os = none }

-- The phone asks for a code with its old token.
abbrev asked : Service
unfolding request_code find_revoked_by_token_hash set
asked =
    (request_code digest settings 10 "dc" "ABCD-EFGH" unnamed (some "old") (phone ∷ [])
      idle_service).0

abbrev asked_record : PendingRecord
asked_record = record {
  user_code = "ABCD-EFGH";
  expires_at = 310;
  supplied = unnamed;
  is_approved = false;
  user_id = none;
  device_id = none;
  device_token = none;
  binding = none;
  restore_device_id = some "d1";
  restore_user_id = some "ann";
  restore_device_name = some "Ann's phone";
}

writes : Unit {0}
unfolding request_code find_revoked_by_token_hash set get delete poll live deliver claim
    claim_record approve settle release bind_device fresh_device create_device restore_device
    locked_out record_failure refused_result approved_result restored_name
    pending_restore_device_ids restore_ids asked find_active_by_token_hash
writes = tt

asked_tests :
    (get "dc" asked.by_device_code ≡ some asked_record)
    × (pending_restore_device_ids 310 asked ≡ "d1" ∷ [])
    × (pending_restore_device_ids 311 asked ≡ [])
    × ((poll 310 "dc" asked).1 ≡ authorization_pending)
    × ((poll 311 "dc" asked).1 ≡ expired)
    × ((poll 311 "dc" asked).0 ≡ idle_service)
unfolding writes
asked_tests = (refl, refl, refl, refl, refl, refl)

-- The owner restores the phone; another account gets a device of its own.
bind_tests :
    ((bind_device "d2" 20 asked_record "ann" "#t" (phone ∷ [])).1 ≡ "d1")
    × ((bind_device "d2" 20 asked_record "bob" "#t" (phone ∷ [])).1 ≡ "d2")
    × ((approve digest settings 20 "d2" "t" "ABCD-EFGH" "ann" (phone ∷ []) asked).2
        ≡ answered
            (record { outcome = approved; is_restored = true; device_name = some "Ann's phone" }))
    × ((claim settings 20 "XXXX-XXXX" "bob" asked).0.approve_failures ≡ ("bob", 20 ∷ []) ∷ [])
unfolding writes
bind_tests = (refl, refl, refl, refl)

claim_single_example :
    let s' = (claim settings 20 "ABCD-EFGH" "ann" asked).0 in
    ((claim settings 25 "ABCD-EFGH" "bob" s').1 ≡ joins "dc" in_flight)
    × ((claim settings 25 "ABCD-EFGH" "bob" (settle "dc" "t" "ann" "d1" true s')).1
        ≡ joins "dc" (settled (approved_result true asked_record)))
    × ((claim settings 25 "ABCD-EFGH" "bob" (release "dc" s')).1
        ≡ binds "dc" (record asked_record { is_approved = false; binding = none }))
unfolding writes
claim_single_example =
    claim_single settings 20 "ABCD-EFGH" "ann" "dc" asked_record asked refl refl refl refl refl 25
      "bob" refl refl "t" "d1" true

pairing_delivers_example :
    IsDelivered digest 40 41 "dc" "t" "ann"
      (approve digest settings 20 "d2" "t" "ABCD-EFGH" "ann" (phone ∷ []) asked)
unfolding writes
pairing_delivers_example =
    pairing_delivers digest settings 10 20 40 41 "d2" "t" "ABCD-EFGH" "ann" "dc" unnamed
      (some "old") (phone ∷ []) idle_service refl (ground arith) (ground arith) refl

abbrev guesses : List (ℕ × String)
guesses = (20, "AAAA-AAAA") ∷ (30, "BBBB-BBBB") ∷ (40, "CCCC-CCCC") ∷ (50, "ABCD-EFGH") ∷ []

invalids_tests :
    (invalids settings "bob" guesses asked ≡ 2)
    × ((claim settings 50 "ABCD-EFGH" "bob"
          (record asked { approve_failures = ("bob", 20 ∷ 30 ∷ []) ∷ [] })).1
        ≡ refused (refused_result rate_limited))
unfolding writes
invalids_tests = (refl, refl)

invalids_le_limit_example : invalids settings "bob" guesses asked ≤ 2
unfolding writes
invalids_le_limit_example = invalids_le_limit settings "bob" 60 guesses asked refl (ground arith)
