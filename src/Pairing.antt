-- ===== src/Pairing.antt =====
-- apps/relay/src/device-auth.ts: the device authorization grant. Codes, tokens, row ids and times
-- are arguments, and so is the digest of a token. An approval is split where the code awaits the
-- registry: `claim` before, `settle` or `release` after.
pub mod Delivery
pub mod Restore
pub mod Lockout
pub mod Single
mod Tests
use telecode.Base.{
  ℕ, ◌+◌, String, Bool, true, false, not, ◌&&◌, Option, none, some, List, [], ◌∷◌, ◌++◌, map,
  is_some, if◌then◌else◌, or_else, filter, length, leb, ltb, ◌==◌, string_eq, ◌/◌,
}
use telecode.Base.Dict.{get, set, delete}
use telecode.Devices.{
  Device, Table, Descriptors, create_device, find_revoked_by_token_hash, restore_device,
}

pub record Settings : Type 0 where
  pub verification_uri : String
  pub expires_in_ms : ℕ
  pub interval_sec : ℕ
  pub max_approve_failures : ℕ
  pub approve_failure_window_ms : ℕ

pub data ApproveOutcome : Type 0 where
  approved : ApproveOutcome
  invalid : ApproveOutcome
  rate_limited : ApproveOutcome

pub record ApproveResult : Type 0 where
  pub outcome : ApproveOutcome
  pub is_restored : Bool
  pub device_name : Option String

-- A promise: its bind is in flight, or has settled. A failed bind clears the field.
pub data Binding : Type 0 where
  in_flight : Binding
  settled : (result : ApproveResult) → Binding

pub record PendingRecord : Type 0 where
  pub user_code : String
  pub expires_at : ℕ
  pub supplied : Descriptors
  pub is_approved : Bool
  pub user_id : Option String
  pub device_id : Option String
  pub device_token : Option String
  pub binding : Option Binding
  pub restore_device_id : Option String
  pub restore_user_id : Option String
  pub restore_device_name : Option String

pub record Service : Type 0 where
  pub by_device_code : List (String × PendingRecord)
  pub user_code_to_device_code : List (String × String)
  pub approve_failures : List (String × List ℕ)

unfoldable pub refused_result : ApproveOutcome → ApproveResult
refused_result o = record { outcome = o; is_restored = false; device_name = none }

-- `record.name ?? record.restoreDeviceName ?? null`.
restored_name : PendingRecord → Option String
restored_name r = if is_some r.supplied.name then r.supplied.name else r.restore_device_name

unfoldable pub approved_result : Bool → PendingRecord → ApproveResult
unfolding restored_name
approved_result is_restored r = record {
  outcome = approved;
  is_restored = is_restored;
  device_name = if is_restored then restored_name r else none;
}

abbrev pub is_expired : ℕ → PendingRecord → Bool
is_expired now r = ltb r.expires_at now

abbrev pub evict : String → PendingRecord → Service → Service
evict code r s = record s {
  by_device_code = delete code s.by_device_code;
  user_code_to_device_code = delete r.user_code s.user_code_to_device_code;
}

-- The record of a code unless it has expired; an expired one is evicted as it is read.
unfoldable pub live : ℕ → String → Service → Service × Option PendingRecord
unfolding get
live now code s = elim (get code s.by_device_code) [
  | none ↦ (s, none)
  | some r ↦ if is_expired now r then (evict code r s, none) else (s, some r)
]

abbrev pub recent_failures : Settings → ℕ → String → Service → List ℕ
recent_failures o now user s =
    filter (λ failed_at. ltb now (failed_at + o.approve_failure_window_ms))
      (or_else (get user s.approve_failures) [])

unfoldable pub locked_out : Settings → ℕ → String → Service → Service × Bool
unfolding get set delete
locked_out o now user s =
    let recent = recent_failures o now user s in
    (
      record s {
        approve_failures =
            if ltb 0 (length recent)
            then set user recent s.approve_failures
            else delete user s.approve_failures;
      },
      leb o.max_approve_failures (length recent),
    )

unfoldable pub record_failure : ℕ → String → Service → Service
unfolding get set
record_failure now user s = record s {
  approve_failures =
      set user (or_else (get user s.approve_failures) [] ++ now ∷ []) s.approve_failures;
}

pub record DeviceCodeResponse : Type 0 where
  pub device_code : String
  pub user_code : String
  pub verification_uri : String
  pub expires_in : ℕ
  pub interval : ℕ

pub data PollResult : Type 0 where
  expired : PollResult
  authorization_pending : PollResult
  approved_with : (device_token user_id device_id : String) → PollResult

-- Only a token whose digest is that of a revoked row counts as evidence.
abbrev resolve_restore_evidence : (String → String) → Option String → Table → Option Device
resolve_restore_evidence hash none devices = none
resolve_restore_evidence hash (some token) devices = find_revoked_by_token_hash (hash token) devices

unfoldable pub request_code :
    (String → String)
    → Settings
    → ℕ
    → String
    → String
    → Descriptors
    → Option String
    → Table
    → Service
    → Service × DeviceCodeResponse
unfolding set
request_code hash o now code user_code supplied prior_device_token devices s =
    let evidence = resolve_restore_evidence hash prior_device_token devices in
    (
      record s {
        by_device_code =
            set code
              (record {
                user_code = user_code;
                expires_at = now + o.expires_in_ms;
                supplied = supplied;
                is_approved = false;
                user_id = none;
                device_id = none;
                device_token = none;
                binding = none;
                restore_device_id = elim evidence [ none ↦ none | some d ↦ some d.id ];
                restore_user_id = elim evidence [ none ↦ none | some d ↦ some d.user_id ];
                restore_device_name = elim evidence [ none ↦ none | some d ↦ some d.name ];
              })
              s.by_device_code;
        user_code_to_device_code = set user_code code s.user_code_to_device_code;
      },
      record {
        device_code = code;
        user_code = user_code;
        verification_uri = o.verification_uri;
        expires_in = o.expires_in_ms / 1000;
        interval = o.interval_sec;
      },
    )

deliver :
    String
    → PendingRecord
    → Bool
    → Option String
    → Option String
    → Option String
    → Service
    → Service × PollResult
deliver code r true (some token) (some user) (some device) s =
    (evict code r s, approved_with token user device)
deliver code r a t u d s = (s, authorization_pending)

-- A delivered record is consumed.
unfoldable pub poll : ℕ → String → Service → Service × PollResult
unfolding live deliver
poll now code s =
    let (s', found) = live now code s in
    elim found [
      | none ↦ (s', expired)
      | some r ↦ deliver code r r.is_approved r.device_token r.user_id r.device_id s'
    ]

pub data Claim : Type 0 where
  refused : (result : ApproveResult) → Claim
  joins : (code : String) (shared : Binding) → Claim
  binds : (code : String) (r : PendingRecord) → Claim

abbrev claimed : PendingRecord → PendingRecord
claimed r = record r { is_approved = true; binding = some in_flight }

unfoldable pub claim_record : String → PendingRecord → Option Binding → Service → Service × Claim
claim_record code r (some b) s = (s, joins code b)
claim_record code r none s =
    (record s { by_device_code = set code (claimed r) s.by_device_code }, binds code r)

-- `approve` up to its first `await`.
unfoldable pub claim : Settings → ℕ → String → String → Service → Service × Claim
unfolding locked_out record_failure refused_result live claim_record get
claim o now user_code user s =
    let (s', is_locked) = locked_out o now user s in
    if is_locked
    then (s', refused (refused_result rate_limited))
    else elim (get user_code s'.user_code_to_device_code) [
      | none ↦ (record_failure now user s', refused (refused_result invalid))
      | some code ↦
          let (s'', found) = live now code s' in
          elim found [
            | none ↦ (record_failure now user s'', refused (refused_result invalid))
            | some r ↦ claim_record code r r.binding s''
          ]
    ]

abbrev is_owner : PendingRecord → String → Bool
is_owner r user = elim r.restore_user_id [ none ↦ false | some owner ↦ owner == user ]

fresh_device : String → ℕ → PendingRecord → String → String → Table → Table × String × Bool
fresh_device id now r user token_hash devices = (
  create_device id now user (or_else r.supplied.name "device") token_hash r.supplied devices,
  id,
  false,
)

-- The row that carries the approved token: the revoked row of the evidence for its own user, while
-- it can be restored; else a fresh one.
unfoldable pub bind_device :
    String → ℕ → PendingRecord → String → String → Table → Table × String × Bool
unfolding fresh_device restore_device
bind_device id now r user token_hash devices = elim r.restore_device_id [
  | none ↦ fresh_device id now r user token_hash devices
  | some device ↦
      let tried = restore_device user device token_hash r.supplied devices in
      if is_owner r user && tried.1
      then (tried.0, device, true)
      else fresh_device id now r user token_hash devices
]

abbrev stamped : String → String → String → Bool → PendingRecord → PendingRecord
stamped token user device is_restored r = record r {
  user_id = some user;
  device_id = some device;
  device_token = some token;
  binding = some (settled (approved_result is_restored r));
}

abbrev on_record : String → (PendingRecord → PendingRecord) → Service → Service
on_record code f s = elim (get code s.by_device_code) [
  | none ↦ s
  | some r ↦ record s { by_device_code = set code (f r) s.by_device_code }
]

-- The bind has succeeded: a record that is still held carries the token.
unfoldable pub settle : String → String → String → String → Bool → Service → Service
unfolding get set approved_result
settle code token user device is_restored s =
    on_record code (stamped token user device is_restored) s

-- The bind has failed: the claim is released.
unfoldable pub release : String → Service → Service
unfolding get set
release code s = on_record code (λ r. record r { is_approved = false; binding = none }) s

pub data Answer : Type 0 where
  answered : (result : ApproveResult) → Answer
  awaits : (code : String) → Answer

-- An approval whose registry calls succeed, with nothing in between.
unfoldable pub approve :
    (String → String)
    → Settings
    → ℕ
    → String
    → String
    → String
    → String
    → Table
    → Service
    → Service × Table × Answer
unfolding claim bind_device settle
approve hash o now id raw_token user_code user devices s =
    let (s', c) = claim o now user_code user s in
    elim c [
      | refused result ↦ (s', devices, answered result)
      | joins code shared ↦
          (s', devices, elim shared [ in_flight ↦ awaits code | settled result ↦ answered result ])
      | binds code r ↦
          let (devices', device, is_restored) =
            bind_device id now r user (hash raw_token) devices in
          (
            settle code raw_token user device is_restored s',
            devices',
            answered (approved_result is_restored r),
          )
    ]

abbrev restorable : ℕ → PendingRecord → Bool
restorable now r = leb now r.expires_at && not r.is_approved

restore_ids : ℕ → List (String × PendingRecord) → List String
restore_ids now [] = []
restore_ids now ((code, r) ∷ records) =
    (if restorable now r
      then elim r.restore_device_id [ none ↦ [] | some device ↦ device ∷ [] ]
      else [])
    ++ restore_ids now records

-- The devices that wait to be authorized again.
unfoldable pub pending_restore_device_ids : ℕ → Service → List String
unfolding restore_ids
pending_restore_device_ids now s = restore_ids now s.by_device_code
