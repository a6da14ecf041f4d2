-- ===== src/Pairing/Delivery.antt =====
-- A pairing from the request to the delivery of the token.
use telecode.Base.{
  ℕ, ◌+◌, ◌≤◌, String, Bool, true, false, ◌≡◌, refl, ap, ◌∙◌, Option, none, some, arith, string_eq,
  ==-self,
}
use telecode.Base.Dict.{get, delete, get-delete}
use telecode.Devices.{Device, Table, Descriptors, find_active_by_token_hash}
use telecode.Devices.Laws.{is_unknown}
use telecode.Pairing.{
  Settings, Service, PendingRecord, Answer, answered, approve, request_code, poll, live, deliver,
  expired, approved_with, locked_out, bind_device, settle, approved_result, claimed, evict, stamped,
  claim, is_expired, binds,
}
use telecode.Pairing.Single.{claim_binds, get-set_self, live_found, on_record_held}
use telecode.Pairing.Restore.{IsBound, bind_device-IsBound}

-- A record that carries a token is delivered once.
poll_delivers :
    (now : ℕ) (code token user device : String) (b : Bool) (r : PendingRecord) (s : Service)
    → get code s.by_device_code ≡ some (stamped token user device b (claimed r))
    → is_expired now r ≡ false
    → poll now code s ≡ (evict code r s, approved_with token user device)
unfolding poll deliver
poll_delivers now code token user device b r s held fresh =
    let found = live_found now code _ s held fresh in rw (found, poll, found) refl

poll_evicted :
    (now : ℕ) (code : String) (r : PendingRecord) (s : Service)
    → (poll now code (evict code r s)).1 ≡ expired
unfolding poll live
poll_evicted now code r s =
    let gone : get code (delete code s.by_device_code) ≡ none =
      get-delete code code s.by_device_code ∙ rw (==-self code) refl in
    rw (gone, poll) refl

approve_binds :
    (hash : String → String) (o : Settings) (now : ℕ) (id token user_code user code : String)
    (r : PendingRecord) (devices : Table) (s : Service)
    → (claim o now user_code user s).1 ≡ binds code r
    → let (devices', device, b) = bind_device id now r user (hash token) devices in
      approve hash o now id token user_code user devices s ≡ (
        settle code token user device b (claim o now user_code user s).0,
        devices',
        answered (approved_result b r),
      )
unfolding approve
approve_binds hash o now id token user_code user code r devices s e = rw (e, approve) refl

settled_held :
    (code token user device : String) (b : Bool) (r : PendingRecord) (s : Service)
    → get code s.by_device_code ≡ some r
    → get code (settle code token user device b s).by_device_code
      ≡ some (stamped token user device b r)
unfolding settle
settled_held code token user device b r s held =
    ap (λ x. get code x.by_device_code) (on_record_held code (stamped token user device b) r s held)
    ∙ get-set_self code _ s.by_device_code

-- What the daemon and the registry hold after an approval: the token is delivered to one poll, and
-- the registry authenticates it as an active device of the approver, with the id that was told.
abbrev pub IsDelivered :
    (String → String) → ℕ → ℕ → String → String → String → Service × Table × Answer → Type 0
IsDelivered hash now later code token user (s, devices, answer) =
    (row : Device) × (find_active_by_token_hash (hash token) devices ≡ some row)
    × (row.user_id ≡ user)
    × ((poll now code s).1 ≡ approved_with token user row.id)
    × ((poll later code (poll now code s).0).1 ≡ expired)

bound-IsDelivered :
    (hash : String → String) (now later : ℕ) (id code token user : String) (r : PendingRecord)
    (devices : Table) (answer : Answer) (s : Service)
    → (b : Table × String × Bool) → IsBound id r user (hash token) devices b
    → get code s.by_device_code ≡ some (claimed r)
    → is_expired now r ≡ false
    → IsDelivered hash now later code token user (settle code token user b.1 b.2 s, b.0, answer)
bound-IsDelivered hash now later id code token user r devices answer s b
      (_, _, _, (row, active, row_id, owner)) held fresh =
    (
      row,
      active,
      owner,
      rw row_id (ap (λ x. x.1) polled),
      ap (λ x. (poll later code x.0).1) polled ∙ poll_evicted later code r _,
    )
  where
    polled :
        poll now code (settle code token user b.1 b.2 s)
        ≡ (evict code r (settle code token user b.1 b.2 s), approved_with token user b.1)
    polled =
        poll_delivers now code token user b.1 b.2 r _
          (settled_held code token user b.1 b.2 (claimed r) s held) fresh

approve-IsDelivered :
    (hash : String → String) (o : Settings) (at now later : ℕ)
    (id token user_code user code : String) (r : PendingRecord) (devices : Table) (s : Service)
    → (locked_out o at user s).1 ≡ false
    → get user_code s.user_code_to_device_code ≡ some code
    → get code s.by_device_code ≡ some r
    → is_expired at r ≡ false
    → r.binding ≡ none
    → is_expired now r ≡ false
    → is_unknown (hash token) devices ≡ true
    → IsDelivered hash now later code token user
        (approve hash o at id token user_code user devices s)
approve-IsDelivered hash o at now later id token user_code user code r devices s free known held
      fresh idle fresh' new =
    let (claims, held', _) = claim_binds o at user_code user code r s free known held fresh idle in
    let b = bind_device id at r user (hash token) devices in
    rw (approve_binds hash o at id token user_code user code r devices s claims) (
      bound-IsDelivered hash now later id code token user r devices
        (answered (approved_result b.2 r)) _ b
        (bind_device-IsBound id at r user (hash token) devices new) held' fresh')

-- A daemon requests a code, a user who is not locked out approves it and the daemon polls, both
-- before the code expires, with a token that no device holds yet. Then the poll gives the token,
-- the user and the device that the registry finds for the token, an active device of that user; and
-- any later poll finds the code expired.
pub pairing_delivers :
    (hash : String → String) (o : Settings) (asked approved_at polled later : ℕ)
    (id token user_code user code : String) (supplied : Descriptors) (prior : Option String)
    (devices : Table) (s : Service)
    → (locked_out o approved_at user s).1 ≡ false
    → approved_at ≤ asked + o.expires_in_ms
    → polled ≤ asked + o.expires_in_ms
    → is_unknown (hash token) devices ≡ true
    → let s' = (request_code hash o asked code user_code supplied prior devices s).0 in
      IsDelivered hash polled later code token user
        (approve hash o approved_at id token user_code user devices s')
unfolding request_code locked_out
pairing_delivers hash o asked approved_at polled later id token user_code user code supplied prior
      devices s free in_time in_time' new =
    let s' = (request_code hash o asked code user_code supplied prior devices s).0 in
    approve-IsDelivered hash o approved_at polled later id token user_code user code _ devices s'
      free (get-set_self user_code code s.user_code_to_device_code)
      (get-set_self code _ s.by_device_code) (ground arith) refl (ground arith) new
