-- ===== src/Pairing/Single.antt =====
-- The claim of a pending code: one bind at a time, and a retry after a failure.
use telecode.Base.{
  ℕ, String, Bool, false, ◌≡◌, refl, ap, ◌∙◌, List, Option, none, some, string_eq, ==-self,
}
use telecode.Base.Dict.{get, set, get-set}
use telecode.Pairing.{
  Settings, Service, PendingRecord, Binding, in_flight, settled, binds, joins, claim, claim_record,
  claimed, live, locked_out, is_expired, release, settle, stamped, on_record, approved_result,
}

pub live_found :
    (now : ℕ) (code : String) (r : PendingRecord) (s : Service)
    → get code s.by_device_code ≡ some r
    → is_expired now r ≡ false
    → live now code s ≡ (s, some r)
unfolding live
live_found now code r s held fresh = rw (held, live, fresh) refl

-- The lockout reads and prunes the failures alone.
pub locked_out_codes :
    (o : Settings) (now : ℕ) (user : String) (s : Service)
    → ((locked_out o now user s).0.user_code_to_device_code ≡ s.user_code_to_device_code)
      × ((locked_out o now user s).0.by_device_code ≡ s.by_device_code)
unfolding locked_out
locked_out_codes o now user s = (refl, refl)

-- What a claim does when the approver is not locked out and the code is live.
pub claim_live :
    (o : Settings) (now : ℕ) (user_code user code : String) (r : PendingRecord) (s : Service)
    → (locked_out o now user s).1 ≡ false
    → get user_code s.user_code_to_device_code ≡ some code
    → get code s.by_device_code ≡ some r
    → is_expired now r ≡ false
    → claim o now user_code user s ≡ claim_record code r r.binding (locked_out o now user s).0
unfolding claim
claim_live o now user_code user code r s free known held fresh =
    let (codes, records) = locked_out_codes o now user s in
    let known' = ap (get user_code) codes ∙ known in
    let held' = ap (get code) records ∙ held in
    let found = live_found now code r (locked_out o now user s).0 held' fresh in
    rw (free, known', found, found) refl

pub get-set_self :
    {V : Type 0} (k : String) (v : V) (m : List (String × V)) → get k (set k v m) ≡ some v
get-set_self k v m = get-set k k v m ∙ rw (==-self k) refl

pub claim_binds :
    (o : Settings) (now : ℕ) (user_code user code : String) (r : PendingRecord) (s : Service)
    → (locked_out o now user s).1 ≡ false
    → get user_code s.user_code_to_device_code ≡ some code
    → get code s.by_device_code ≡ some r
    → is_expired now r ≡ false
    → r.binding ≡ none
    → let c = claim o now user_code user s in
      (c.1 ≡ binds code r)
      × (get code c.0.by_device_code ≡ some (claimed r))
      × (get user_code c.0.user_code_to_device_code ≡ some code)
unfolding claim_record locked_out
claim_binds o now user_code user code r s free known held fresh idle =
    rw (claim_live o now user_code user code r s free known held fresh, idle)
      (refl, get-set_self code (claimed r) s.by_device_code, known)

-- An update of a held record touches nothing else.
pub on_record_held :
    (code : String) (f : PendingRecord → PendingRecord) (r : PendingRecord) (s : Service)
    → get code s.by_device_code ≡ some r
    → on_record code f s ≡ record s { by_device_code = set code (f r) s.by_device_code }
on_record_held code f r s held = rw (held, on_record) refl

claim_record_code :
    (code : String) (r : PendingRecord) (b : Option Binding) (s t : Service)
    → (claim_record code r b s).1 ≡ (claim_record code r b t).1
unfolding claim_record
claim_record_code code r none s t = refl
claim_record_code code r (some b) s t = refl

claim_after :
    (o : Settings) (now : ℕ) (user_code user code : String) (f : PendingRecord → PendingRecord)
    (r : PendingRecord) (s : Service)
    → (locked_out o now user s).1 ≡ false
    → get user_code s.user_code_to_device_code ≡ some code
    → get code s.by_device_code ≡ some r
    → is_expired now (f r) ≡ false
    → (claim o now user_code user (on_record code f s)).1
      ≡ (claim_record code (f r) (f r).binding s).1
unfolding locked_out
claim_after o now user_code user code f r s free known held fresh =
    let s' = record s { by_device_code = set code (f r) s.by_device_code } in
    let there = get-set_self code (f r) s.by_device_code in
    ap (λ x. (claim o now user_code user x).1) (on_record_held code f r s held)
    ∙ ap (λ x. x.1) (claim_live o now user_code user code (f r) s' free known there fresh)
    ∙ claim_record_code code (f r) (f r).binding _ s

-- When an approval claims an idle record, every later claim of its code, by an approver who is not
-- locked out and before the expiry, joins the bind in flight; once the bind has settled it joins
-- the settled result; once the bind has failed and is released it binds the same code anew.
pub claim_single :
    (o : Settings) (now : ℕ) (user_code user code : String) (r : PendingRecord) (s : Service)
    → (locked_out o now user s).1 ≡ false
    → get user_code s.user_code_to_device_code ≡ some code
    → get code s.by_device_code ≡ some r
    → is_expired now r ≡ false
    → r.binding ≡ none
    → (later : ℕ) (other : String) → is_expired later r ≡ false
    → (locked_out o later other (claim o now user_code user s).0).1 ≡ false
    → (token device : String) (is_restored : Bool)
    → let s' = (claim o now user_code user s).0 in
      ((claim o later user_code other s').1 ≡ joins code in_flight)
      × ((claim o later user_code other (settle code token user device is_restored s')).1
          ≡ joins code (settled (approved_result is_restored r)))
      × ((claim o later user_code other (release code s')).1
          ≡ binds code (record r { is_approved = false; binding = none }))
unfolding settle release claim_record approved_result
claim_single o now user_code user code r s free known held fresh idle later other unexpired free'
      token device is_restored =
    let s' = (claim o now user_code user s).0 in
    let (_, held', known') = claim_binds o now user_code user code r s free known held fresh idle in
    (
      ap (λ x. x.1)
          (claim_live o later user_code other code (claimed r) s' free' known' held' unexpired),
      claim_after o later user_code other code (stamped token user device is_restored) (claimed r)
          s' free' known' held' unexpired,
      claim_after o later user_code other code
          (λ x. record x { is_approved = false; binding = none }) (claimed r) s' free' known' held'
          unexpired,
    )
