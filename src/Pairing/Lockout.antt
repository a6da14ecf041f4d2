-- ===== src/Pairing/Lockout.antt =====
-- The lockout against guessing a pending user code.
use telecode.Base.{
  ℕ, suc, ◌+◌, ◌≤◌, ◌<◌, max, String, ◌⊎◌, Bool, true, false, ◌≡◌, refl, ap, ◌∙◌, Option, none,
  some, List, [], ◌∷◌, ◌++◌, if◌then◌else◌, arith, ltb, leb, length, filter, or_else, string_eq,
  ==-self, Bool-cases, Option-cases, inl, inr, All,
}
use telecode.Base.Dict.{get, set, delete, get-delete}
use telecode.Pairing.{
  Settings, Service, PendingRecord, Binding, is_expired, Claim, refused, refused_result, approved,
  rate_limited, invalid, claim, locked_out, record_failure, live, claim_record,
}
use telecode.Pairing.Single.{get-set_self}

abbrev pub is_invalid : Claim → Bool
is_invalid (refused r) = elim r.outcome [ approved ↦ false | invalid ↦ true | rate_limited ↦ false ]
is_invalid c = false

-- How many of one user's guesses, each a time and a code, are told that the code is invalid.
abbrev pub invalids : Settings → String → List (ℕ × String) → Service → ℕ
invalids o user [] s = 0
invalids o user ((at, code) ∷ guesses) s =
    let c = claim o at code user s in
    (if is_invalid c.1 then 1 else 0) + invalids o user guesses c.0

failures : String → Service → List ℕ
unfolding get
failures user s = or_else (get user s.approve_failures) []

abbrev is_recent : Settings → ℕ → ℕ → Bool
is_recent o now failed_at = ltb now (failed_at + o.approve_failure_window_ms)

recent : Settings → ℕ → List ℕ → ℕ
recent o now xs = length (filter (is_recent o now) xs)

recent-prune :
    (o : Settings) (at now : ℕ) (xs : List ℕ)
    → at ≤ now
    → recent o now (filter (is_recent o at) xs) ≡ recent o now xs
unfolding recent
recent-prune o at now [] h = refl
recent-prune o at now (x ∷ xs) h = ground (arith, recent-prune o at now xs h)

recent-append :
    (o : Settings) (now : ℕ) (xs : List ℕ) (x : ℕ)
    → is_recent o now x ≡ true
    → recent o now (xs ++ x ∷ []) ≡ recent o now xs + 1
unfolding recent
recent-append o now [] x h = rw h refl
recent-append o now (y ∷ xs) x h = ground (arith, recent-append o now xs x h)

recent_earlier :
    (o : Settings) (at now : ℕ) (xs : List ℕ) → at ≤ now → recent o now xs ≤ recent o at xs
unfolding recent
recent_earlier o at now [] h = omega arith
recent_earlier o at now (x ∷ xs) h = ground (arith, recent_earlier o at now xs h)

-- The lockout counts the recent failures, and keeps those.
locked_out-failures :
    (o : Settings) (at : ℕ) (user : String) (s : Service)
    → ((locked_out o at user s).1 ≡ leb o.max_approve_failures (recent o at (failures user s)))
      × (failures user (locked_out o at user s).0 ≡ filter (is_recent o at) (failures user s))
unfolding locked_out failures recent
locked_out-failures o at user s =
    (refl, kept (filter (is_recent o at) (or_else (get user s.approve_failures) [])))
  where
    kept :
        (xs : List ℕ)
        → or_else
            (get user (
              if ltb 0 (length xs)
              then set user xs s.approve_failures
              else delete user s.approve_failures))
            []
          ≡ xs
    kept [] =
        let gone : get user (delete user s.approve_failures) ≡ none =
          get-delete user user s.approve_failures ∙ rw (==-self user) refl in
        ap (λ x. or_else x []) gone
    kept (x ∷ xs) =
        let more : ltb 0 (suc (length xs)) ≡ true = ground arith in
        rw more (ap (λ y. or_else y []) (get-set_self user (x ∷ xs) s.approve_failures))

failures-record_failure :
    (at : ℕ) (user : String) (s : Service)
    → failures user (record_failure at user s) ≡ failures user s ++ at ∷ []
unfolding record_failure failures
failures-record_failure at user s = ap (λ y. or_else y []) (get-set_self user _ s.approve_failures)

live-failures :
    (now : ℕ) (code user : String) (s : Service)
    → failures user (live now code s).0 ≡ failures user s
unfolding live failures
live-failures now code user s = elim (Option-cases (get code s.by_device_code)) [
  | inl e ↦ rw (e, live) refl
  | inr (r, e) ↦ elim (Bool-cases (is_expired now r)) [
    | inl h ↦ rw (e, live, h) refl
    | inr h ↦ rw (e, live, h) refl
  ]
]

claim_record-failures :
    (code user : String) (r : PendingRecord) (b : Option Binding) (s : Service)
    → let c = claim_record code r b s in
      (failures user c.0 ≡ failures user s) × (is_invalid c.1 ≡ false)
unfolding claim_record failures
claim_record-failures code user r none s = (refl, refl)
claim_record-failures code user r (some b) s = (refl, refl)

-- What a guess leaves of the failures: the recent ones, and its own when it is invalid, which it
-- is only if fewer than the limit are recent.
IsCharged : Settings → ℕ → String → Service → Service × Claim → Type 0
unfolding recent
IsCharged o at user s c =
    ((is_invalid c.1 ≡ true)
      × (failures user c.0 ≡ filter (is_recent o at) (failures user s) ++ at ∷ [])
      × (recent o at (failures user s) < o.max_approve_failures))
    ⊎ ((is_invalid c.1 ≡ false) × (failures user c.0 ≡ filter (is_recent o at) (failures user s)))

claim-IsCharged :
    (o : Settings) (at : ℕ) (code user : String) (s : Service)
    → IsCharged o at user s (claim o at code user s)
unfolding claim IsCharged refused_result
claim-IsCharged o at code user s =
    let l = (locked_out o at user s).0 in
    let (limit, kept) = locked_out-failures o at user s in
    elim (Bool-cases (locked_out o at user s).1) [
      | inl e ↦ rw (e, claim) (inr (refl, kept))
      | inr e ↦
          let few : recent o at (failures user s) < o.max_approve_failures =
            ground (arith, limit, e) in
          elim (Option-cases (get code l.user_code_to_device_code)) [
            | inl h ↦
                rw (e, claim, h)
                  (inl (refl, failures-record_failure at user l ∙ ap (λ x. x ++ at ∷ []) kept, few))
            | inr (device_code, h) ↦
                let m = (live at device_code l).0 in
                let kept' = live-failures at device_code user l ∙ kept in
                elim (Option-cases (live at device_code l).1) [
                  | inl n ↦
                      rw (e, claim, h, n)
                        (inl (
                          refl,
                          failures-record_failure at user m ∙ ap (λ x. x ++ at ∷ []) kept',
                          few,
                        ))
                  | inr (r, n) ↦
                      let (same, valid) = claim_record-failures device_code user r r.binding m in
                      rw (e, claim, h, n) (inr (valid, same ∙ kept'))
                ]
          ]
    ]

invalids_bounded :
    (o : Settings) (user : String) (close : ℕ) (guesses : List (ℕ × String)) (s : Service)
    → All (λ g. (g.0 ≤ close) × (close < g.0 + o.approve_failure_window_ms)) guesses
    → invalids o user guesses s + recent o close (failures user s)
      ≤ max o.max_approve_failures (recent o close (failures user s))
unfolding IsCharged
invalids_bounded o user close [] s h = omega arith
invalids_bounded o user close ((at, code) ∷ guesses) s ((until, within), h) =
    let s' = (claim o at code user s).0 in
    let rest = invalids_bounded o user close guesses s' h in
    let older = recent_earlier o at close (failures user s) until in
    let pruned = recent-prune o at close (failures user s) until in
    elim (claim-IsCharged o at code user s) [
      | inl (is, after, few) ↦
          let counted : recent o close (failures user s') ≡ recent o close (failures user s) + 1 =
            ap (recent o close) after
            ∙ recent-append o close _ at (ground arith)
            ∙ ap (λ n. n + 1) pruned in
          rw is (omega (arith, rest, older, counted, few))
      | inr (isnt, after) ↦
          let counted : recent o close (failures user s') ≡ recent o close (failures user s) =
            ap (recent o close) after ∙ pruned in
          rw isnt (omega (arith, rest, older, counted))
    ]

-- Of the approvals that one user tries within a window, from a state where the user has no recorded
-- failure, in any order and with any codes pending, at most the limit are told that the code is
-- invalid.
pub invalids_le_limit :
    (o : Settings) (user : String) (close : ℕ) (guesses : List (ℕ × String)) (s : Service)
    → get user s.approve_failures ≡ none
    → All (λ g. (g.0 ≤ close) × (close < g.0 + o.approve_failure_window_ms)) guesses
    → invalids o user guesses s ≤ o.max_approve_failures
unfolding failures recent
invalids_le_limit o user close guesses s none_yet h =
    let clean : recent o close (failures user s) ≡ 0 = rw none_yet refl in
    omega (arith, clean, invalids_bounded o user close guesses s h)
