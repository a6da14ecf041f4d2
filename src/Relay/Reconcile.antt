-- ===== src/Relay/Reconcile.antt =====
-- `reconcileSessions` retires exactly the sessions that the daemon has lost.
use telecode.Base.{
  not, ℕ, String, Bool, true, false, ◌&&◌, ◌||◌, ◌≡◌, refl, sym, ap, subst, ap₂, ◌∙◌, some, List,
  [], ◌∷◌, map, any, filter, if◌then◌else◌, arith, Bool-cases, inl, inr, In, All, ◌==◌, string_eq,
  eq_iff, ==-self,
}
use telecode.Protocol.Payload.{reconcile_payload}
use telecode.Protocol.Status.{EndStatus, SessionStatus, is_session_end_status}
use telecode.Sessions.{Row, Table, owned, ended_row}
use telecode.Sessions.Pages.{list_by_user, newest_first}
use telecode.Sessions.Mutation.{ends, apply}
use telecode.Sessions.Ordering.{any-newest_first}
use telecode.Sessions.Consistent.{HasUniqueIds, has_id}
use telecode.Relay.Hub.{
  Envelope, Hub, Environment, channel_key, session_ended_frame, broadcast_to_browsers,
  write_session,
}
use telecode.Relay.Daemon.{needs_restart_payload, is_stale, retire, reconcile_sessions}
use telecode.Relay.Isolation.Frames.{broadcast-sessions}

All-of-In : {P : Row → Type 0} (xs : List Row) → ((r : Row) → In r xs → P r) → All P xs
All-of-In [] f = tt
All-of-In (x ∷ xs) f = (f x (inl refl), All-of-In xs (λ r m. f r (inr m)))

map-All : (f g : Row → Row) (xs : List Row) → All (λ r. f r ≡ g r) xs → map f xs ≡ map g xs
map-All f g [] h = refl
map-All f g (x ∷ xs) h = ap₂ ◌∷◌ h.0 (map-All f g xs h.1)

map-map_row : (f g : Row → Row) (xs : List Row) → map f (map g xs) ≡ map (λ r. f (g r)) xs
map-map_row f g [] = refl
map-map_row f g (x ∷ xs) = ap (◌∷◌ (f (g x))) (map-map_row f g xs)

any-filter_and : (p q : Row → Bool) (xs : List Row) → any p (filter q xs) ≡ any (λ r. q r && p r) xs
any-filter_and p q [] = refl
any-filter_and p q (x ∷ xs) = ground (arith, any-filter_and p q xs)

any-In-false :
    (p : Row → Bool) (r : Row) (rows : Table) → any p rows ≡ false → In r rows → p r ≡ false
any-In-false p r [] h m = absurd m
any-In-false p r (x ∷ rows) h (inl e) = rw e (ground arith)
any-In-false p r (x ∷ rows) h (inr m) = any-In-false p r rows (ground arith) m

any_and_false :
    (q : Row → Bool) (id : String) (rows : Table)
    → any (has_id id) rows ≡ false
    → any (λ x. q x && x.id == id) rows ≡ false
any_and_false q id [] h = refl
any_and_false q id (x ∷ rows) h = ground (arith, any_and_false q id rows)

-- Among rows with unique ids, the row itself is the one with its id.
any_itself :
    (q : Row → Bool) (r : Row) (rows : Table)
    → HasUniqueIds rows
    → In r rows
    → any (λ x. q x && x.id == r.id) rows ≡ q r
any_itself q r [] u m = absurd m
any_itself q r (x ∷ rows) u (inl e) =
    subst (λ y. any (λ z. q z && z.id == y.id) (x ∷ rows) ≡ q y) (sym e)
      (ground (arith, any_and_false q x.id rows u.0, ==-self x.id))
any_itself q r (x ∷ rows) u (inr m) =
    let apart = any-In-false (has_id x.id) r rows u.0 m in
    ground (arith, any_itself q r rows u.1 m, apart, eq_iff x.id r.id, eq_iff r.id x.id)

-- A row is ended where its user's row of that id is in the list.
abbrev ended_among : String → ℕ → List Row → Row → Row
ended_among user now lost r =
    if r.user_id == user && any (λ x. x.id == r.id) lost
    then ended_row SessionStatus.needs_restart now r
    else r

map-unchanged : (user : String) (now : ℕ) (rows : Table) → map (ended_among user now []) rows ≡ rows
map-unchanged user now [] = refl
map-unchanged user now (r ∷ rows) =
    ap₂ ◌∷◌ (elim (Bool-cases (r.user_id == user)) [ inl e ↦ rw e refl | inr e ↦ rw e refl ])
      (map-unchanged user now rows)

-- Ending a row, then those of a list, is ending those of the longer list.
ended_among-ended :
    (user : String) (now : ℕ) (x r : Row) (lost : List Row)
    → ended_among user now lost
        (if owned user x.id r then ended_row SessionStatus.needs_restart now r else r)
      ≡ ended_among user now (x ∷ lost) r
ended_among-ended user now x r lost = elim (Bool-cases (r.user_id == user)) [
  | inr theirs ↦ elim (Bool-cases (r.id == x.id)) [
    | inl same ↦ rw (theirs, same, theirs) refl
    | inr other ↦ rw (theirs, other, theirs) refl
  ]
  | inl mine ↦ elim (Bool-cases (r.id == x.id)) [
    | inl same ↦
        let same' : (x.id == r.id) ≡ true = ground (arith, eq_iff r.id x.id, eq_iff x.id r.id) in
        elim (Bool-cases (any (λ y. y.id == r.id) lost)) [
          | inl l ↦ rw (same, mine, mine, same', l) refl
          | inr l ↦ rw (same, mine, mine, same', l) refl
        ]
    | inr other ↦
        let other' : (x.id == r.id) ≡ false = ground (arith, eq_iff r.id x.id, eq_iff x.id r.id) in
        rw (other, mine, other') refl
  ]
]

retire-sessions :
    (env : Environment) (now : ℕ) (user device : String) (lost : List Row) (h : Hub)
    → (retire env now user device lost h).sessions ≡ map (ended_among user now lost) h.sessions
unfolding retire write_session apply
retire-sessions env now user device [] h = sym (map-unchanged user now h.sessions)
retire-sessions env now user device (x ∷ lost) h =
    let h₁ = write_session user now (ends x.id EndStatus.needs_restart) h in
    let frame =
      session_ended_frame user device x.id SessionStatus.needs_restart needs_restart_payload in
    let h₂ = broadcast_to_browsers env (channel_key user device) frame h₁ in
    retire-sessions env now user device lost h₂
    ∙ ap (map (ended_among user now lost))
        (broadcast-sessions env (channel_key user device) frame h₁)
    ∙ map-map_row (ended_among user now lost) _ h.sessions
    ∙ map-All _ _ h.sessions (All-of-In h.sessions (λ r m. ended_among-ended user now x r lost))

and_assoc : (a b c : Bool) → (a && (b && c)) ≡ ((a && b) && c)
and_assoc true b c = refl
and_assoc false b c = refl

lost_itself :
    (env : Environment) (user device : String) (held : List String) (r : Row) (rows : Table)
    → HasUniqueIds rows
    → In r rows
    → any
        (λ x. x.id == r.id)
        (filter (is_stale device held) (list_by_user env.uuid_value user rows))
      ≡ (r.user_id == user && is_stale device held r)
unfolding list_by_user
lost_itself env user device held r rows u m =
    let mine = filter (λ x. x.user_id == user) rows in
    any-filter_and (λ x. x.id == r.id) (is_stale device held) (newest_first env.uuid_value mine)
    ∙ any-newest_first env.uuid_value (λ x. is_stale device held x && x.id == r.id) mine
    ∙ any-filter_and (λ x. is_stale device held x && x.id == r.id) (λ x. x.user_id == user) rows
    ∙ any_assoc rows
    ∙ any_itself (λ x. x.user_id == user && is_stale device held x) r rows u m
  where
    any_assoc :
        (xs : Table)
        → any (λ x. x.user_id == user && (is_stale device held x && x.id == r.id)) xs
          ≡ any (λ x. (x.user_id == user && is_stale device held x) && x.id == r.id) xs
    any_assoc [] = refl
    any_assoc (x ∷ xs) =
        ap₂ ◌||◌ (and_assoc (x.user_id == user) (is_stale device held x) (x.id == r.id))
          (any_assoc xs)

-- A turn is running or waits for somebody: the session is neither ended, nor only launched, nor paused.
abbrev pub is_in_progress : SessionStatus → Bool
is_in_progress SessionStatus.starting = false
is_in_progress SessionStatus.offline_paused = false
is_in_progress status = not (is_session_end_status status)

-- A session in progress on the device that the daemon does not hold is ended as needing a restart.
abbrev pub reconciled : String → String → List String → ℕ → Row → Row
reconciled user device held now r =
    if r.user_id == user
      && (r.device_id == device && (not (any (λ id. id == r.id) held) && is_in_progress r.status))
    then ended_row SessionStatus.needs_restart now r
    else r

is_stale-in_progress :
    (device : String) (held : List String) (r : Row)
    → is_stale device held r
      ≡ (r.device_id == device && (not (any (λ id. id == r.id) held) && is_in_progress r.status))
is_stale-in_progress device held r =
    ap (λ b. r.device_id == device && (not (any (λ id. id == r.id) held) && b)) (of_status r.status)
  where
    of_status :
        (s : SessionStatus)
        → (elim s [
          | SessionStatus.running ↦ true
          | SessionStatus.awaiting_input ↦ true
          | SessionStatus.waiting_local ↦ true
          | _ ↦ false
        ])
          ≡ is_in_progress s
    of_status SessionStatus.starting = refl
    of_status SessionStatus.running = refl
    of_status SessionStatus.awaiting_input = refl
    of_status SessionStatus.done = refl
    of_status SessionStatus.error = refl
    of_status SessionStatus.offline_paused = refl
    of_status SessionStatus.turn_limit = refl
    of_status SessionStatus.needs_restart = refl
    of_status SessionStatus.waiting_local = refl

reconciled-lost :
    (env : Environment) (now : ℕ) (user device : String) (held : List String) (r : Row)
    (rows : Table)
    → HasUniqueIds rows
    → In r rows
    → ended_among user now (filter (is_stale device held) (list_by_user env.uuid_value user rows)) r
      ≡ reconciled user device held now r
reconciled-lost env now user device held r rows u m =
    ap (λ b. if r.user_id == user && b then ended_row SessionStatus.needs_restart now r else r)
      (lost_itself env user device held r rows u m)
    ∙ elim (Bool-cases (r.user_id == user)) [
      | inl e ↦ rw (e, is_stale-in_progress device held r) refl
      | inr e ↦ rw e refl
    ]

-- A reconciliation whose payload is valid ends, as needing a restart, each session of the user on the
-- device that is in progress and that the daemon does not hold, and leaves every other row as it
-- was, those that are starting included. The ids of the rows are unique.
pub reconcile_sessions_exact :
    (env : Environment) (now : ℕ) (e : Envelope) (held : List String) (h : Hub)
    → reconcile_payload e.payload ≡ some held
    → HasUniqueIds h.sessions
    → (reconcile_sessions env now e h).sessions
      ≡ map (reconciled e.user_id e.device_id held now) h.sessions
unfolding reconcile_sessions
reconcile_sessions_exact env now e held h p u =
    let lost =
      filter (is_stale e.device_id held) (list_by_user env.uuid_value e.user_id h.sessions) in
    rw (p, reconcile_sessions)
      (retire-sessions env now e.user_id e.device_id lost h
        ∙ map-All (ended_among e.user_id now lost) (reconciled e.user_id e.device_id held now)
            h.sessions
            (All-of-In h.sessions
              (λ r m. reconciled-lost env now e.user_id e.device_id held r h.sessions u m)))
