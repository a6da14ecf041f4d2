-- ===== src/Sessions/Terminal.antt =====
-- apps/relay/src/registry/session-registry.ts: which rows its guards select, in words of their own.
use telecode.Base.{
  String, Bool, true, false, [], ◌∷◌, any, ◌≡◌, ◌↔◌, refl, ◌⊎◌, inl, inr, arith, In, eq_iff,
  string_eq, Bool-cases,
}
use telecode.Protocol.Status.{SessionStatus, is_session_end_status}
use telecode.Sessions.{Row, Table, owned, owned_ended, live_on, is_live_status}

-- A status with which a session is over.
abbrev pub IsTerminal : SessionStatus → Type 0
IsTerminal s =
    (s ≡ SessionStatus.done)
    ⊎ ((s ≡ SessionStatus.error)
        ⊎ ((s ≡ SessionStatus.turn_limit) ⊎ (s ≡ SessionStatus.needs_restart)))

-- The user's session, such a session that is over, and one of the user's device that is not.
abbrev pub IsOf : String → String → Row → Type 0
IsOf user session r = (r.id ≡ session) × (r.user_id ≡ user)

abbrev pub IsOver : String → String → Row → Type 0
IsOver user session r = IsOf user session r × IsTerminal r.status

abbrev pub IsUnended : String → String → Row → Type 0
IsUnended user device r = (r.user_id ≡ user) × (r.device_id ≡ device) × ¬ IsTerminal r.status

abbrev pub HasRow : (Row → Type 0) → Table → Type 0
HasRow P rows = (r : Row) × In r rows × P r

is_session_end_status_iff : (s : SessionStatus) → (is_session_end_status s ≡ true) ↔ IsTerminal s
is_session_end_status_iff SessionStatus.starting = ground arith
is_session_end_status_iff SessionStatus.running = ground arith
is_session_end_status_iff SessionStatus.awaiting_input = ground arith
is_session_end_status_iff SessionStatus.done = ground arith
is_session_end_status_iff SessionStatus.error = ground arith
is_session_end_status_iff SessionStatus.offline_paused = ground arith
is_session_end_status_iff SessionStatus.turn_limit = ground arith
is_session_end_status_iff SessionStatus.needs_restart = ground arith
is_session_end_status_iff SessionStatus.waiting_local = ground arith

is_live_status_iff : (s : SessionStatus) → (is_live_status s ≡ true) ↔ (¬ IsTerminal s)
is_live_status_iff SessionStatus.starting = ground arith
is_live_status_iff SessionStatus.running = ground arith
is_live_status_iff SessionStatus.awaiting_input = ground arith
is_live_status_iff SessionStatus.done = ground arith
is_live_status_iff SessionStatus.error = ground arith
is_live_status_iff SessionStatus.offline_paused = ground arith
is_live_status_iff SessionStatus.turn_limit = ground arith
is_live_status_iff SessionStatus.needs_restart = ground arith
is_live_status_iff SessionStatus.waiting_local = ground arith

pub owned_iff :
    (user session : String) (r : Row) → (owned user session r ≡ true) ↔ IsOf user session r
owned_iff user session r = ground (arith, eq_iff r.id session, eq_iff r.user_id user)

pub owned_ended_iff :
    (user session : String) (r : Row) → (owned_ended user session r ≡ true) ↔ IsOver user session r
owned_ended_iff user session r =
    ground (arith, eq_iff r.id session, eq_iff r.user_id user, is_session_end_status_iff r.status)

pub live_on_iff :
    (user device : String) (r : Row) → (live_on user device r ≡ true) ↔ IsUnended user device r
live_on_iff user device r =
    ground (arith, eq_iff r.user_id user, eq_iff r.device_id device, is_live_status_iff r.status)

module _ (p : Row → Bool) (P : Row → Type 0) (each : (r : Row) → (p r ≡ true) ↔ P r) where
  found : (rows : Table) → any p rows ≡ true → HasRow P rows
  found [] h = absurd cc
  found (r ∷ rows) h = elim (Bool-cases (p r)) [
    | inl t ↦ (r, inl refl, (each r).0 t)
    | inr t ↦ let (s, m, q) = found rows (rw t at h) in (s, inr m, q)
  ]

  there : (rows : Table) → HasRow P rows → any p rows ≡ true
  there [] (r, m, q) = absurd m
  there (x ∷ rows) (r, inl e, q) = let t = (each x).1 (rw (← e) q) in rw t refl
  there (x ∷ rows) (r, inr m, q) = ground (arith, there rows (r, m, q))

  pub any_iff : (rows : Table) → (any p rows ≡ true) ↔ HasRow P rows
  any_iff rows = (found rows, there rows)

  pub none_iff : (rows : Table) → (any p rows ≡ false) ↔ (¬ HasRow P rows)
  none_iff rows = (
    λ h m. let t = there rows m in cc,
    λ n. elim (Bool-cases (any p rows)) [ inl t ↦ absurd (n (found rows t)) | inr t ↦ t ],
  )
