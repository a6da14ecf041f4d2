-- ===== src/Relay/Heartbeat.antt =====
-- apps/relay/src/relay.ts: the keepalive sweep, which terminates peers that have fallen silent.
use telecode.Base.{
  ℕ, zero, suc, ◌+◌, max, Bool, true, false, not, ◌||◌, ◌≡◌, refl, ◌∙◌, Option, none, some, List,
  [], ◌∷◌, ◌++◌, ◌<◌, arith, if◌then◌else◌, leb, or_else, inl, inr, ◌⊎◌,
}

-- The two `WeakMap` entries of a socket; a missing count reads as 0.
pub record Liveness : Type 0 where
  pub saw_inbound : Bool
  pub silent_rounds : Option ℕ

-- `none` is a configured value that is not finite, which falls back to the default 2.
unfoldable pub heartbeat_max_silent_rounds : Option ℕ → ℕ
heartbeat_max_silent_rounds none = 2
heartbeat_max_silent_rounds (some configured) = max 1 configured

unfoldable pub on_connect : Liveness
on_connect = record { saw_inbound = true; silent_rounds = some 0 }

unfoldable pub mark_inbound : Liveness → Liveness
mark_inbound s = record s { saw_inbound = true }

abbrev pub rounds_now : Liveness → ℕ
rounds_now s = if s.saw_inbound then 0 else or_else s.silent_rounds 0 + 1

abbrev pub swept : Liveness → Liveness
swept s = record { saw_inbound = false; silent_rounds = some (rounds_now s) }

-- One round for one socket: its new bookkeeping, and whether it is terminated. A ping that throws
-- terminates it too.
unfoldable pub sweep_socket : ℕ → Bool → Liveness → Liveness × Bool
sweep_socket max_rounds ping_ok s = (swept s, leb max_rounds (rounds_now s) || not ping_ok)

-- The round over all sockets, each with its bookkeeping.
unfoldable pub sweep : ℕ → (ℕ → Bool) → List (ℕ × Liveness) → List (ℕ × Liveness) × List ℕ
unfolding sweep_socket
sweep max_rounds ping_ok [] = ([], [])
sweep max_rounds ping_ok ((socket, s) ∷ sockets) =
    let (later, dropped) = sweep max_rounds ping_ok sockets in
    let (s', dead) = sweep_socket max_rounds (ping_ok socket) s in
    ((socket, s') ∷ later, if dead then socket ∷ dropped else dropped)

-- What happens to one socket after it connects.
pub data Event : Type 0 where
  inbound sweeps : Event

-- Whether a socket whose pings do not throw is terminated along the events.
unfoldable pub is_terminated : ℕ → Liveness → List Event → Bool
unfolding sweep_socket mark_inbound
is_terminated max_rounds s [] = false
is_terminated max_rounds s (inbound ∷ es) = is_terminated max_rounds (mark_inbound s) es
is_terminated max_rounds s (sweeps ∷ es) =
    let (s', dead) = sweep_socket max_rounds true s in dead || is_terminated max_rounds s' es

-- The reference: the number of sweeps since the last inbound activity, or since the connection,
-- goes above `max_rounds`.
unfoldable pub falls_silent : ℕ → ℕ → List Event → Bool
falls_silent max_rounds n [] = false
falls_silent max_rounds n (inbound ∷ es) = falls_silent max_rounds 0 es
falls_silent max_rounds n (sweeps ∷ es) =
    leb (suc max_rounds) (suc n) || falls_silent max_rounds (suc n) es

-- The bookkeeping after `n` sweeps with no inbound activity.
abbrev Counts : ℕ → Liveness → Type 0
Counts n s =
    ((s.saw_inbound ≡ true) × (n ≡ 0))
    ⊎ ((s.saw_inbound ≡ false) × (or_else s.silent_rounds 0 + 1 ≡ n))

is_terminated-falls_silent :
    (max_rounds n : ℕ) (s : Liveness) (es : List Event)
    → Counts n s
    → is_terminated max_rounds s es ≡ falls_silent max_rounds n es
unfolding is_terminated falls_silent
is_terminated-falls_silent max_rounds n s [] c = refl
is_terminated-falls_silent max_rounds n s (inbound ∷ es) c =
    is_terminated-falls_silent max_rounds 0 _ es (inl (refl, refl))
is_terminated-falls_silent max_rounds n s (sweeps ∷ es) (inl (seen, none_yet)) =
    ground (arith, is_terminated-falls_silent max_rounds 1 (swept s) es (inr (refl, rw seen refl)))
is_terminated-falls_silent max_rounds n s (sweeps ∷ es) (inr (unseen, count)) = ground (
  arith,
  is_terminated-falls_silent max_rounds (suc n) (swept s) es (inr (refl, rw unseen (omega arith))),
)

-- A connected socket whose pings do not throw is terminated exactly when, since its last inbound
-- activity or since it connected, more sweeps have passed than the configured number of rounds.
pub is_terminated_iff :
    (configured : Option ℕ) (es : List Event)
    → is_terminated (heartbeat_max_silent_rounds configured) on_connect es
      ≡ falls_silent (heartbeat_max_silent_rounds configured) 0 es
unfolding on_connect
is_terminated_iff configured es =
    is_terminated-falls_silent (heartbeat_max_silent_rounds configured) 0 on_connect es
      (inl (refl, refl))

abbrev pub silence : ℕ → List Event
silence zero = []
silence (suc n) = sweeps ∷ silence n

falls_silent_long :
    (max_rounds n k : ℕ) → max_rounds < n + k → 0 < k → falls_silent max_rounds n (silence k) ≡ true
unfolding falls_silent
falls_silent_long max_rounds n zero h p = absurd (omega arith)
falls_silent_long max_rounds n (suc zero) h p = ground arith
falls_silent_long max_rounds n (suc (suc k)) h p =
    ground (arith, falls_silent_long max_rounds (suc n) (suc k))

falls_silent-append :
    (max_rounds n : ℕ) (es : List Event)
    → falls_silent max_rounds n (es ++ silence (suc max_rounds)) ≡ true
unfolding falls_silent
falls_silent-append max_rounds n [] =
    falls_silent_long max_rounds n (suc max_rounds) (omega arith) (omega arith)
falls_silent-append max_rounds n (inbound ∷ es) = falls_silent-append max_rounds 0 es
falls_silent-append max_rounds n (sweeps ∷ es) =
    ground (arith, falls_silent-append max_rounds (suc n) es)

-- Whatever a socket did before, it is terminated by the end of one sweep more than the configured
-- number of rounds with no inbound activity: a connection that died without closing is detected.
pub is_terminated_at_last :
    (configured : Option ℕ) (es : List Event)
    → is_terminated
        (heartbeat_max_silent_rounds configured)
        on_connect
        (es ++ silence (suc (heartbeat_max_silent_rounds configured)))
      ≡ true
is_terminated_at_last configured es =
    is_terminated_iff configured _
    ∙ falls_silent-append (heartbeat_max_silent_rounds configured) 0 es
