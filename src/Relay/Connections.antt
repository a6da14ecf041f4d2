-- ===== src/Relay/Connections.antt =====
-- apps/relay/src/relay.ts: the cap on concurrent WebSocket connections per client IP.
use telecode.Base.{
  ℕ, zero, suc, ◌+◌, ◌-◌, ◌≤◌, String, Bool, true, false, ◌≡◌, refl, ap, ◌∙◌, Option, none, some,
  List, [], ◌∷◌, arith, if◌then◌else◌, leb, or_else, Bool-cases, Option-cases, inl, inr, ◌==◌,
  string_eq, nat_eq, eq_iff, ==-self,
}
use mathlib.Core.Option.{some-injective}
use telecode.Base.Dict.{get, set, delete, get-set, get-delete}

-- The counts by IP, and the sockets that were accepted and have not closed, each with its IP.
pub record Connections : Type 0 where
  pub by_ip : List (String × ℕ)
  pub open_sockets : List (ℕ × String)

unfoldable pub no_connections : Connections
no_connections = record { by_ip = []; open_sockets = [] }

abbrev pub current : String → List (String × ℕ) → ℕ
current ip counts = or_else (get ip counts) 0

-- A connection at the limit is refused before it can register; else it is counted.
unfoldable pub connect : ℕ → ℕ → String → Connections → Connections × Bool
unfolding get set
connect limit socket ip c = if leb limit (current ip c.by_ip) then (c, false) else (
  record {
    by_ip = set ip (current ip c.by_ip + 1) c.by_ip;
    open_sockets = (socket, ip) ∷ c.open_sockets;
  },
  true,
)

abbrev pub remaining : String → List (String × ℕ) → ℕ
remaining ip counts = or_else (get ip counts) 1 - 1

abbrev pub uncount : String → List (String × ℕ) → List (String × ℕ)
uncount ip counts =
    if leb (remaining ip counts) 0 then delete ip counts else set ip (remaining ip counts) counts

abbrev pub without : ℕ → List (ℕ × String) → List (ℕ × String)
without socket [] = []
without socket ((s, ip) ∷ sockets) =
    if s == socket then sockets else (s, ip) ∷ without socket sockets

-- The `close` handler exists for accepted sockets alone, and fires once.
unfoldable pub close : ℕ → Connections → Connections
unfolding get set delete
close socket c = elim (get socket c.open_sockets) [
  | none ↦ c
  | some ip ↦ record { by_ip = uncount ip c.by_ip; open_sockets = without socket c.open_sockets }
]

abbrev pub count_open : String → List (ℕ × String) → ℕ
count_open ip [] = 0
count_open ip ((s, other) ∷ sockets) = (if other == ip then 1 else 0) + count_open ip sockets

pub data Call : Type 0 where
  connects : (socket : ℕ) (ip : String) → Call
  closes : (socket : ℕ) → Call

unfoldable pub run : ℕ → List Call → Connections → Connections
run limit [] c = c
run limit (connects socket ip ∷ calls) c = run limit calls (connect limit socket ip c).0
run limit (closes socket ∷ calls) c = run limit calls (close socket c)

-- What the map holds for a number of open sockets: no entry for none. The count of an IP is the number of its open sockets; an IP with none has no entry.
abbrev pub counted : ℕ → Option ℕ
counted zero = none
counted (suc n) = some (suc n)

pub record IsCounted (limit : ℕ) (c : Connections) : Type 0 where
  pub exact : (ip : String) → get ip c.by_ip ≡ counted (count_open ip c.open_sockets)
  pub capped : (ip : String) → count_open ip c.open_sockets ≤ limit

count_open-without :
    (socket : ℕ) (ip at : String) (sockets : List (ℕ × String))
    → get socket sockets ≡ some at
    → count_open ip sockets ≡ (if at == ip then 1 else 0) + count_open ip (without socket sockets)
unfolding get
count_open-without socket ip at [] h = cc
count_open-without socket ip at ((s, other) ∷ sockets) h = elim (Bool-cases (s == socket)) [
  | inl same ↦ rw same (
      ap (λ o. (if o == ip then 1 else 0) + count_open ip sockets)
        (some-injective _ _ (rw (same, get) at h)))
  | inr differs ↦
      rw differs (omega (arith, count_open-without socket ip at sockets (rw (differs, get) at h)))
]

current_counted : (n : ℕ) → or_else (counted n) 0 ≡ n
current_counted zero = refl
current_counted (suc n) = refl

counted_suc : (k : ℕ) → counted (1 + k) ≡ some (k + 1)
counted_suc k = let e : 1 + k ≡ suc k = omega arith in rw e (ap some (omega arith))

get-uncount :
    (ip other : String) (k : ℕ) (counts : List (String × ℕ))
    → get ip counts ≡ some (suc k)
    → get other (uncount ip counts) ≡ (if ip == other then counted k else get other counts)
get-uncount ip other zero counts h =
    let left : remaining ip counts ≡ 0 = rw h refl in rw (left, get-delete ip other counts)
get-uncount ip other (suc k) counts h =
    let left : remaining ip counts ≡ suc k = rw h (omega arith) in
    let more : leb (suc k) 0 ≡ false = ground arith in
    rw (left, more, get-set ip other (suc k) counts)

-- An open socket is counted for its IP.
count_open-found :
    (socket : ℕ) (ip : String) (sockets : List (ℕ × String))
    → get socket sockets ≡ some ip
    → count_open ip sockets ≡ suc (count_open ip (without socket sockets))
count_open-found socket ip sockets h =
    count_open-without socket ip ip sockets h ∙ rw (==-self ip) (omega arith)

connect-IsCounted :
    (limit socket : ℕ) (ip : String) (c : Connections)
    → IsCounted limit c
    → IsCounted limit (connect limit socket ip c).0
unfolding connect
connect-IsCounted limit socket ip c v = elim (Bool-cases (leb limit (current ip c.by_ip))) [
  | inl full ↦ rw full v
  | inr free ↦ rw free (record { exact = added; capped = within free })
]
  where
    now : current ip c.by_ip ≡ count_open ip c.open_sockets
    now = ap (λ o. or_else o 0) (v.exact ip) ∙ current_counted (count_open ip c.open_sockets)

    added :
        (other : String)
        → get other (set ip (current ip c.by_ip + 1) c.by_ip)
          ≡ counted ((if ip == other then 1 else 0) + count_open other c.open_sockets)
    added other = elim (Bool-cases (ip == other)) [
      | inl same ↦
          let k = count_open other c.open_sockets in
          let now' : current ip c.by_ip ≡ k =
            now ∙ ap (λ x. count_open x c.open_sockets) ((eq_iff ip other).0 same) in
          rw (get-set ip other (current ip c.by_ip + 1) c.by_ip, same, now', counted_suc k)
      | inr differs ↦
          let none_added : 0 + count_open other c.open_sockets ≡ count_open other c.open_sockets =
            omega arith in
          rw (get-set ip other (current ip c.by_ip + 1) c.by_ip, differs, none_added)
            (v.exact other)
    ]

    within :
        leb limit (current ip c.by_ip) ≡ false
        → (other : String)
        → (if ip == other then 1 else 0) + count_open other c.open_sockets ≤ limit
    within free other = elim (Bool-cases (ip == other)) [
      | inl same ↦ rw same (
          ground
            (arith, now, free, ap (λ x. count_open x c.open_sockets) ((eq_iff ip other).0 same)))
      | inr differs ↦ rw differs (omega (arith, v.capped other))
    ]

close-IsCounted :
    (limit socket : ℕ) (c : Connections) → IsCounted limit c → IsCounted limit (close socket c)
unfolding close
close-IsCounted limit socket c v = elim (Option-cases (get socket c.open_sockets)) [
  | inl e ↦ rw (e, close) v
  | inr (ip, e) ↦ rw (e, close) (record { exact = gone ip e; capped = within ip e })
]
  where
    gone :
        (ip : String)
        → get socket c.open_sockets ≡ some ip
        → (other : String)
        → get other (uncount ip c.by_ip)
          ≡ counted (count_open other (without socket c.open_sockets))
    gone ip e other =
        let k = count_open ip (without socket c.open_sockets) in
        let before : get ip c.by_ip ≡ some (suc k) =
          v.exact ip ∙ ap counted (count_open-found socket ip c.open_sockets e) in
        get-uncount ip other k c.by_ip before ∙ elim (Bool-cases (ip == other)) [
          | inl same ↦ rw same (
              ap (λ x. counted (count_open x (without socket c.open_sockets)))
                ((eq_iff ip other).0 same))
          | inr differs ↦
              let unchanged : count_open other c.open_sockets
                  ≡ count_open other (without socket c.open_sockets) =
                count_open-without socket other ip c.open_sockets e ∙ rw differs (omega arith) in
              rw differs (v.exact other ∙ ap counted unchanged)
        ]

    within :
        (ip : String)
        → get socket c.open_sockets ≡ some ip
        → (other : String) → count_open other (without socket c.open_sockets) ≤ limit
    within ip e other =
        omega (arith, count_open-without socket other ip c.open_sockets e, v.capped other)

run-IsCounted :
    (limit : ℕ) (calls : List Call) (c : Connections)
    → IsCounted limit c
    → IsCounted limit (run limit calls c)
unfolding run
run-IsCounted limit [] c v = v
run-IsCounted limit (connects socket ip ∷ calls) c v =
    run-IsCounted limit calls _ (connect-IsCounted limit socket ip c v)
run-IsCounted limit (closes socket ∷ calls) c v =
    run-IsCounted limit calls _ (close-IsCounted limit socket c v)

-- After any sequence of connections and closes the recorded count of each IP is the number of its
-- open sockets, with no entry for an IP that has none, and no IP has more than `limit` of them.
pub run_counts :
    (limit : ℕ) (calls : List Call) (ip : String)
    → let c = run limit calls no_connections in
      (get ip c.by_ip ≡ counted (count_open ip c.open_sockets))
      × (count_open ip c.open_sockets ≤ limit)
unfolding no_connections get
run_counts limit calls ip = (v.exact ip, v.capped ip)
  where
    v : IsCounted limit (run limit calls no_connections)
    v = run-IsCounted limit calls no_connections start
      where
        start : IsCounted limit no_connections
        start = record { exact = λ other. refl; capped = λ other. omega arith }
