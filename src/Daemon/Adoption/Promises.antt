-- ===== src/Daemon/Adoption/Promises.antt =====
-- packages/daemon/src/adopt/adopted-sessions.ts: what becomes of the promises of ensureAdopted.
use telecode.Base.{
  ℕ, ◌+◌, ◌≤◌, String, Bool, true, false, Option, List, [], ◌∷◌, ltb, ◌≡◌, ◌==◌, nat_eq, string_eq,
}
use telecode.Daemon.Adoption.{AdoptedSessions}

abbrev pub one_if : Bool → ℕ
one_if true = 1
one_if false = 0

-- How often a key stands in a map, a promise waits in it, and a promise was settled.
abbrev times : String → List (String × ℕ) → ℕ
times k [] = 0
times k ((j, w) ∷ m) = one_if (j == k) + times k m

abbrev pub waiting : ℕ → List (String × ℕ) → ℕ
waiting w [] = 0
waiting w ((j, v) ∷ m) = one_if (v == w) + waiting w m

abbrev pub settlements : ℕ → List (ℕ × Option String) → ℕ
settlements w [] = 0
settlements w ((v, id) ∷ log) = one_if (v == w) + settlements w log

-- Every promise so far is waited for once or was settled once.
abbrev IsCounted : AdoptedSessions → Type 0
IsCounted a =
    ((k : String) → times k a.pending ≤ 1)
    × ((w : ℕ) → settlements w a.settled + waiting w a.pending ≡ one_if (ltb w a.promises))
