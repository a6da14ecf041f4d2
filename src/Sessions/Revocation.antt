-- ===== src/Sessions/Revocation.antt =====
-- apps/relay/src/registry/session-registry.ts, endSessionsForDevice: the rows that it ends, and the ids
-- that it tells.
use telecode.Base.{
  ℕ, String, Bool, false, ◌≡◌, ◌↔◌, refl, sym, [], ◌∷◌, map, arith, any, filter, In, string_eq,
  Bool-cases, inl, inr, some,
}
use telecode.Base.Pointwise.{Pointwise, nothing, next}
use telecode.Protocol.Status.{SessionStatus}
use telecode.Sessions.{Row, Table, update_where, live_on, ended_row}
use telecode.Sessions.Terminal.{IsUnended, HasRow, live_on_iff}

pub none_live :
    (user device : String) (now : ℕ) (rows : Table)
    → any
        (live_on user device)
        (update_where (live_on user device) (ended_row SessionStatus.done now) rows)
      ≡ false
none_live user device now [] = refl
none_live user device now (r ∷ rows) = ground (arith, none_live user device now rows)

pub ended_nothing :
    (p : Row → Bool) (f : Row → Row) (rows : Table)
    → any p rows ≡ false
    → (update_where p f rows ≡ rows) × (filter p rows ≡ [])
ended_nothing p f [] h = (refl, refl)
ended_nothing p f (r ∷ rows) h = ground (arith, ended_nothing p f rows)

-- A row of the table, and what it becomes when the device is revoked.
pub data IsRevoked (user device : String) (now : ℕ) : Row → Row → Type 0 where
  retired :
      {r : Row}
      → IsUnended user device r
      → IsRevoked user device now r
          (record r { status = SessionStatus.done; ended_at = some now; updated_at = now })
  untouched : {r : Row} → ¬ IsUnended user device r → IsRevoked user device now r r

pub each-IsRevoked :
    (user device : String) (now : ℕ) (rows : Table)
    → Pointwise
        (IsRevoked user device now)
        rows
        (update_where (live_on user device) (ended_row SessionStatus.done now) rows)
each-IsRevoked user device now [] = nothing
each-IsRevoked user device now (r ∷ rows) = elim (Bool-cases (live_on user device r)) [
  | inl t ↦
      rw t (next (retired ((live_on_iff user device r).0 t)) (each-IsRevoked user device now rows))
  | inr t ↦ rw t (
      next (untouched (λ h. let l = (live_on_iff user device r).1 h in cc))
        (each-IsRevoked user device now rows))
]

-- The ids that are told are those of the rows that were ended.
pub reported :
    (user device session : String) (rows : Table)
    → In session (map (λ r. r.id) (filter (live_on user device) rows))
      ↔ HasRow (λ r. IsUnended user device r × (r.id ≡ session)) rows
reported user device session rows = (told rows, ended rows)
  where
    told :
        (xs : Table)
        → In session (map (λ r. r.id) (filter (live_on user device) xs))
        → HasRow (λ r. IsUnended user device r × (r.id ≡ session)) xs
    told [] m = absurd m
    told (x ∷ xs) m = elim (Bool-cases (live_on user device x)) [
      | inl t ↦
          let n : In session (x.id ∷ map (λ r. r.id) (filter (live_on user device) xs)) =
            rw t at m in
          elim n [
            | inl e ↦ (x, inl refl, ((live_on_iff user device x).0 t, sym e))
            | inr n ↦ let (r, k, p) = told xs n in (r, inr k, p)
          ]
      | inr t ↦ let (r, n, p) = told xs (rw t at m) in (r, inr n, p)
    ]

    ended :
        (xs : Table)
        → HasRow (λ r. IsUnended user device r × (r.id ≡ session)) xs
        → In session (map (λ r. r.id) (filter (live_on user device) xs))
    ended [] (r, m, p) = absurd m
    ended (x ∷ xs) (r, inl e, (l, i)) =
        let t = (live_on_iff user device x).1 (rw (← e) l) in rw t (inl (rw (← e) (sym i)))
    ended (x ∷ xs) (r, inr m, p) = elim (Bool-cases (live_on user device x)) [
      | inl t ↦ rw t (inr (ended xs (r, m, p)))
      | inr t ↦ rw t (ended xs (r, m, p))
    ]
