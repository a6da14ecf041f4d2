-- ===== src/Web/Transcript/Keys.antt =====
-- apps/web/src/lib/session.ts: the keys of a transcript's entries.
use telecode.Base.{
  ℕ, zero, suc, ◌+◌, List, [], ◌∷◌, ◌++◌, map, length, map-append, append_assoc, append-nil, ◌≡◌,
  refl, ◌∙◌, arith,
}
use telecode.Base.Pointwise.{Pointwise-map_eq}
use telecode.Protocol.History.{HistoryEntry}
use telecode.Web.Transcript.{
  EntryKey, numbered, TranscriptEntry, SessionState, map_history, map_history_entry,
}
use telecode.Web.Transcript.Log.{ViewOp, run}
use telecode.Web.Transcript.Lifecycle.{
  Evolves, stays, Advances, kept, grown, emptied, rebuilt, key_of,
}
use telecode.Web.Transcript.Lifecycle.Advance.{run_op-Advances}

-- `e0`, …, `e{n - 1}`.
abbrev pub keys_below : ℕ → List EntryKey
keys_below zero = []
keys_below (suc n) = keys_below n ++ (numbered n ∷ [])

-- The entries have the keys below the counter, each once and in order.
pub IsKeyed : SessionState → Type 0
IsKeyed s = map key_of s.entries ≡ keys_below s.seq

Evolves-key_of : {op : ViewOp} (e f : TranscriptEntry) → Evolves op e f → key_of f ≡ key_of e
Evolves-key_of _ _ stays = refl
Evolves-key_of _ _ _ = refl

key_of-map_history :
    (i j : ℕ) (es : List HistoryEntry)
    → i + length es ≡ j
    → keys_below i ++ map key_of (map_history i es) ≡ keys_below j
unfolding map_history
key_of-map_history i j [] h = let e : i ≡ j = omega arith in rw (append-nil (keys_below i), e) refl
key_of-map_history i j (e ∷ es) h =
    rw
      (
        own e i,
        ← append_assoc (keys_below i) (numbered i ∷ []) (map key_of (map_history (suc i) es)),
      )
      (key_of-map_history (suc i) j es (omega arith))
  where
    own : (e : HistoryEntry) (i : ℕ) → key_of (map_history_entry e (numbered i)) ≡ numbered i
    own e i = unfold map_history_entry in ground arith

Advances-IsKeyed : {op : ViewOp} {s t : SessionState} → Advances op s t → IsKeyed s → IsKeyed t
unfolding IsKeyed
Advances-IsKeyed (kept m k) h = rw k (Pointwise-map_eq key_of key_of Evolves-key_of m ∙ h)
Advances-IsKeyed (grown es e m own new g k) h =
    rw
      (g, k, map-append key_of es (e ∷ []), Pointwise-map_eq key_of key_of Evolves-key_of m, h, own)
      refl
Advances-IsKeyed (emptied o g k) h = rw (g, k) refl
Advances-IsKeyed (rebuilt {h = record_} o y p g k) h =
    rw (g, k) (key_of-map_history 0 (length record_.entries) record_.entries (omega arith))

-- Whatever the log of a view, its entries have the keys `e0`, `e1`, … below its counter, each
-- once and in order.
pub run-IsKeyed : (log : List ViewOp) → IsKeyed (run log)
unfolding run IsKeyed
run-IsKeyed [] = refl
run-IsKeyed (op ∷ log) = Advances-IsKeyed (run_op-Advances op (run log)) (run-IsKeyed log)
