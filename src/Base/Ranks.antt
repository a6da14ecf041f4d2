-- ===== src/Base/Ranks.antt =====
-- A number for each text, with no two alike: an instance for orders and digests on texts.
use Prim.Native.Nat.{ℕ, suc, ◌+◌, ◌*◌, ◌<◌}
use Prim.Native.Char.{Char, char, code}
use Prim.Native.String.{String}
use mathlib.Core.Path.{◌≡◌, refl, ap₂}
use native.Mathlib.Omega.{arith}
use text.Mathlib.TextEquality.{Char-path}

code-lt : (c : Char) → code c < 1114112
code-lt (char n p) = ground arith

unfoldable pub rank : String → ℕ
rank String.[] = 0
rank (String.◌∷◌ c s) = suc (code c + 1114112 * rank s)

pub rank-injective : (a b : String) → rank a ≡ rank b → a ≡ b
unfolding rank
rank-injective String.[] String.[] h = refl
rank-injective String.[] (String.◌∷◌ d t) h = absurd (omega arith)
rank-injective (String.◌∷◌ c s) String.[] h = absurd (omega arith)
rank-injective (String.◌∷◌ c s) (String.◌∷◌ d t) h =
    ap₂ String.◌∷◌ (Char-path c d (omega (arith, code-lt c, code-lt d)))
      (rank-injective s t (omega (arith, code-lt c, code-lt d)))
