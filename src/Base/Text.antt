-- ===== src/Base/Text.antt =====
-- `length` of a JavaScript string: its UTF-16 code units.
use Prim.Native.Nat.{ℕ, ◌+◌}
use Prim.Native.Char.{code}
use Prim.Native.String.{String}
use telecode.Base.Tests.{ltb, if◌then◌else◌}

unfoldable pub units : String → ℕ
units String.[] = 0
units (String.◌∷◌ c s) = (if ltb (code c) 65536 then 1 else 2) + units s
