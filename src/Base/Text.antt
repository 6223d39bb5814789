-- ===== src/Base/Text.antt =====
-- Texts: the length that JavaScript gives, in UTF-16 units.
use Prim.Native.Char.{code}
use Prim.Native.Nat.{ℕ, ◌+◌}
use Prim.Native.String.{String}
use asad.Base.Tests.{ltb, if◌then◌else◌}

abbrev pub utf16_length : String → ℕ
utf16_length String.[] = 0
utf16_length (String.◌∷◌ c s) = (if ltb (code c) 65536 then 1 else 2) + utf16_length s
