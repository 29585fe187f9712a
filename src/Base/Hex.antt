-- ===== src/Base/Hex.antt =====
-- `b.toString(16).padStart(2, "0")`, for each byte of an array.
use Prim.Native.Nat.{ℕ, ◌+◌, ◌/◌, ◌%◌}
use mathlib.Core.List.{[], ◌∷◌}
use passwd.Base.Tests.{ltb, if◌then◌else◌}
use passwd.Base.Lists.{Text, Bytes}

abbrev hex_digit : ℕ → ℕ
hex_digit d = if ltb d 10 then b'0' + d else 87 + d

unfoldable pub hex : Bytes → Text
hex [] = []
hex (b ∷ bs) = hex_digit (b / 16) ∷ hex_digit (b % 16) ∷ hex bs
