-- ===== src/Base/Equality.antt =====
-- Equality of texts, character by character.
use mathlib.Core.Path.{◌≡◌, refl}
use mathlib.Core.Logic.{◌↔◌, ◌≢◌}
use mathlib.Core.Bool.{Bool, true, false, ◌&&◌}
use mathlib.Core.List.{[], ◌∷◌}
use native.Mathlib.Omega.{arith}
use passwd.Base.Tests.{◌==◌}
use passwd.Base.Lists.{Text}

-- `a === b` on strings.
unfoldable pub equal : Text → Text → Bool
equal [] [] = true
equal (x ∷ a) (y ∷ b) = x == y && equal a b
equal _ _ = false

pub equal_iff : (a b : Text) → (equal a b ≡ true) ↔ (a ≡ b)
unfolding equal
equal_iff (x ∷ a) (y ∷ b) = ground (arith, equal_iff a b)
equal_iff _ _ = ground arith

pub equal_refl : (a : Text) → equal a a ≡ true
equal_refl a = (equal_iff a a).1 refl

pub equal-false : (a b : Text) → equal a b ≡ false → a ≢ b
equal-false a b h same = let yes : equal a b ≡ true = (equal_iff a b).1 same in cc
