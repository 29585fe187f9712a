-- ===== src/Base/Decimal.antt =====
-- `String(n)` of a natural number, and reading it back.
use Prim.Native.Nat.{ℕ, zero, suc, ◌+◌, ◌-◌, ◌*◌, ◌/◌, ◌%◌, ◌<◌}
use mathlib.Core.List.{[], ◌∷◌}
use mathlib.Core.Logic.{inl, inr}
use mathlib.Core.Option.{Option, none, some}
use mathlib.Core.Path.{◌≡◌, refl, ◌∙◌}
use native.Mathlib.Omega.{arith}
use mathlib.Core.Bool.{◌&&◌}
use passwd.Base.Tests.{ltb, leb, ◌==◌, if◌then◌else◌, Bool-cases}
use passwd.Base.Strings.{trim_start}
use passwd.Base.Lists.{Text}
use passwd.Base.Numbers.{digits_value, digit_value}

-- The digits of `n` in front of `s`, on fuel; `n` itself is fuel enough.
unfoldable pub digits_onto : ℕ → ℕ → Text → Text
digits_onto zero n s = s
digits_onto (suc fuel) n s =
    let more = digits_onto fuel (n / 10) ((b'0' + n % 10) ∷ s) in
    if ltb n 10 then (b'0' + n) ∷ s else more

unfoldable pub decimal : ℕ → Text
unfolding digits_onto
decimal n = digits_onto (suc n) n []

-- The natural number that a text of decimal digits spells.
unfoldable pub natural_of : Text → Option ℕ
unfolding digits_value digit_value
natural_of [] = none
natural_of (c ∷ s) = digits_value 10 0 (c ∷ s)

digits_value-digit :
    (d acc : ℕ) (s : Text)
    → d < 10
    → digits_value 10 acc ((b'0' + d) ∷ s) ≡ digits_value 10 (acc * 10 + d) s
unfolding digits_value digit_value
digits_value-digit d acc s h = ground arith

digits_value-digits_onto :
    (fuel n : ℕ) (s : Text)
    → n < fuel
    → digits_value 10 0 (digits_onto fuel n s) ≡ digits_value 10 n s
unfolding digits_onto
digits_value-digits_onto zero n s h = absurd (omega arith)
digits_value-digits_onto (suc fuel) n s h = elim (Bool-cases (ltb n 10)) [
  | inl small ↦ rw small (ground (arith, digits_value-digit n 0 s))
  | inr large ↦ rw large (
      ground (
        arith,
        digits_value-digits_onto fuel (n / 10) ((b'0' + n % 10) ∷ s),
        digits_value-digit (n % 10) (n / 10) s,
      ))
]

digits_onto-cons :
    (fuel n c : ℕ) (s : Text)
    → natural_of (digits_onto fuel n (c ∷ s)) ≡ digits_value 10 0 (digits_onto fuel n (c ∷ s))
unfolding digits_onto natural_of
digits_onto-cons zero n c s = refl
digits_onto-cons (suc fuel) n c s =
    ground (arith, digits_onto-cons fuel (n / 10) (b'0' + n % 10) (c ∷ s))

pub natural_of-digits_value : (n : ℕ) → natural_of (decimal n) ≡ digits_value 10 0 (decimal n)
unfolding decimal digits_onto natural_of
natural_of-digits_value n = elim (Bool-cases (ltb n 10)) [
  | inl small ↦ rw small
  | inr large ↦ rw large (digits_onto-cons n (n / 10) (b'0' + n % 10) [])
]

-- Every natural number is read back from its print.
pub natural_of-decimal : (n : ℕ) → natural_of (decimal n) ≡ some n
natural_of-decimal n =
    natural_of-digits_value n
    ∙ unfold decimal digits_value in digits_value-digits_onto (suc n) n [] (omega arith)

-- The value of the decimal digits at the start of a text, behind those that are read.
unfoldable pub leading_digits : ℕ → Text → ℕ
leading_digits acc [] = acc
leading_digits acc (c ∷ s) =
    let rest = leading_digits (acc * 10 + (c - b'0')) s in
    if leb b'0' c && leb c b'9' then rest else acc

unfoldable pub signed_digits : Text → ℕ
unfolding leading_digits
signed_digits [] = 0
signed_digits (c ∷ s) =
    if c == b'-' then 0 else if c == b'+' then leading_digits 0 s else leading_digits 0 (c ∷ s)

-- `parseInt(s, 10)`, with 0 for NaN and for a negative number, which the callers take alike.
unfoldable pub parse_int : Text → ℕ
unfolding signed_digits trim_start
parse_int s = signed_digits (trim_start s)
