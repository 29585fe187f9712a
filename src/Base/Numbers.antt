-- ===== src/Base/Numbers.antt =====
-- `Number(text)` of JavaScript, as far as the clients look at it: whether it is 1.
use Prim.Native.Nat.{ℕ, ◌+◌, ◌-◌, ◌*◌, ◌^◌}
use mathlib.Core.Bool.{Bool, true, false, ◌&&◌, ◌||◌}
use mathlib.Core.List.{[], ◌∷◌}
use mathlib.Core.Option.{Option, none, some}
use passwd.Base.Tests.{◌==◌, leb, ltb, if◌then◌else◌}
use passwd.Base.Lists.{Text}
use passwd.Base.Strings.{trim}

-- The value of a digit, letters included, as in a hexadecimal literal.
unfoldable pub digit_value : ℕ → ℕ
digit_value c =
    if leb b'0' c && leb c b'9'
    then c - 48
    else if leb b'a' c && leb c b'f'
    then c - 87
    else if leb b'A' c && leb c b'F'
    then c - 55
    else 99

-- The value of a text of digits, behind those already read; `none` at any other code unit.
unfoldable pub digits_value : ℕ → ℕ → Text → Option ℕ
digits_value base acc [] = some acc
digits_value base acc (c ∷ s) =
    let rest = digits_value base (acc * base + digit_value c) s in
    if ltb (digit_value c) base then rest else none

-- A non-empty text of digits in the given base whose value is 1.
unfoldable pub literal_is_one : ℕ → Text → Bool
unfolding digits_value digit_value
literal_is_one base [] = false
literal_is_one base (c ∷ s) = elim (digits_value base 0 (c ∷ s)) [ none ↦ false | some v ↦ v == 1 ]

-- The text up to an exponent mark, and what follows it.
cut_exponent : Text → Text × Option Text
cut_exponent [] = ([], none)
cut_exponent (c ∷ s) =
    let (mantissa, exponent) = cut_exponent s in
    if c == b'e' || c == b'E' then ([], some s) else (c ∷ mantissa, exponent)

decimal_value : Text → Option ℕ
decimal_value [] = none
decimal_value (c ∷ s) = digits_value 10 0 (c ∷ s)

-- Whether d * 10 ^ e, or d * 10 ^ -e, is rounded to the double 1: it lies no farther from 1 than
-- half the gap to the next double, 2 ^ -54 below and 2 ^ -53 above.
scaled_is_one : Bool → Option ℕ → Option ℕ → Bool
scaled_is_one negative none e = false
scaled_is_one negative (some d) none = false
scaled_is_one false (some d) (some e) = d * 10 ^ e == 1
scaled_is_one true (some d) (some e) =
    leb ((2 ^ 54 - 1) * 10 ^ e) (d * 2 ^ 54) && leb (d * 2 ^ 54) ((2 ^ 54 + 2) * 10 ^ e)

exponent_is_one : Option ℕ → Text → Bool
exponent_is_one d [] = false
exponent_is_one d (c ∷ s) =
    if c == b'-'
    then scaled_is_one true d (decimal_value s)
    else if c == b'+'
    then scaled_is_one false d (decimal_value s)
    else scaled_is_one false d (decimal_value (c ∷ s))

decimal_is_one : Text × Option Text → Bool
decimal_is_one (mantissa, none) = literal_is_one 10 mantissa
decimal_is_one (mantissa, some exponent) = exponent_is_one (decimal_value mantissa) exponent

-- After the sign: a decimal literal with no point.
unsigned_is_one : Text → Bool
unsigned_is_one s = decimal_is_one (cut_exponent s)

prefixed_is_one : ℕ → Text → Bool
prefixed_is_one c s =
    if c == b'x' || c == b'X'
    then literal_is_one 16 s
    else if c == b'o' || c == b'O'
    then literal_is_one 8 s
    else if c == b'b' || c == b'B'
    then literal_is_one 2 s
    else unsigned_is_one (b'0' ∷ c ∷ s)

trimmed_is_one : Text → Bool
trimmed_is_one [] = false
trimmed_is_one (c ∷ []) = unsigned_is_one (c ∷ [])
trimmed_is_one (c ∷ d ∷ s) =
    if c == b'0'
    then prefixed_is_one d s
    else if c == b'+'
    then unsigned_is_one (d ∷ s)
    else unsigned_is_one (c ∷ d ∷ s)

-- `Number(s) === 1`, for a text with no decimal point (a negative number is never 1).
unfoldable pub number_is_one : Text → Bool
unfolding trimmed_is_one prefixed_is_one unsigned_is_one decimal_is_one exponent_is_one
    scaled_is_one decimal_value cut_exponent literal_is_one trim
number_is_one s = trimmed_is_one (trim s)
