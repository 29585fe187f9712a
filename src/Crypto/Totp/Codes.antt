-- ===== src/Crypto/Totp/Codes.antt =====
-- The digits of a one-time code.
use passwd.Base.{
  ℕ, zero, suc, ◌+◌, ◌-◌, ◌/◌, ◌%◌, ◌^◌, ◌≤◌, ◌<◌, ◌≡◌, refl, sym, ◌∙◌, some, [], ◌∷◌, Text, Bytes,
  length, arith,
}
use native.Mathlib.Nat.{pow-suc, one-le-pow, mod-lt}
use passwd.Base.Decimal.{decimal, digits_onto, natural_of-decimal, natural_of-digits_value}
use passwd.Base.Numbers.{digits_value, digit_value}
use passwd.Base.Outcome.{ok}
use passwd.Crypto.Platform.{Platform}
use passwd.Crypto.Totp.{
  TotpConfig, zeros, pad_start, print_code, truncate, message, algorithm_name, hotp, totp_code,
}

length-digits_onto :
    (fuel n d : ℕ) (s : Text) → n < 10 ^ suc d → length (digits_onto fuel n s) ≤ suc d + length s
unfolding digits_onto
length-digits_onto zero n d s h = omega arith
length-digits_onto (suc fuel) n zero s h = ground arith
length-digits_onto (suc fuel) n (suc d) s h =
    let shorter : n / 10 < 10 ^ suc d = omega (arith, h, pow-suc 10 (suc d)) in
    ground (arith, length-digits_onto fuel (n / 10) d ((b'0' + n % 10) ∷ s) shorter)

length-decimal : (n d : ℕ) → n < 10 ^ suc d → length (decimal n) ≤ suc d
unfolding decimal
length-decimal n d h = omega (arith, length-digits_onto (suc n) n d [] h)

length-zeros : (n : ℕ) (s : Text) → length (zeros n s) ≡ n + length s
unfolding zeros
length-zeros zero s = omega arith
length-zeros (suc n) s = omega (arith, length-zeros n s)

digits_value-zeros : (n : ℕ) (s : Text) → digits_value 10 0 (zeros n s) ≡ digits_value 10 0 s
unfolding zeros digits_value digit_value
digits_value-zeros zero s = refl
digits_value-zeros (suc n) s = digits_value-zeros n s

-- The printed code has exactly the digits asked for, and they spell the truncated number's
-- remainder.
print_code-digits :
    (d bin : ℕ)
    → (length (print_code (suc d) bin) ≡ suc d)
      × (digits_value 10 0 (print_code (suc d) bin) ≡ some (bin % 10 ^ suc d))
unfolding print_code pad_start
print_code-digits d bin =
    let below : bin % 10 ^ suc d < 10 ^ suc d = mod-lt bin (one-le-pow (suc d) 10 (omega arith)) in
    let short = length-decimal (bin % 10 ^ suc d) d below in
    (
      omega (
        arith,
        short,
        length-zeros (suc d - length (decimal (bin % 10 ^ suc d))) (decimal (bin % 10 ^ suc d)),
      ),
      digits_value-zeros _ _
          ∙ (sym (natural_of-digits_value (bin % 10 ^ suc d))
              ∙ natural_of-decimal (bin % 10 ^ suc d)),
    )

module _ (p : Platform) where
  -- Wherever the platform computes the MAC, with at least one digit and a positive period, there is
  -- a code for every time. It has exactly the digits asked for, which spell the truncated MAC's
  -- remainder, and the seconds left are at least one and at most the period.
  pub totp_code-digits :
      (cfg : TotpConfig) (d now_ms : ℕ) (mac : Bytes)
      → cfg.digits ≡ suc d
      → 0 < cfg.period
      → p.hmac (algorithm_name cfg.algorithm) cfg.secret (message (now_ms / 1000 / cfg.period))
        ≡ ok mac
      → (code : Text) × (left : ℕ) × (totp_code p cfg now_ms ≡ ok (code, left))
        × (length code ≡ cfg.digits)
        × (digits_value 10 0 code ≡ some (truncate mac % 10 ^ cfg.digits))
        × (0 < left)
        × (left ≤ cfg.period)
  unfolding totp_code hotp message
  totp_code-digits cfg d now_ms mac few positive macs =
      let left = cfg.period - now_ms / 1000 % cfg.period in
      let below : now_ms / 1000 % cfg.period < cfg.period = mod-lt (now_ms / 1000) positive in
      let (size, value) = print_code-digits d (truncate mac) in
      (
        print_code cfg.digits (truncate mac),
        left,
        rw macs,
        rw few size,
        rw few value,
        omega (arith, below),
        omega arith,
      )
