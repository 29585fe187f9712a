-- ===== src/Crypto/Totp/Stored.antt =====
-- The configuration and the code of a stored secret.
use mathlib.Core.Option
use passwd.Base.{
  ℕ, suc, ◌-◌, ◌/◌, ◌%◌, ◌^◌, ◌≤◌, ◌<◌, ◌≡◌, refl, Option, none, some, [], ◌∷◌, Text, Bytes, codes,
  length, arith, inl, inr, Bool-cases,
}
use passwd.Base.Numbers.{digits_value}
use passwd.Base.Outcome.{ok}
use passwd.Base.Strings.{trim}
use passwd.Crypto.Platform.{Platform}
use passwd.Crypto.Totp.{TotpConfig, algorithm_name, message, truncate, base32_decode}
use passwd.Crypto.Totp.Codes.{totp_code-digits}
use passwd.Crypto.Totp.Secrets.{
  digits_in, period_in, number_in, from_params, from_secret, parse_uri, parse_secret,
  parse_totp_secret, starts_with_small, totp_from_string,
}

-- What every configuration has.
pub record InBounds (cfg : TotpConfig) : Type 0 where
  pub six : 6 ≤ cfg.digits
  pub ten : cfg.digits ≤ 10
  pub positive : 0 < cfg.period
  pub minutes : cfg.period ≤ 300

-- Every configuration that is given is in bounds.
abbrev AllInBounds : Option TotpConfig → Type 0
AllInBounds none = Unit
AllInBounds (some cfg) = InBounds cfg

digits_in-bounds : (n : ℕ) → (6 ≤ digits_in n) × (digits_in n ≤ 10)
unfolding digits_in
digits_in-bounds n = (ground arith, ground arith)

period_in-bounds : (n : ℕ) → (0 < period_in n) × (period_in n ≤ 300)
unfolding period_in
period_in-bounds n = (ground arith, ground arith)

map-AllInBounds :
    (f : Bytes → TotpConfig)
    → ((secret : Bytes) → InBounds (f secret))
    → (decoded : Option Bytes) → AllInBounds (Option.map f decoded)
map-AllInBounds f h none = tt
map-AllInBounds f h (some secret) = h secret

module _ (upper : Text → Text) where
  parse_uri-AllInBounds :
      (params : Option (Text → Option Text)) → AllInBounds (parse_uri upper params)
  unfolding parse_uri
  parse_uri-AllInBounds none = tt
  parse_uri-AllInBounds (some get) =
      map-AllInBounds (from_params upper get)
        (λ secret.
          let (six, ten) = digits_in-bounds (number_in get (codes "digits") (codes "6")) in
          let (positive, minutes) =
            period_in-bounds (number_in get (codes "period") (codes "30")) in
          record { six = six; ten = ten; positive = positive; minutes = minutes })
        _

  module _ (parse_url : Text → Option (Text → Option Text)) where
    parse_secret-AllInBounds : (s : Text) → AllInBounds (parse_secret upper parse_url s)
    unfolding parse_secret
    parse_secret-AllInBounds [] = tt
    parse_secret-AllInBounds (c ∷ s) =
        elim (Bool-cases (starts_with_small (c ∷ s) (codes "otpauth://"))) [
          | inl uri ↦ rw uri (parse_uri-AllInBounds (parse_url (c ∷ s)))
          | inr bare ↦ rw bare (
              map-AllInBounds (from_secret upper)
                (λ secret. record {
                  six = omega arith;
                  ten = omega arith;
                  positive = omega arith;
                  minutes = omega arith;
                })
                (base32_decode upper (c ∷ s)))
        ]

    pub parse_totp_secret-InBounds :
        (stored : Text) {cfg : TotpConfig}
        → parse_totp_secret upper parse_url stored ≡ some cfg
        → InBounds cfg
    unfolding parse_totp_secret
    parse_totp_secret-InBounds stored h = rw h at (parse_secret-AllInBounds (trim stored))

    module _ (p : Platform) where
      -- Wherever a stored text is taken for a secret and the platform computes the MAC, there is a
      -- code for every time. It has the digits that the text asks for, which are from six to ten and
      -- spell the truncated MAC's remainder; the seconds left are at least one and at most the period,
      -- which is at most 300.
      pub totp_from_string-digits :
          (stored : Text) (cfg : TotpConfig) (now_ms : ℕ) (mac : Bytes)
          → parse_totp_secret upper parse_url stored ≡ some cfg
          → p.hmac (algorithm_name cfg.algorithm) cfg.secret (message (now_ms / 1000 / cfg.period))
            ≡ ok mac
          → (code : Text) × (left : ℕ) × (totp_from_string upper parse_url p stored now_ms
              ≡ ok (some (code, left, cfg.period)))
            × (length code ≡ cfg.digits)
            × (digits_value 10 0 code ≡ some (truncate mac % 10 ^ cfg.digits))
            × (6 ≤ length code)
            × (length code ≤ 10)
            × (0 < left)
            × (left ≤ cfg.period)
            × (cfg.period ≤ 300)
      unfolding totp_from_string
      totp_from_string-digits stored cfg now_ms mac parses macs =
          let b = parse_totp_secret-InBounds stored parses in
          let few : cfg.digits ≡ suc (cfg.digits - 1) = omega (arith, b.six) in
          let (code, left, computes, size, value, some_left, most) =
            totp_code-digits p cfg (cfg.digits - 1) now_ms mac few b.positive macs in
          (
            code,
            left,
            rw (parses, computes) refl,
            size,
            value,
            rw size b.six,
            rw size b.ten,
            some_left,
            most,
            b.minutes,
          )
