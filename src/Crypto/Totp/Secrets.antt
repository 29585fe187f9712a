-- ===== src/Crypto/Totp/Secrets.antt =====
-- clients/packages/crypto/src/totp.ts: parseTotpSecret and totpFromString, the code of a stored secret.
-- `toUpperCase` and `new URL` are parameters.
use passwd.Base.{
  ℕ, ◌+◌, ◌-◌, Bool, true, false, ◌&&◌, Option, none, some, [], ◌∷◌, ◌++◌, leb, ltb, ◌==◌,
  if◌then◌else◌, Text, Bytes, codes, drop,
}
use mathlib.Core.Option
use passwd.Base.Decimal.{parse_int}
use passwd.Base.Equality.{equal}
use passwd.Base.Outcome.{Result, ok, ◌>>=◌}
use passwd.Base.Strings.{trim, starts_with_text}
use passwd.Crypto.Platform.{Platform}
use passwd.Crypto.Totp.{
  Algorithm, sha1, sha256, sha512, TotpConfig, algorithm_name, base32_decode, totp_code,
}

-- An ASCII letter in small, as a test with the flag `i` takes it.
abbrev small : ℕ → ℕ
small c = if leb b'A' c && leb c b'Z' then c - b'A' + b'a' else c

-- A test of the start, with the flag `i`, for a prefix in small letters.
unfoldable pub starts_with_small : Text → Text → Bool
starts_with_small s [] = true
starts_with_small [] (c ∷ prefix) = false
starts_with_small (d ∷ s) (c ∷ prefix) = small d == c && starts_with_small s prefix

-- `.replace("SHA", "SHA-")`
unfoldable pub with_dash : Text → Text
unfolding starts_with_text
with_dash [] = []
with_dash (c ∷ s) =
    let rest = c ∷ with_dash s in
    if starts_with_text (c ∷ s) (codes "SHA") then codes "SHA-" ++ drop 3 (c ∷ s) else rest

unfoldable pub algorithm_of : Text → Algorithm
unfolding equal
algorithm_of alg =
    if equal alg (algorithm_name sha256)
    then sha256
    else if equal alg (algorithm_name sha512)
    then sha512
    else sha1

unfoldable pub digits_in : ℕ → ℕ
digits_in n = if leb 6 n && leb n 10 then n else 6

unfoldable pub period_in : ℕ → ℕ
period_in n = if ltb 0 n && leb n 300 then n else 30

-- `params.get(key) ?? value`
abbrev or_else : Option Text → Text → Text
or_else none value = value
or_else (some t) value = t

-- `parseInt(params.get(key) ?? value, 10)`
abbrev pub number_in : (Text → Option Text) → Text → Text → ℕ
number_in get key value = parse_int (or_else (get key) value)

module _ (upper : Text → Text) where
  -- The configuration that the parameters of an URI ask for, with its secret.
  abbrev pub from_params : (Text → Option Text) → Bytes → TotpConfig
  from_params get secret = record {
    secret = secret;
    algorithm = algorithm_of (with_dash (upper (or_else (get (codes "algorithm")) (codes "SHA1"))));
    digits = digits_in (number_in get (codes "digits") (codes "6"));
    period = period_in (number_in get (codes "period") (codes "30"));
  }

  -- After `new URL`, which throws on what is not a URL: the reader of its parameters.
  unfoldable pub parse_uri : Option (Text → Option Text) → Option TotpConfig
  unfolding digits_in period_in algorithm_of with_dash parse_int base32_decode
  parse_uri none = none
  parse_uri (some get) =
      Option.map (from_params get) (base32_decode upper (or_else (get (codes "secret")) []))

  abbrev pub from_secret : Bytes → TotpConfig
  from_secret secret = record { secret = secret; algorithm = sha1; digits = 6; period = 30 }

  module _ (parse_url : Text → Option (Text → Option Text)) where
    -- The text with its white space taken off.
    unfoldable pub parse_secret : Text → Option TotpConfig
    unfolding starts_with_small parse_uri base32_decode
    parse_secret [] = none
    parse_secret (c ∷ s) =
        if starts_with_small (c ∷ s) (codes "otpauth://")
        then parse_uri (parse_url (c ∷ s))
        else Option.map from_secret (base32_decode upper (c ∷ s))

    unfoldable pub parse_totp_secret : Text → Option TotpConfig
    unfolding parse_secret trim
    parse_totp_secret input = parse_secret (trim input)

    module _ (p : Platform) where
      abbrev pub code_of : ℕ → Option TotpConfig → Result (Option (Text × ℕ × ℕ))
      code_of now_ms none = ok none
      code_of now_ms (some cfg) = totp_code p cfg now_ms >>= λ c. ok (some (c.0, c.1, cfg.period))

      unfoldable pub totp_from_string : Text → ℕ → Result (Option (Text × ℕ × ℕ))
      unfolding parse_totp_secret totp_code
      totp_from_string stored now_ms = code_of now_ms (parse_totp_secret stored)
