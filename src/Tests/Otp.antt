-- ===== src/Tests/Otp.antt =====
-- One-time codes.
use passwd.Base.{
  ℕ, ◌+◌, ◌<◌, ◌≤◌, ◌%◌, ◌^◌, ◌≡◌, refl, Option, none, some, Text, Bytes, codes, length,
  if◌then◌else◌,
}
use passwd.Base.Equality.{equal}
use passwd.Base.Numbers.{digits_value}
use passwd.Base.Strings.{is_space, trim, trim_end}
use passwd.Base.Outcome.{ok}
use passwd.Crypto.Totp.{
  TotpConfig, sha1, message, truncate, base32_digit, decode_clean, base32_decode,
}
use passwd.Crypto.Totp.Base32.{Reads, spelled, decode_clean-Reads}
use passwd.Crypto.Totp.Secrets.{parse_totp_secret, totp_from_string}
use passwd.Crypto.Totp.Stored.{totp_from_string-digits}
use passwd.Tests.Toy.{toy, stretch, sum}

-- "MZXW6YTBOI" is "foobar".
base32_decode-foobar : base32_decode (λ s. s) (codes "MZXW6 YTBOI====") ≡ some (codes "foobar")
unfolding base32_decode base32_digit is_space
base32_decode-foobar = refl

decode_clean-Reads_example : Reads 4 (spelled 0 (codes "MZXW")) (decode_clean (codes "MZXW"))
decode_clean-Reads_example = decode_clean-Reads b'M' (codes "ZXW")

-- The parameters of one URI.
abbrev params : Text → Option Text
params key =
    if equal key (codes "secret")
    then some (codes "MZXW6YTBOI")
    else if equal key (codes "digits")
    then some (codes "8x")
    else if equal key (codes "period")
    then some (codes "600")
    else none

abbrev one_url : Text → Option (Text → Option Text)
one_url url = some params

abbrev pasted : Text
pasted = codes " OTPAUTH://totp/a"

abbrev read_config : TotpConfig
read_config = record { secret = codes "foobar"; algorithm = sha1; digits = 8; period = 30 }

-- A period that is too long is not taken.
parse_totp_secret-pasted : parse_totp_secret (λ s. s) one_url pasted ≡ some read_config
unfolding parse_totp_secret base32_decode base32_digit is_space trim trim_end
parse_totp_secret-pasted = refl

abbrev mac : Bytes
mac = stretch 32 (sum read_config.secret + sum (message 41152263))

totp_from_string-digits_example :
    (code : Text) × (left : ℕ) × (totp_from_string (λ s. s) one_url toy pasted 1234567890000
      ≡ ok (some (code, left, 30)))
    × (length code ≡ 8)
    × (digits_value 10 0 code ≡ some (truncate mac % 10 ^ 8))
    × (6 ≤ length code)
    × (length code ≤ 10)
    × (0 < left)
    × (left ≤ 30)
    × (30 ≤ 300)
totp_from_string-digits_example =
    totp_from_string-digits (λ s. s) one_url toy pasted read_config 1234567890000 mac
      parse_totp_secret-pasted refl
