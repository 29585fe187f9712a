-- ===== src/Crypto/Totp.antt =====
-- clients/packages/crypto/src/totp.ts: one-time codes for the sites that an item is for.
pub mod Codes
pub mod Base32
pub mod Secrets
pub mod Stored
use passwd.Base.{
  ℕ, zero, suc, ◌+◌, ◌-◌, ◌*◌, ◌/◌, ◌%◌, ◌^◌, Bool, ◌&&◌, ◌||◌, Option, none, some, List, [], ◌∷◌,
  ◌++◌, leb, ltb, ◌==◌, if◌then◌else◌, Text, Bytes, codes, length, get_or,
}
use passwd.Base.Decimal.{decimal}
use passwd.Base.Outcome.{Result, ok, throw, ◌>>=◌}
use passwd.Base.Strings.{is_space}
use passwd.Crypto.Platform.{Platform}

pub data Algorithm : Type 0 where
  sha1 sha256 sha512 : Algorithm

pub record TotpConfig : Type 0 where
  pub secret : Bytes
  pub algorithm : Algorithm
  pub digits : ℕ
  pub period : ℕ

abbrev pub algorithm_name : Algorithm → Text
algorithm_name sha1 = codes "SHA-1"
algorithm_name sha256 = codes "SHA-256"
algorithm_name sha512 = codes "SHA-512"

-- `alphabet.indexOf(ch)`
unfoldable pub base32_digit : ℕ → Option ℕ
base32_digit c =
    if leb b'A' c && leb c b'Z'
    then some (c - b'A')
    else if leb b'2' c && leb c b'7'
    then some (c - b'2' + 26)
    else none

-- `.replace(/[\s-]/g, "")`
unfoldable pub without_separators : Text → Text
without_separators [] = []
without_separators (c ∷ s) =
    let rest = without_separators s in if is_space c || c == b'-' then rest else c ∷ rest

-- A character in front of a text that has lost its padding.
unfoldable pub before_padding : ℕ → Text → Text
before_padding c [] = if c == b'=' then [] else c ∷ []
before_padding c (d ∷ s) = c ∷ d ∷ s

-- `.replace(/=+$/, "")`
unfoldable pub without_padding : Text → Text
unfolding before_padding
without_padding [] = []
without_padding (c ∷ s) = before_padding c (without_padding s)

-- The variables of `base32Decode`. `value` is a number of 32 bits: the shift loses its high bits.
pub record Decoder : Type 0 where
  pub bits : ℕ
  pub value : ℕ
  pub out : Bytes

-- One turn of the loop, at a digit below 32.
unfoldable pub take_digit : ℕ → Decoder → Decoder
take_digit x d =
    let value = (d.value * 32 + x) % 2 ^ 32 in
    if leb 8 (d.bits + 5)
    then record {
      bits = d.bits + 5 - 8;
      value = value;
      out = d.out ++ (value / 2 ^ (d.bits + 5 - 8) % 256 ∷ []);
    }
    else record { bits = d.bits + 5; value = value; out = d.out }

unfoldable pub decode_digits : Text → Decoder → Option Bytes
unfolding take_digit
decode_digits [] d = some d.out
decode_digits (c ∷ s) d = elim (base32_digit c) [
  | none ↦ none
  | some x ↦ decode_digits s (take_digit x d)
]

unfoldable pub decode_clean : Text → Option Bytes
unfolding decode_digits
decode_clean [] = none
decode_clean (c ∷ s) = decode_digits (c ∷ s) (record { bits = 0; value = 0; out = [] })

-- `toUpperCase` is Unicode's, and a parameter.
unfoldable pub base32_decode : (Text → Text) → Text → Option Bytes
unfolding without_padding without_separators decode_clean
base32_decode upper s = decode_clean (without_padding (without_separators (upper s)))

-- The big-endian bytes of a number, the lowest last.
unfoldable pub counter_bytes : ℕ → ℕ → Bytes
counter_bytes zero n = []
counter_bytes (suc size) n = counter_bytes size (n / 256) ++ (n % 256 ∷ [])

-- The counter in eight bytes, as two 32-bit words.
unfoldable pub message : ℕ → Bytes
unfolding counter_bytes
message counter = counter_bytes 4 (counter / 2 ^ 32 % 2 ^ 32) ++ counter_bytes 4 (counter % 2 ^ 32)

-- Dynamic truncation: four bytes from the offset that the last byte gives, without the sign bit.
unfoldable pub truncate : Bytes → ℕ
truncate mac =
    let offset = get_or mac (length mac - 1) 0 % 16 in
    get_or mac offset 0 % 128 * 2 ^ 24
    + get_or mac (offset + 1) 0 * 2 ^ 16
    + get_or mac (offset + 2) 0 * 2 ^ 8
    + get_or mac (offset + 3) 0

-- `s.padStart(n, "0")`
unfoldable pub zeros : ℕ → Text → Text
zeros zero s = s
zeros (suc n) s = b'0' ∷ zeros n s

unfoldable pub pad_start : ℕ → Text → Text
unfolding zeros
pad_start n s = zeros (n - length s) s

unfoldable pub print_code : ℕ → ℕ → Text
unfolding pad_start decimal
print_code digits bin = pad_start digits (decimal (bin % 10 ^ digits))

module _ (p : Platform) where
  unfoldable pub hotp : TotpConfig → ℕ → Result Text
  unfolding message truncate print_code
  hotp cfg counter = do
    mac ← p.hmac (algorithm_name cfg.algorithm) cfg.secret (message counter)
    ok (print_code cfg.digits (truncate mac))

  -- The code at a time in milliseconds, and the seconds for which it stays valid.
  unfoldable pub totp_code : TotpConfig → ℕ → Result (Text × ℕ)
  unfolding hotp
  totp_code cfg now_ms = do
    code ← hotp cfg (now_ms / 1000 / cfg.period)
    ok (code, cfg.period - now_ms / 1000 % cfg.period)
