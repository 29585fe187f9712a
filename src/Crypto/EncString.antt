-- ===== src/Crypto/EncString.antt =====
-- clients/packages/crypto/src/encstring.ts: the self-describing ciphertext envelope.
pub mod Accepts
pub mod RoundTrip
use passwd.Base.{
  ℕ, suc, ◌≡◌, Bool, Option, none, some, List, [], ◌∷◌, ◌++◌, if◌then◌else◌, Text, Bytes, codes,
  take, drop,
}
use passwd.Base.Outcome.{Result, ok, throw, error, ◌>>=◌}
use passwd.Base.Strings.{index_of, split}
use passwd.Base.Numbers.{number_is_one}
use passwd.Crypto.Base64.{to_base64, from_base64}

pub data EncType : Type 0 where
  aes_gcm aes_cbc_hmac : EncType

-- The enumeration's number, printed.
unfoldable pub type_text : EncType → Text
type_text aes_gcm = codes "1"
type_text aes_cbc_hmac = codes "2"

pub record EncString : Type 0 where
  pub type : EncType
  pub nonce : Bytes
  pub ciphertext : Bytes

unfoldable pub serialize_enc_string : EncString → Result Text
serialize_enc_string e = do
  nonce ← to_base64 e.nonce
  ciphertext ← to_base64 e.ciphertext
  ok (type_text e.type ++ (b'.' ∷ (nonce ++ (b'|' ∷ ciphertext))))

abbrev pub missing_type_prefix : Text
missing_type_prefix = codes "invalid EncString: missing type prefix"

-- The source puts the number that was read behind this message.
abbrev pub unsupported_type : Text
unsupported_type = codes "unsupported EncString type"

abbrev pub expected_parts : Text
expected_parts = codes "invalid EncString: expected nonce|data"

-- `parts.length !== 2 || !parts[0] || !parts[1]`, and the two parts otherwise.
unfoldable pub decode_parts : List Text → Result EncString
decode_parts ((a ∷ nonce) ∷ (b ∷ ciphertext) ∷ []) = do
  n ← from_base64 (a ∷ nonce)
  c ← from_base64 (b ∷ ciphertext)
  ok (record { type = aes_gcm; nonce = n; ciphertext = c })
decode_parts _ = throw (error expected_parts)

parse_at : Text → Option ℕ → Result EncString
parse_at s none = throw (error missing_type_prefix)
parse_at s (some dot) =
    if number_is_one (take dot s)
    then decode_parts (split b'|' (drop (suc dot) s))
    else throw (error unsupported_type)

unfoldable pub parse_enc_string : Text → Result EncString
unfolding parse_at
parse_enc_string s = parse_at s (index_of b'.' s)
