-- ===== src/Tests/Envelopes.antt =====
-- The envelope theorems at concrete inputs.
use passwd.Base.{◌≡◌, ◌↔◌, refl, true, none, some, [], ◌∷◌, codes, arith}
use passwd.Base.Equality.{equal}
use passwd.Base.Json.{string, boolean, object, member, end_members, get, find_member, is_string}
use passwd.Base.Outcome.{ok, throw, error}
use passwd.Base.Strings.{index_of, split}
use passwd.Base.Decimal.{natural_of}
use passwd.Base.Numbers.{number_is_one, digits_value, digit_value}
use passwd.Crypto.Envelope.{read_kdf}
use passwd.Crypto.Primitives.{pbkdf2}
use passwd.Crypto.Base64.{
  to_base64, from_base64, btoa, encode_groups, digit, any_wide, atob, decode_groups, quad, sextet,
  without_space, unpadded, chomp, option_bind,
}
use passwd.Crypto.EncString.{EncString, aes_gcm, parse_enc_string, unsupported_type, decode_parts}
use passwd.Crypto.EncString.Accepts.{Accepts, parse_enc_string-Accepts}
use passwd.Crypto.EncString.RoundTrip.{IsSealed}

abbrev small : EncString
small = record { type = aes_gcm; nonce = 1 ∷ 2 ∷ 3 ∷ []; ciphertext = 255 ∷ 0 ∷ [] }

small-IsSealed : IsSealed small
small-IsSealed = record {
  supported = refl;
  nonce_bytes = omega arith;
  nonce_ne_nil = cc;
  ciphertext_bytes = omega arith;
  ciphertext_ne_nil = cc;
}

to_base64-hello : to_base64 (codes "hello") ≡ ok (codes "aGVsbG8=")
unfolding to_base64 btoa encode_groups digit any_wide
to_base64-hello = refl

small_text : parse_enc_string (codes "1.AQID|/wA=") ≡ ok small
unfolding parse_enc_string index_of number_is_one split decode_parts from_base64 atob decode_groups
    quad sextet without_space unpadded chomp option_bind
small_text = refl

-- A prefix that `Number` reads as 1 is accepted too.
spaced_text : parse_enc_string (codes " 0x1.AQID|/wA=") ≡ ok small
unfolding parse_enc_string index_of number_is_one split decode_parts from_base64 atob decode_groups
    quad sextet without_space unpadded chomp option_bind
spaced_text = refl

reserved_type : parse_enc_string (codes "2.AQID|/wA=") ≡ throw (error unsupported_type)
unfolding parse_enc_string number_is_one index_of
reserved_type = refl

parse_enc_string-Accepts_example :
    (parse_enc_string (codes "1.AQID|/wA=") ≡ ok small) ↔ Accepts (codes "1.AQID|/wA=") small
parse_enc_string-Accepts_example = parse_enc_string-Accepts (codes "1.AQID|/wA=") small

small_accepted : Accepts (codes "1.AQID|/wA=") small
small_accepted = (parse_enc_string-Accepts (codes "1.AQID|/wA=") small).0 small_text

-- Under PBKDF2 a text and a fraction are rounds, and a memory that is no number is not looked at.
converted_rounds :
    read_kdf (
      some (
        object (
          member (codes "type") (string (codes "pbkdf2")) (
            member
              (codes "iterations")
              (string (codes "1000.5"))
              (member (codes "memoryMiB") (boolean true) end_members)))))
    ≡ ok (record { type = pbkdf2; iterations = 1000; memory_mib = none; parallelism = none })
unfolding read_kdf natural_of digits_value digit_value split get find_member is_string equal
converted_rounds = refl

-- Under Argon2id such rounds are refused.
refused_rounds :
    read_kdf (
      some (
        object (
          member
            (codes "type")
            (string (codes "argon2id"))
            (member (codes "iterations") (string (codes "1000.5")) end_members))))
    ≡ throw (error (codes "invalid key derivation parameter"))
unfolding read_kdf natural_of digits_value digit_value split get find_member is_string equal
refused_rounds = refl
