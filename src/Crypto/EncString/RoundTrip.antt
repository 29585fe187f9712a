-- ===== src/Crypto/EncString/RoundTrip.antt =====
-- Serialized envelopes, parsed.
use passwd.Base.{◌≡◌, ◌≢◌, refl, [], ◌∷◌, ◌++◌, Text, Bytes, codes, arith, All, AllBytes, Lacks}
use passwd.Base.Outcome.{ok, ◌>>=◌}
use passwd.Base.Strings.{index_of, split-append, split-Lacks'}
use passwd.Base.Numbers.{number_is_one}
use passwd.Crypto.Base64.{from_base64, encode_groups}
use passwd.Crypto.Base64.RoundTrip.{
  IsCode, encode_groups-IsCode, to_base64-bytes, encode_groups-ne-nil, from_base64-encode_groups,
}
use passwd.Crypto.EncString.{
  aes_gcm, EncString, type_text, serialize_enc_string, parse_enc_string, decode_parts,
}

-- What the producers of envelopes make: a supported type, and two non-empty byte arrays.
pub record IsSealed (e : EncString) : Type 0 where
  pub supported : e.type ≡ aes_gcm
  pub nonce_bytes : AllBytes e.nonce
  pub nonce_ne_nil : e.nonce ≢ []
  pub ciphertext_bytes : AllBytes e.ciphertext
  pub ciphertext_ne_nil : e.ciphertext ≢ []

IsCode-Lacks_bar : (s : Text) → All IsCode s → Lacks b'|' s
IsCode-Lacks_bar [] h = tt
IsCode-Lacks_bar (c ∷ s) (hc, h) = (hc.not_bar, IsCode-Lacks_bar s h)

encode_groups-Lacks_bar : (bs : Bytes) → Lacks b'|' (encode_groups bs)
encode_groups-Lacks_bar bs = IsCode-Lacks_bar _ (encode_groups-IsCode bs)

abbrev pub sealed_text : EncString → Text
sealed_text e = codes "1." ++ (encode_groups e.nonce ++ (b'|' ∷ encode_groups e.ciphertext))

pub serialize_enc_string-text :
    (e : EncString) → IsSealed e → serialize_enc_string e ≡ ok (sealed_text e)
unfolding serialize_enc_string type_text
serialize_enc_string-text e h =
    rw (to_base64-bytes e.nonce h.nonce_bytes, to_base64-bytes e.ciphertext h.ciphertext_bytes)
      (ground arith)

decode_parts_lem :
    (a b : Text) {n c : Bytes}
    → a ≢ []
    → b ≢ []
    → from_base64 a ≡ ok n
    → from_base64 b ≡ ok c
    → decode_parts (a ∷ b ∷ []) ≡ ok (record { type = aes_gcm; nonce = n; ciphertext = c })
unfolding decode_parts
decode_parts_lem [] b ha hb ea eb = absurd (ha refl)
decode_parts_lem (x ∷ a) [] ha hb ea eb = absurd (hb refl)
decode_parts_lem (x ∷ a) (y ∷ b) ha hb ea eb = rw (ea, eb)

parse-sealed_text :
    (e : EncString)
    → IsSealed e
    → parse_enc_string (sealed_text e)
      ≡ decode_parts (encode_groups e.nonce ∷ encode_groups e.ciphertext ∷ [])
unfolding parse_enc_string index_of number_is_one
parse-sealed_text e h = rw (
  split-append b'|' (encode_groups e.nonce) (encode_groups e.ciphertext)
      (encode_groups-Lacks_bar e.nonce),
  split-Lacks' b'|' (encode_groups e.ciphertext) (encode_groups-Lacks_bar e.ciphertext),
)

-- Every envelope of AES-GCM with a nonce and a ciphertext is read back as it was written.
pub parse-serialize :
    (e : EncString) → IsSealed e → (serialize_enc_string e >>= parse_enc_string) ≡ ok e
parse-serialize e h =
    rw (serialize_enc_string-text e h, parse-sealed_text e h)
      (rw
        (decode_parts_lem _ _ (encode_groups-ne-nil e.nonce h.nonce_ne_nil)
          (encode_groups-ne-nil e.ciphertext h.ciphertext_ne_nil)
          (from_base64-encode_groups e.nonce h.nonce_bytes)
          (from_base64-encode_groups e.ciphertext h.ciphertext_bytes))
        (ground (arith, h.supported)))
