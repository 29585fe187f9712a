-- ===== src/Crypto/Platform.antt =====
-- What the crypto package takes from outside src/: WebCrypto, hash-wasm, the Encoding standard,
-- Unicode normalisation and the JSON text format. Each is a field; the laws state what their
-- documentation promises and the clients rely on.
use passwd.Base.{
  ℕ, ◌<◌, ◌≡◌, ◌≢◌, Option, none, some, [], ◌∷◌, ◌++◌, Text, Bytes, codes, length, AllBytes,
}
use passwd.Base.Outcome.{Result, ok}
use passwd.Base.Json.{Json, IsStable}
use passwd.Base.Act.{Entropy}

-- A byte array of a given length.
pub record IsKey (n : ℕ) (k : Bytes) : Type 0 where
  pub size : length k ≡ n
  pub bytes : AllBytes k

-- What a successful seal of `pt` promises of its ciphertext.
pub record Sealed (opens : Bytes → Result Bytes) (pt : Bytes) (sealing : Result Bytes)
    : Type 0 where
  pub ciphertext : Bytes
  pub seals : sealing ≡ ok ciphertext
  pub bytes : AllBytes ciphertext
  pub ne_nil : ciphertext ≢ []
  pub reopens : opens ciphertext ≡ ok pt

-- What a MAC or a key derivation returns.
pub record Derived (n : ℕ) (derivation : Result Bytes) : Type 0 where
  pub key : Bytes
  pub derives : derivation ≡ ok key
  pub is_key : IsKey n key

pub record Platform : Type 1 where
  -- `TextEncoder` and `TextDecoder`; a text is encodable if it has no lone surrogate and does not
  -- begin with a byte order mark
  pub IsEncodable : Text → Type 0
  pub utf8 : Text → Bytes
  pub from_utf8 : Bytes → Text
  pub utf8-bytes : (s : Text) → AllBytes (utf8 s)
  pub from_utf8-utf8 : (s : Text) → IsEncodable s → from_utf8 (utf8 s) ≡ s
  -- `normalize("NFKC")` and `toLowerCase`
  pub nfkc : Text → Text
  pub lower : Text → Text
  -- `JSON.stringify` with no indentation, and with two spaces, and `JSON.parse`
  pub stringify : Json → Text
  pub stringify_indented : Json → Text
  pub parse_json : Text → Option Json
  pub parse-stringify : (v : Json) → IsStable v → parse_json (stringify v) ≡ some v
  pub parse-stringify_indented :
      (v : Json) → IsStable v → parse_json (stringify_indented v) ≡ some v
  -- a JSON text that begins with a digit is a number, and holds no bar
  pub parse_json_number : (a b : Text) → parse_json (codes "1." ++ (a ++ (b'|' ∷ b))) ≡ none
  -- `subtle.encrypt` and `subtle.decrypt` with AES-GCM: key, nonce, data
  pub aes_encrypt : Bytes → Bytes → Bytes → Result Bytes
  pub aes_decrypt : Bytes → Bytes → Bytes → Result Bytes
  pub aes_seals :
      (k n pt : Bytes)
      → IsKey 32 k
      → IsKey 12 n
      → AllBytes pt
      → Sealed (aes_decrypt k n) pt (aes_encrypt k n pt)
  -- `subtle.sign` with HMAC: hash name, key, message
  pub hmac : Text → Bytes → Bytes → Result Bytes
  pub hmac_sha256_derives :
      (k m : Bytes) → k ≢ [] → AllBytes k → AllBytes m → Derived 32 (hmac (codes "SHA-256") k m)
  -- `subtle.deriveBits` with PBKDF2: password, salt, iterations, bytes
  pub pbkdf2_bits : Bytes → Bytes → ℕ → ℕ → Result Bytes
  pub pbkdf2_derives :
      (pw salt : Bytes) (iterations size : ℕ)
      → 0 < iterations
      → 0 < size
      → Derived size (pbkdf2_bits pw salt iterations size)
  -- hash-wasm's `argon2id`: password, salt, iterations, memory in KiB, parallelism, 32 bytes out;
  -- the parameters that it accepts
  pub Argon2Accepts : Bytes → Bytes → ℕ → ℕ → ℕ → Type 0
  pub argon2id : Bytes → Bytes → ℕ → ℕ → ℕ → Result Bytes
  pub argon2id_derives :
      (pw salt : Bytes) (iterations memory parallelism : ℕ)
      → Argon2Accepts pw salt iterations memory parallelism
      → Derived 32 (argon2id pw salt iterations memory parallelism)
  -- RSA-OAEP: a fresh pair as (SPKI, PKCS#8), encryption to an SPKI key, decryption by a PKCS#8 key
  pub rsa_generate : Entropy → Result (Bytes × Bytes) × Entropy
  pub rsa_encrypt : Bytes → Bytes → Entropy → Result Bytes × Entropy
  pub rsa_decrypt : Bytes → Bytes → Result Bytes
  pub rsa_generates :
      (w : Entropy)
      → (public private : Bytes) × ((rsa_generate w).0 ≡ ok (public, private))
        × AllBytes public
        × AllBytes private
  pub rsa_seals :
      (w v : Entropy) (public private m : Bytes)
      → (rsa_generate w).0 ≡ ok (public, private)
      → IsKey 32 m
      → Sealed (rsa_decrypt private) m (rsa_encrypt public m v).0
