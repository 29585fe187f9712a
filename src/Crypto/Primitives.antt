-- ===== src/Crypto/Primitives.antt =====
-- clients/packages/crypto/src/primitives.ts and kdf.ts over the platform.
pub mod Derivation
pub mod Sealing
use passwd.Base.{
  ℕ, zero, suc, ◌+◌, ◌-◌, ◌*◌, ◌/◌, ◌%◌, Option, none, some, [], ◌∷◌, ◌++◌, if◌then◌else◌, Text,
  Bytes, codes, take,
}
use passwd.Base.Outcome
use passwd.Base.Outcome.{Result, ok}
use passwd.Base.Act.{Act, Entropy, later, draw_bytes, lift, pure, ◌>>=◌}
use passwd.Crypto.Platform.{Platform}
use passwd.Crypto.EncString.{EncString, aes_gcm, serialize_enc_string, parse_enc_string}

unfoldable pub random_bytes : ℕ → Act Bytes
random_bytes n w = (ok (draw_bytes n 0 w), later n w)

pub record AesGcmResult : Type 0 where
  pub nonce : Bytes
  pub ciphertext : Bytes

-- The envelope that every caller builds around a result.
abbrev pub envelope : AesGcmResult → EncString
envelope r = record { type = aes_gcm; nonce = r.nonce; ciphertext = r.ciphertext }

-- The kinds of key derivation, and their parameters; an absent number is `none`.
pub data KdfType : Type 0 where
  argon2id pbkdf2 : KdfType

pub record KdfParams : Type 0 where
  pub type : KdfType
  pub iterations : ℕ
  pub memory_mib : Option ℕ
  pub parallelism : Option ℕ

abbrev pub default_kdf : KdfParams
default_kdf = record { type = argon2id; iterations = 3; memory_mib = some 64; parallelism = some 4 }

abbrev pub or_else : Option ℕ → ℕ → ℕ
or_else none d = d
or_else (some n) d = n

-- `Math.ceil(length / hashLen)`
abbrev pub block_count : ℕ → ℕ
block_count size = (size + 31) / 32

module _ (p : Platform) where
  open p use {aes_encrypt, aes_decrypt, hmac, pbkdf2_bits, utf8, nfkc}

  -- The nonce is drawn before the key is used.
  unfoldable pub aes_gcm_encrypt : Bytes → Bytes → Act AesGcmResult
  unfolding random_bytes
  aes_gcm_encrypt key plaintext = do
    nonce ← random_bytes 12
    ciphertext ← lift (aes_encrypt key nonce plaintext)
    pure (record { nonce = nonce; ciphertext = ciphertext })

  unfoldable pub aes_gcm_decrypt : Bytes → Bytes → Bytes → Result Bytes
  aes_gcm_decrypt key nonce ciphertext = aes_decrypt key nonce ciphertext

  -- The rounds of `hkdfExpand` from round `i` on; the counter is stored as a byte.
  unfoldable pub hkdf_rounds : ℕ → ℕ → Bytes → Bytes → Bytes → Result Bytes
  hkdf_rounds zero i prk info prev = ok []
  hkdf_rounds (suc n) i prk info prev =
      Outcome.◌>>=◌ (hmac (codes "SHA-256") prk (prev ++ (info ++ ((i + 1) % 256) ∷ [])))
        λ block. Outcome.◌>>=◌ (hkdf_rounds n (i + 1) prk info block) λ rest. ok (block ++ rest)

  unfoldable pub hkdf_expand : Bytes → Text → ℕ → Result Bytes
  unfolding hkdf_rounds
  hkdf_expand prk info size =
      Outcome.◌>>=◌ (hkdf_rounds (block_count size) 0 prk (utf8 info) []) λ okm. ok (take size okm)

  unfoldable pub derive_pbkdf2 : Bytes → Bytes → ℕ → ℕ → Result Bytes
  derive_pbkdf2 password salt iterations size = pbkdf2_bits password salt iterations size

  derive_with : KdfType → Bytes → Bytes → KdfParams → Result Bytes
  derive_with pbkdf2 pw salt params = derive_pbkdf2 pw salt params.iterations 32
  derive_with argon2id pw salt params =
      p.argon2id pw salt params.iterations (or_else params.memory_mib 64 * 1024)
        (or_else params.parallelism 4)

  -- `deriveKey`
  unfoldable pub derive_key : Text → Text → KdfParams → Result Bytes
  unfolding derive_with
  derive_key password salt params =
      derive_with params.type (utf8 (nfkc password)) (utf8 salt) params

  -- What every wrapping function of the package does: encrypt under a fresh nonce, and write the
  -- envelope; and its reverse.
  unfoldable pub seal_text : Bytes → Bytes → Act Text
  seal_text key plaintext = do
    r ← aes_gcm_encrypt key plaintext
    lift (serialize_enc_string (envelope r))

  unfoldable pub open_text : Bytes → Text → Result Bytes
  unfolding aes_gcm_decrypt
  open_text key s = Outcome.◌>>=◌ (parse_enc_string s) λ e. aes_gcm_decrypt key e.nonce e.ciphertext
