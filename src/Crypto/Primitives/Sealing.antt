-- ===== src/Crypto/Primitives/Sealing.antt =====
-- Sealing, and opening what was sealed.
use passwd.Base.{ℕ, suc, ◌≡◌, ◌≢◌, refl, codes, ◌++◌, [], ◌∷◌, Text, Bytes, arith, AllBytes}
use passwd.Base.Outcome.{ok}
use passwd.Base.Act.{Entropy, later, draw_bytes, length-draw_bytes, draw_bytes-AllBytes}
use passwd.Crypto.Platform.{Platform, IsKey}
use passwd.Crypto.Primitives.{
  AesGcmResult, envelope, aes_gcm_encrypt, aes_gcm_decrypt, seal_text, open_text,
}
use passwd.Crypto.Base64.{encode_groups}
use passwd.Crypto.EncString.{serialize_enc_string, parse_enc_string}
use passwd.Crypto.EncString.RoundTrip.{
  IsSealed, parse-serialize, serialize_enc_string-text, sealed_text,
}

pub draw-IsKey : (n i : ℕ) (w : Entropy) → IsKey n (draw_bytes n i w)
draw-IsKey n i w = record { size = length-draw_bytes n i w; bytes = draw_bytes-AllBytes n i w }

pub IsKey-ne-nil : {n : ℕ} (k : Bytes) → IsKey (suc n) k → k ≢ []
IsKey-ne-nil [] h e = absurd (omega (arith, h.size))
IsKey-ne-nil (b ∷ k) h e = cc

module _ (p : Platform) where
  -- Encryption succeeds from every state of the random source, uses twelve draws of it, and the
  -- envelope's text opens to the plaintext under the same key.
  pub record Encrypts (key plaintext : Bytes) (w : Entropy) : Type 0 where
    pub result : AesGcmResult
    pub encrypts : aes_gcm_encrypt p key plaintext w ≡ (ok result, later 12 w)
    pub text : Text
    pub serializes : serialize_enc_string (envelope result) ≡ ok text
    pub shape : (a : Text) × (b : Text) × (text ≡ codes "1." ++ (a ++ (b'|' ∷ b)))
    pub opens : open_text p key text ≡ ok plaintext
    pub nonce_bytes : AllBytes result.nonce
    pub ciphertext_bytes : AllBytes result.ciphertext
    pub decrypts : aes_gcm_decrypt p key result.nonce result.ciphertext ≡ ok plaintext

  pub aes_gcm_encrypt-Encrypts :
      (key plaintext : Bytes) (w : Entropy)
      → IsKey 32 key
      → AllBytes plaintext
      → Encrypts key plaintext w
  unfolding aes_gcm_encrypt open_text
  aes_gcm_encrypt-Encrypts key plaintext w hk hp =
      let nonce = draw_bytes 12 0 w in
      let c = p.aes_seals key nonce plaintext hk (draw-IsKey 12 0 w) hp in
      let r : AesGcmResult = record { nonce = nonce; ciphertext = c.ciphertext } in
      let sealed : IsSealed (envelope r) = record {
        supported = refl;
        nonce_bytes = draw_bytes-AllBytes 12 0 w;
        nonce_ne_nil = IsKey-ne-nil nonce (draw-IsKey 12 0 w);
        ciphertext_bytes = c.bytes;
        ciphertext_ne_nil = c.ne_nil;
      } in
      let written = serialize_enc_string-text (envelope r) sealed in
      let parsed : parse_enc_string (sealed_text (envelope r)) ≡ ok (envelope r) =
        rw written at (parse-serialize (envelope r) sealed) in
      record {
        result = r;
        encrypts = rw c.seals;
        text = sealed_text (envelope r);
        serializes = written;
        shape = (encode_groups nonce, encode_groups c.ciphertext, refl);
        opens = rw parsed c.reopens;
        nonce_bytes = draw_bytes-AllBytes 12 0 w;
        ciphertext_bytes = c.bytes;
        decrypts = c.reopens;
      }

  pub record SealsText (key plaintext : Bytes) (w : Entropy) : Type 0 where
    pub text : Text
    pub seals : seal_text p key plaintext w ≡ (ok text, later 12 w)
    pub shape : (a : Text) × (b : Text) × (text ≡ codes "1." ++ (a ++ (b'|' ∷ b)))
    pub opens : open_text p key text ≡ ok plaintext

  -- So does sealing, which encrypts and serializes.
  pub seal_text-SealsText :
      (key plaintext : Bytes) (w : Entropy)
      → IsKey 32 key
      → AllBytes plaintext
      → SealsText key plaintext w
  unfolding seal_text
  seal_text-SealsText key plaintext w hk hp =
      let e = aes_gcm_encrypt-Encrypts key plaintext w hk hp in
      record {
        text = e.text;
        seals = rw (e.encrypts, e.serializes);
        shape = e.shape;
        opens = e.opens;
      }
