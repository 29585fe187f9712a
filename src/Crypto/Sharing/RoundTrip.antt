-- ===== src/Crypto/Sharing/RoundTrip.antt =====
-- Sharing, and opening the share.
use passwd.Base.{◌≡◌, ap, arith, Text, Bytes, length-take}
use passwd.Base.Outcome.{ok}
use passwd.Base.Act.{Entropy, later, draw_bytes}
use passwd.Crypto.Base64.{encode_groups}
use passwd.Crypto.Base64.RoundTrip.{to_base64-bytes, from_base64-encode_groups}
use passwd.Crypto.Platform.{Platform, IsKey}
use passwd.Crypto.Primitives.{random_bytes}
use passwd.Crypto.Primitives.Derivation.{AllBytes-take}
use passwd.Crypto.Primitives.Sealing.{draw-IsKey, aes_gcm_encrypt-Encrypts}
use passwd.Crypto.Sharing.{
  UserKeypair, ShareEnvelope, user_enc_key, generate_user_keypair, create_share, open_share,
}

user_enc_key-IsKey : (user_key : Bytes) → IsKey 64 user_key → IsKey 32 (user_enc_key user_key)
unfolding user_enc_key
user_enc_key-IsKey user_key h = record {
  size = omega (arith, length-take 32 user_key, h.size);
  bytes = AllBytes-take 32 user_key h.bytes;
}

module _ (p : Platform) (user_key : Bytes) (is_key : IsKey 64 user_key) where
  -- Making a key pair succeeds from every state of the random source.
  pub record Generates (w : Entropy) : Type 0 where
    pub pair : UserKeypair
    pub generates : (generate_user_keypair p user_key w).0 ≡ ok pair

  pub generate_user_keypair-Generates : (w : Entropy) → Generates w
  unfolding generate_user_keypair
  generate_user_keypair-Generates w =
      let (public, private, generated, public_bytes, private_bytes) = p.rsa_generates w in
      let wrapped =
        aes_gcm_encrypt-Encrypts p (user_enc_key user_key) private (p.rsa_generate w).1
          (user_enc_key-IsKey user_key is_key) private_bytes in
      record {
        pair = record { public_key = encode_groups public; protected_private_key = wrapped.text };
        generates =
            rw (
              generated,
              wrapped.encrypts,
              to_base64-bytes public public_bytes,
              wrapped.serializes,
            );
      }

  -- Making a key pair succeeds from every state of the random source. A share that is made, from
  -- any other state, for its public key succeeds too, and opens to the plaintext under the user
  -- key and the wrapped private key.
  pub open-create_share :
      (w v : Entropy) (plaintext : Text)
      → p.IsEncodable plaintext
      → (pair : UserKeypair) × (share : ShareEnvelope) × ((generate_user_keypair p user_key w).0
          ≡ ok pair)
        × ((create_share p pair.public_key plaintext v).0 ≡ ok share)
        × (open_share p user_key pair.protected_private_key share ≡ ok plaintext)
  unfolding generate_user_keypair create_share open_share random_bytes
  open-create_share w v plaintext enc =
      let (public, private, generated, public_bytes, private_bytes) = p.rsa_generates w in
      let wrapped =
        aes_gcm_encrypt-Encrypts p (user_enc_key user_key) private (p.rsa_generate w).1
          (user_enc_key-IsKey user_key is_key) private_bytes in
      let item_key = draw_bytes 32 0 v in
      let sealed =
        aes_gcm_encrypt-Encrypts p item_key (p.utf8 plaintext) (later 32 v) (draw-IsKey 32 0 v)
          (p.utf8-bytes plaintext) in
      let handed =
        p.rsa_seals w (later 12 (later 32 v)) public private item_key generated
          (draw-IsKey 32 0 v) in
      (
        record { public_key = encode_groups public; protected_private_key = wrapped.text },
        record { wrapped_key = encode_groups handed.ciphertext; payload = sealed.text },
        rw (generated, wrapped.encrypts, to_base64-bytes public public_bytes, wrapped.serializes),
        rw (
          sealed.encrypts,
          from_base64-encode_groups public public_bytes,
          handed.seals,
          to_base64-bytes handed.ciphertext handed.bytes,
          sealed.serializes,
        ),
        rw
            (
              wrapped.opens,
              from_base64-encode_groups handed.ciphertext handed.bytes,
              handed.reopens,
              sealed.opens,
            )
            (ap ok (p.from_utf8-utf8 plaintext enc)),
      )
