-- ===== src/Crypto/Sharing.antt =====
-- clients/packages/crypto/src/sharing.ts: sharing an item with the holder of an RSA key.
pub mod RoundTrip
use passwd.Base.{ℕ, Text, Bytes, take}
use passwd.Base.Outcome
use passwd.Base.Outcome.{Result, ok}
use passwd.Base.Act.{Act, lift, pure, ◌>>=◌}
use passwd.Crypto.Base64.{to_base64, from_base64}
use passwd.Crypto.EncString.{serialize_enc_string}
use passwd.Crypto.Platform.{Platform}
use passwd.Crypto.Primitives.{envelope, random_bytes, aes_gcm_encrypt, open_text}

pub record UserKeypair : Type 0 where
  pub public_key : Text
  pub protected_private_key : Text

pub record ShareEnvelope : Type 0 where
  pub wrapped_key : Text
  pub payload : Text

abbrev pub share_item_key_bytes : ℕ
share_item_key_bytes = 32

unfoldable pub user_enc_key : Bytes → Bytes
user_enc_key user_key = take 32 user_key

module _ (p : Platform) where
  unfoldable pub generate_user_keypair : Bytes → Act UserKeypair
  generate_user_keypair user_key = do
    pair ← p.rsa_generate
    wrapped ← aes_gcm_encrypt p (user_enc_key user_key) pair.1
    public ← lift (to_base64 pair.0)
    private ← lift (serialize_enc_string (envelope wrapped))
    pure (record { public_key = public; protected_private_key = private })

  -- The key is imported by `rsa_encrypt`, after it is decoded.
  unfoldable pub create_share : Text → Text → Act ShareEnvelope
  create_share recipient_public_key plaintext = do
    item_key ← random_bytes share_item_key_bytes
    enc ← aes_gcm_encrypt p item_key (p.utf8 plaintext)
    public ← lift (from_base64 recipient_public_key)
    wrapped ← p.rsa_encrypt public item_key
    wrapped_text ← lift (to_base64 wrapped)
    payload ← lift (serialize_enc_string (envelope enc))
    pure (record { wrapped_key = wrapped_text; payload = payload })

  unfoldable pub open_share : Bytes → Text → ShareEnvelope → Result Text
  open_share user_key protected_private_key share =
      Outcome.◌>>=◌ (open_text p (user_enc_key user_key) protected_private_key) λ private.
        Outcome.◌>>=◌ (from_base64 share.wrapped_key) λ wrapped.
          Outcome.◌>>=◌ (p.rsa_decrypt private wrapped)
            λ item_key. Outcome.◌>>=◌ (open_text p item_key share.payload) λ b. ok (p.from_utf8 b)
