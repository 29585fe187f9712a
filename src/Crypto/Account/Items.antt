-- ===== src/Crypto/Account/Items.antt =====
-- Items under the user key, and under keys of their own.
pub mod RoundTrip
use passwd.Base.{ℕ, Option, none, some, ◌∷◌, ◌++◌, ◌&&◌, if◌then◌else◌, Text, Bytes, codes}
use passwd.Base.Outcome
use passwd.Base.Outcome.{Result, ok, throw, error}
use passwd.Base.Json.{Json, string, number, object, member, end_members, get, truthy}
use passwd.Base.Act.{Act, lift, pure, ◌>>=◌}
use passwd.Crypto.EncString.{serialize_enc_string}
use passwd.Crypto.Platform.{Platform}
use passwd.Crypto.Account.Keys.{item_key}
use passwd.Crypto.Primitives.{envelope, random_bytes, aes_gcm_encrypt, seal_text, open_text}

-- `ItemContainer`, as the value that is written.
abbrev pub container : Text → Text → Json
container key ciphertext = object (
    member (codes "v") (number (codes "2"))
      (member (codes "key") (string key) (member (codes "data") (string ciphertext) end_members)))

-- A member that is used as a text: any other value has no `indexOf`.
unfoldable pub as_text : Option Json → Result Text
as_text (some (string s)) = ok s
as_text _ = throw (error (codes "s.indexOf is not a function"))

module _ (p : Platform) where
  unfoldable pub encrypt_item : Bytes → Text → Act Text
  encrypt_item user_key plaintext = seal_text p (item_key user_key) (p.utf8 plaintext)

  unfoldable pub decrypt_item : Bytes → Text → Result Text
  decrypt_item user_key enc_string =
      Outcome.◌>>=◌ (open_text p (item_key user_key) enc_string) λ b. ok (p.from_utf8 b)

  unfoldable pub wrap_item_key : Bytes → Bytes → Act Text
  wrap_item_key user_key key = seal_text p (item_key user_key) key

  unfoldable pub unwrap_item_key : Bytes → Text → Result Bytes
  unwrap_item_key user_key wrapped = open_text p (item_key user_key) wrapped

  unfoldable pub encrypt_item_keyed : Bytes → Text → Act Text
  unfolding wrap_item_key
  encrypt_item_keyed user_key plaintext = do
    key ← random_bytes 32
    enc ← aes_gcm_encrypt p key (p.utf8 plaintext)
    wrapped ← wrap_item_key user_key key
    ciphertext ← lift (serialize_enc_string (envelope enc))
    pure (p.stringify (container wrapped ciphertext))

  decrypt_container : Bytes → Json → Result Text
  unfolding unwrap_item_key as_text
  decrypt_container user_key v = Outcome.◌>>=◌ (as_text (get (codes "key") v)) λ wrapped.
      Outcome.◌>>=◌ (unwrap_item_key user_key wrapped) λ key.
        Outcome.◌>>=◌ (as_text (get (codes "data") v))
          λ ciphertext. Outcome.◌>>=◌ (open_text p key ciphertext) λ b. ok (p.from_utf8 b)

  -- The parsed text as a container, if it has both members.
  decrypt_parsed : Bytes → Text → Option Json → Result Text
  unfolding decrypt_container
  decrypt_parsed user_key stored none = decrypt_item user_key stored
  decrypt_parsed user_key stored (some v) =
      if truthy (get (codes "key") v) && truthy (get (codes "data") v)
      then decrypt_container user_key v
      else decrypt_item user_key stored

  unfoldable pub decrypt_item_keyed : Bytes → Text → Result Text
  unfolding decrypt_parsed
  decrypt_item_keyed user_key stored = decrypt_parsed user_key stored (p.parse_json stored)
