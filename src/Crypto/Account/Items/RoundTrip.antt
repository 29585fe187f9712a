-- ===== src/Crypto/Account/Items/RoundTrip.antt =====
-- Encrypting an item, and decrypting it.
use passwd.Base.{◌≡◌, refl, ap, true, some, none, ◌∷◌, ◌++◌, Text, Bytes, codes, arith, length-take}
use passwd.Base.Outcome.{ok}
use passwd.Base.Json.{string, get, truthy, find_member, IsStable}
use passwd.Base.Equality.{equal}
use passwd.Base.Decimal.{decimal}
use passwd.Base.Act.{Entropy, later, draw_bytes}
use passwd.Crypto.Platform.{Platform, IsKey}
use passwd.Crypto.Account.Keys.{item_key}
use passwd.Crypto.Account.Items.{
  container, encrypt_item, decrypt_item, encrypt_item_keyed, decrypt_item_keyed,
}
use passwd.Crypto.Primitives.{random_bytes}
use passwd.Crypto.Primitives.Derivation.{AllBytes-take}
use passwd.Crypto.Primitives.Sealing.{draw-IsKey, aes_gcm_encrypt-Encrypts, seal_text-SealsText}

pub item_key-IsKey : (user_key : Bytes) → IsKey 64 user_key → IsKey 32 (item_key user_key)
unfolding item_key
item_key-IsKey user_key h = record {
  size = omega (arith, length-take 32 user_key, h.size);
  bytes = AllBytes-take 32 user_key h.bytes;
}

container-IsStable : (k d : Text) → IsStable (container k d)
unfolding find_member equal decimal
container-IsStable k d = (refl, (2, refl), (refl, tt, (refl, tt, tt)))

truthy_text : (s a b : Text) → s ≡ codes "1." ++ (a ++ (b'|' ∷ b)) → truthy (some (string s)) ≡ true
unfolding truthy
truthy_text s a b e = rw e

get_key : (k d : Text) → get (codes "key") (container k d) ≡ some (string k)
unfolding get
get_key k d = refl

get_data : (k d : Text) → get (codes "data") (container k d) ≡ some (string d)
unfolding get
get_data k d = refl

module _ (p : Platform) (user_key : Bytes) (is_key : IsKey 64 user_key) where
  -- Encrypting an item succeeds, and the stored text decrypts to it.
  pub decrypt-encrypt_item :
      (plaintext : Text) (w : Entropy)
      → p.IsEncodable plaintext
      → (stored : Text) × ((encrypt_item p user_key plaintext w).0 ≡ ok stored)
        × (decrypt_item p user_key stored ≡ ok plaintext)
  unfolding encrypt_item decrypt_item
  decrypt-encrypt_item plaintext w enc =
      let s =
        seal_text-SealsText p (item_key user_key) (p.utf8 plaintext) w
          (item_key-IsKey user_key is_key) (p.utf8-bytes plaintext) in
      (s.text, rw s.seals, rw s.opens (ap ok (p.from_utf8-utf8 plaintext enc)))

  -- A stored text from before per-item keys, a bare envelope, still decrypts.
  pub decrypt_item_keyed-legacy :
      (plaintext : Text) (w : Entropy)
      → p.IsEncodable plaintext
      → (stored : Text) × ((encrypt_item p user_key plaintext w).0 ≡ ok stored)
        × (decrypt_item_keyed p user_key stored ≡ ok plaintext)
  unfolding encrypt_item decrypt_item_keyed decrypt_item
  decrypt_item_keyed-legacy plaintext w enc =
      let s =
        seal_text-SealsText p (item_key user_key) (p.utf8 plaintext) w
          (item_key-IsKey user_key is_key) (p.utf8-bytes plaintext) in
      let (a, b, shape) = s.shape in
      let rejected : p.parse_json s.text ≡ none = rw shape (p.parse_json_number a b) in
      (s.text, rw s.seals, rw (rejected, s.opens) (ap ok (p.from_utf8-utf8 plaintext enc)))

  -- Encrypting an item under a key of its own succeeds, and the container decrypts to the item.
  pub decrypt-encrypt_item_keyed :
      (plaintext : Text) (w : Entropy)
      → p.IsEncodable plaintext
      → (stored : Text) × ((encrypt_item_keyed p user_key plaintext w).0 ≡ ok stored)
        × (decrypt_item_keyed p user_key stored ≡ ok plaintext)
  unfolding encrypt_item_keyed decrypt_item_keyed random_bytes
  decrypt-encrypt_item_keyed plaintext w enc =
      let key = draw_bytes 32 0 w in
      let e =
        aes_gcm_encrypt-Encrypts p key (p.utf8 plaintext) (later 32 w) (draw-IsKey 32 0 w)
          (p.utf8-bytes plaintext) in
      let s =
        seal_text-SealsText p (item_key user_key) key (later 12 (later 32 w))
          (item_key-IsKey user_key is_key) (draw-IsKey 32 0 w).bytes in
      let (a, b, wrapped_shape) = s.shape in
      let (c, d, data_shape) = e.shape in
      let read = p.parse-stringify (container s.text e.text) (container-IsStable s.text e.text) in
      (
        p.stringify (container s.text e.text),
        rw (e.encrypts, s.seals, e.serializes),
        rw
            (
              read,
              get_key,
              get_data,
              truthy_text s.text a b wrapped_shape,
              truthy_text e.text c d data_shape,
              s.opens,
              e.opens,
            )
            (ap ok (p.from_utf8-utf8 plaintext enc)),
      )
