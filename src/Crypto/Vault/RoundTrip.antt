-- ===== src/Crypto/Vault/RoundTrip.antt =====
-- Opening a vault file after creation, saving and a change of password.
use passwd.Base.{ℕ, ◌≡◌, refl, ◌∷◌, Text, Bytes}
use passwd.Base.Equality.{equal}
use passwd.Base.Json.{IsStable, find_member}
use passwd.Base.Outcome.{ok}
use passwd.Base.Act.{Entropy, later, draw_bytes}
use passwd.Crypto.Base64.{encode_groups}
use passwd.Crypto.Base64.RoundTrip.{to_base64-bytes}
use passwd.Crypto.Platform.{Platform, IsKey, Derived}
use passwd.Crypto.Primitives.{KdfParams, random_bytes, derive_key}
use passwd.Crypto.Primitives.Sealing.{draw-IsKey, seal_text-SealsText}
use passwd.Crypto.Envelope.Kdf.{read_kdf-kdf_json, kdf_json-IsStable}
use passwd.Crypto.Account.Keys.{StretchedKey, stretch_master_key, unwrap_user_key}
use passwd.Crypto.Account.Items.RoundTrip.{decrypt-encrypt_item}
use passwd.Crypto.Account.Flows.{generate_user_key, wrap_user_key}
use passwd.Crypto.Account.Flows.Unlocking.{stretch_master_key-Stretches}
use passwd.Crypto.Vault.{
  VaultState, Created, vault_file, serialize, create_vault, open_vault, save_vault,
  change_master_password,
}

vault_file-IsStable : (s : VaultState) (vault : Text) → IsStable (vault_file s vault)
unfolding find_member equal
vault_file-IsStable s vault = (
  refl,
  tt,
  (refl, (1, refl), (refl, kdf_json-IsStable s.kdf, (refl, tt, (refl, tt, (refl, tt, tt))))),
)

module _ (p : Platform) where
  -- The password gives back the user key that the state holds.
  pub record Protects (password : Text) (s : VaultState) : Type 0 where
    pub master_key : Bytes
    pub stretched : StretchedKey
    pub derives : derive_key p password s.salt s.kdf ≡ ok master_key
    pub stretches : stretch_master_key p master_key ≡ ok stretched
    pub unwraps : unwrap_user_key p stretched s.protected_user_key ≡ ok s.user_key
    pub is_key : IsKey 64 s.user_key

  serialize-opens :
      (s : VaultState) (password payload : Text) (w : Entropy)
      → Protects password s
      → p.IsEncodable payload
      → (file : Text) × ((serialize p s payload w).0 ≡ ok file)
        × (open_vault p file password ≡ ok (record { state = s; payload = payload }))
  unfolding serialize open_vault
  serialize-opens s password payload w h enc =
      let (stored, seals, decrypts) = decrypt-encrypt_item p s.user_key h.is_key payload w enc in
      let parsed =
        p.parse-stringify_indented (vault_file s stored) (vault_file-IsStable s stored) in
      (
        p.stringify_indented (vault_file s stored),
        rw seals,
        rw (parsed, read_kdf-kdf_json s.kdf, h.derives, h.stretches, h.unwraps, decrypts),
      )

  -- Saving a payload that can be encoded succeeds from every state of the random source, and the file opens with the
  -- password that protects the state, to the same state and the payload.
  pub open-save_vault :
      (s : VaultState) (password payload : Text) (w : Entropy)
      → Protects password s
      → p.IsEncodable payload
      → (file : Text) × ((save_vault p s payload w).0 ≡ ok file)
        × (open_vault p file password ≡ ok (record { state = s; payload = payload }))
  unfolding save_vault
  open-save_vault = serialize-opens

  abbrev rewrapped : KdfParams → Bytes → Text → Bytes → VaultState
  rewrapped params salt protected user_key = record {
    kdf = params;
    salt = encode_groups salt;
    protected_user_key = protected;
    user_key = user_key;
  }

  -- Deriving from a password, and wrapping the user key under what it stretches to.
  record Wraps (password : Text) (params : KdfParams) (salt user_key : Bytes) (w : Entropy)
      : Type 0 where
    text : Text
    stretched : StretchedKey
    master_key : Bytes
    derives : derive_key p password (encode_groups salt) params ≡ ok master_key
    stretches : stretch_master_key p master_key ≡ ok stretched
    wraps : wrap_user_key p stretched user_key w ≡ (ok text, later 12 w)
    protects : Protects password (rewrapped params salt text user_key)

  wrap_user_key-Wraps :
      (password : Text) (params : KdfParams) (salt user_key : Bytes) (w : Entropy)
      → Derived 32 (derive_key p password (encode_groups salt) params)
      → IsKey 64 user_key
      → Wraps password params salt user_key w
  unfolding wrap_user_key unwrap_user_key
  wrap_user_key-Wraps password params salt user_key w d h =
      let s = stretch_master_key-Stretches p d.key d.is_key in
      let t = seal_text-SealsText p s.stretched.enc_key user_key w s.is_key h.bytes in
      record {
        text = t.text;
        stretched = s.stretched;
        master_key = d.key;
        derives = d.derives;
        stretches = s.stretches;
        wraps = t.seals;
        protects = record {
          master_key = d.key;
          stretched = s.stretched;
          derives = d.derives;
          stretches = s.stretches;
          unwraps = t.opens;
          is_key = h;
        };
      }

  -- Where the key derivation accepts the password with the salt, which is the Base64 of the first
  -- sixteen random bytes, and the password is not blank and the payload can be encoded, creating a
  -- vault succeeds. Its file opens with that password to the state and payload of the
  -- creation, and the password protects the state.
  pub open-create_vault :
      (c : ℕ) (rest payload : Text) (params : KdfParams) (w : Entropy)
      → Derived 32 (derive_key p (c ∷ rest) (encode_groups (draw_bytes 16 0 w)) params)
      → p.IsEncodable payload
      → (r : Created) × ((create_vault p (c ∷ rest) payload params w).0 ≡ ok r)
        × (open_vault p r.file (c ∷ rest) ≡ ok (record { state = r.state; payload = payload }))
        × Protects (c ∷ rest) r.state
  unfolding create_vault generate_user_key random_bytes
  open-create_vault c rest payload params w accepts enc =
      let salt = draw_bytes 16 0 w in
      let user_key = draw_bytes 64 0 (later 16 w) in
      let u =
        wrap_user_key-Wraps (c ∷ rest) params salt user_key (later 64 (later 16 w)) accepts
          (draw-IsKey 64 0 (later 16 w)) in
      let s = rewrapped params salt u.text user_key in
      let (file, written, opens) =
        serialize-opens s (c ∷ rest) payload (later 12 (later 64 (later 16 w))) u.protects enc in
      (
        record { file = file; state = s },
        rw (
          to_base64-bytes salt (draw-IsKey 16 0 w).bytes,
          u.derives,
          u.stretches,
          u.wraps,
          written,
        ),
        opens,
        u.protects,
      )

  -- Changing the password succeeds where the key derivation accepts the new one with the new salt,
  -- which is the Base64 of the first sixteen random bytes, and this password is not blank, the payload
  -- can be encoded and the user key has 64 bytes. The user key is kept, and the new file opens with the new password to the new state and the payload.
  pub open-change_master_password :
      (s : VaultState) (c : ℕ) (rest payload : Text) (params : KdfParams) (w : Entropy)
      → IsKey 64 s.user_key
      → Derived 32 (derive_key p (c ∷ rest) (encode_groups (draw_bytes 16 0 w)) params)
      → p.IsEncodable payload
      → (r : Created) × ((change_master_password p s (c ∷ rest) payload params w).0 ≡ ok r)
        × (r.state.user_key ≡ s.user_key)
        × (open_vault p r.file (c ∷ rest) ≡ ok (record { state = r.state; payload = payload }))
        × Protects (c ∷ rest) r.state
  unfolding change_master_password random_bytes
  open-change_master_password s c rest payload params w is_key accepts enc =
      let salt = draw_bytes 16 0 w in
      let u = wrap_user_key-Wraps (c ∷ rest) params salt s.user_key (later 16 w) accepts is_key in
      let next = rewrapped params salt u.text s.user_key in
      let (file, written, opens) =
        serialize-opens next (c ∷ rest) payload (later 12 (later 16 w)) u.protects enc in
      (
        record { file = file; state = next },
        rw (
          to_base64-bytes salt (draw-IsKey 16 0 w).bytes,
          u.derives,
          u.stretches,
          u.wraps,
          written,
        ),
        refl,
        opens,
        u.protects,
      )
