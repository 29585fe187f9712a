-- ===== src/Crypto/Account/Flows/Unlocking.antt =====
-- Registration, and unlocking.
use passwd.Base.{◌≡◌, refl, arith, ◌++◌, Text, Bytes, codes}
use passwd.Base.Outcome.{ok}
use passwd.Base.Act.{Entropy, later, draw_bytes}
use passwd.Crypto.Base64.{encode_groups}
use passwd.Crypto.Base64.RoundTrip.{to_base64-bytes}
use passwd.Crypto.Identifier.{normalize_identifier}
use passwd.Crypto.Platform.{Platform, IsKey, Derived}
use passwd.Crypto.Primitives.{KdfParams, random_bytes, derive_pbkdf2}
use passwd.Crypto.Primitives.Derivation.{hkdf_expand-Derived}
use passwd.Crypto.Primitives.Sealing.{draw-IsKey, IsKey-ne-nil, seal_text-SealsText}
use passwd.Crypto.Sharing.RoundTrip.{generate_user_keypair-Generates}
use passwd.Crypto.Account.Keys.{
  StretchedKey, master_password_hash_domain, derive_master_key, derive_master_password_hash,
  stretch_master_key, unwrap_user_key, unlock,
}
use passwd.Crypto.Account.Flows.{Registration, generate_user_key, wrap_user_key, build_registration}

module _ (p : Platform) where
  -- A derived master key stretches to a key for AES-GCM.
  pub record Stretches (master_key : Bytes) : Type 0 where
    pub stretched : StretchedKey
    pub stretches : stretch_master_key p master_key ≡ ok stretched
    pub is_key : IsKey 32 stretched.enc_key

  pub stretch_master_key-Stretches : (k : Bytes) → IsKey 32 k → Stretches k
  unfolding stretch_master_key
  stretch_master_key-Stretches k h =
      let enc = hkdf_expand-Derived p k (codes "enc") 32 (IsKey-ne-nil k h) h.bytes in
      let mac = hkdf_expand-Derived p k (codes "mac") 32 (IsKey-ne-nil k h) h.bytes in
      record {
        stretched = record { enc_key = enc.key; mac_key = mac.key };
        stretches = rw (enc.derives, mac.derives);
        is_key = enc.is_key;
      }

  pub record Hashes (master_key : Bytes) (master_password : Text) : Type 0 where
    pub hash : Text
    pub hashes : derive_master_password_hash p master_key master_password ≡ ok hash

  pub derive_master_password_hash-Hashes : (k : Bytes) (password : Text) → Hashes k password
  unfolding derive_master_password_hash derive_pbkdf2
  derive_master_password_hash-Hashes k password =
      let d =
        p.pbkdf2_derives k (p.utf8 (master_password_hash_domain ++ p.nfkc password)) 1 32
          (omega arith) (omega arith) in
      record {
        hash = encode_groups d.key;
        hashes = rw d.derives (to_base64-bytes d.key d.is_key.bytes);
      }

  -- What is wrapped under a stretched key is unlocked by every spelling of the identifier that
  -- normalizes alike.
  pub record Rewraps (identifier password : Text) (params : KdfParams) (user_key : Bytes)
      (w : Entropy) : Type 0 where
    pub stretched : StretchedKey
    pub hash : Text
    pub text : Text
    pub master_key : Bytes
    pub derives : derive_master_key p password identifier params ≡ ok master_key
    pub stretches : stretch_master_key p master_key ≡ ok stretched
    pub wraps : wrap_user_key p stretched user_key w ≡ (ok text, later 12 w)
    pub hashes : derive_master_password_hash p master_key password ≡ ok hash
    pub unlocks :
        (typed : Text)
        → normalize_identifier p typed ≡ normalize_identifier p identifier
        → unlock p typed password params text
          ≡ ok (record { user_key = user_key; master_password_hash = hash })

  pub wrap_user_key-Rewraps :
      (identifier password : Text) (params : KdfParams) (user_key : Bytes) (w : Entropy)
      → Derived 32 (derive_master_key p password identifier params)
      → IsKey 64 user_key
      → Rewraps identifier password params user_key w
  unfolding wrap_user_key unlock unwrap_user_key
  wrap_user_key-Rewraps identifier password params user_key w d h =
      let s = stretch_master_key-Stretches d.key d.is_key in
      let t = seal_text-SealsText p s.stretched.enc_key user_key w s.is_key h.bytes in
      let m = derive_master_password_hash-Hashes d.key password in
      record {
        stretched = s.stretched;
        hash = m.hash;
        text = t.text;
        master_key = d.key;
        derives = d.derives;
        stretches = s.stretches;
        wraps = t.seals;
        hashes = m.hashes;
        unlocks = λ typed same.
            let derived : derive_master_key p password typed params ≡ ok d.key =
              unfold derive_master_key in rw same (unfold derive_master_key in d.derives) in
            rw (derived, s.stretches, t.opens, m.hashes);
      }

  -- Wherever the key derivation accepts the parameters, registration succeeds from every state of
  -- the random source. Unlocking with the password, and a spelling of the identifier that
  -- normalizes alike, gives the user key of the registration and the hash sent to the server, with
  -- the parameters that are sent.
  pub unlock-build_registration :
      (identifier typed password : Text) (params : KdfParams) (w : Entropy)
      → normalize_identifier p typed ≡ normalize_identifier p identifier
      → Derived 32 (derive_master_key p password identifier params)
      → (r : Registration) × ((build_registration p identifier password params w).0 ≡ ok r)
        × IsKey 64 r.user_key
        × (r.bundle.kdf ≡ params)
        × (unlock p typed password params r.bundle.protected_user_key
            ≡ ok (record {
              user_key = r.user_key;
              master_password_hash = r.bundle.master_password_hash;
            }))
  unfolding build_registration generate_user_key random_bytes
  unlock-build_registration identifier typed password params w same d =
      let user_key = draw_bytes 64 0 w in
      let is_key = draw-IsKey 64 0 w in
      let r = wrap_user_key-Rewraps identifier password params user_key (later 64 w) d is_key in
      let g = generate_user_keypair-Generates p user_key is_key (later 12 (later 64 w)) in
      (
        record {
          bundle = record {
            identifier = normalize_identifier p identifier;
            kdf = params;
            master_password_hash = r.hash;
            protected_user_key = r.text;
            public_key = g.pair.public_key;
            protected_private_key = g.pair.protected_private_key;
          };
          user_key = user_key;
        },
        rw (r.derives, r.stretches, r.wraps, r.hashes, g.generates),
        is_key,
        refl,
        r.unlocks typed same,
      )
