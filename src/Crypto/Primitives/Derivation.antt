-- ===== src/Crypto/Primitives/Derivation.antt =====
-- The bytes of the HKDF loop.
use passwd.Base.{
  ℕ, zero, suc, ◌+◌, ◌*◌, ◌%◌, ◌≢◌, refl, [], ◌∷◌, ◌++◌, Text, Bytes, arith, length-append,
  length-take, take, AllBytes, All-append,
}
use passwd.Crypto.Platform.{Platform, Derived}
use passwd.Crypto.Primitives.{block_count, hkdf_rounds, hkdf_expand}

pub AllBytes-take : (n : ℕ) (bs : Bytes) → AllBytes bs → AllBytes (take n bs)
AllBytes-take zero bs h = tt
AllBytes-take (suc n) [] h = tt
AllBytes-take (suc n) (b ∷ bs) (hb, h) = (hb, AllBytes-take n bs h)

module _ (p : Platform) where
  open p use {utf8, utf8-bytes, hmac_sha256_derives}

  hkdf_rounds-Derived :
      (n i : ℕ) (prk info prev : Bytes)
      → prk ≢ []
      → AllBytes prk
      → AllBytes info
      → AllBytes prev
      → Derived (n * 32) (hkdf_rounds p n i prk info prev)
  unfolding hkdf_rounds
  hkdf_rounds-Derived zero i prk info prev ne hk hi hp = record {
    key = [];
    derives = refl;
    is_key = record { size = refl; bytes = tt };
  }
  hkdf_rounds-Derived (suc n) i prk info prev ne hk hi hp =
      let counter : AllBytes (((i + 1) % 256) ∷ []) = (omega arith, tt) in
      let block =
        hmac_sha256_derives prk (prev ++ (info ++ ((i + 1) % 256) ∷ [])) ne hk
          (All-append _ prev _ hp (All-append _ info _ hi counter)) in
      let rest = hkdf_rounds-Derived n (i + 1) prk info block.key ne hk hi block.is_key.bytes in
      record {
        key = block.key ++ rest.key;
        derives = rw (block.derives, rest.derives);
        is_key = record {
          size =
              omega (arith, length-append block.key rest.key, block.is_key.size, rest.is_key.size);
          bytes = All-append _ block.key rest.key block.is_key.bytes rest.is_key.bytes;
        };
      }

  -- HKDF-Expand of a non-empty key returns exactly the number of bytes asked for, at every length.
  pub hkdf_expand-Derived :
      (prk : Bytes) (info : Text) (size : ℕ)
      → prk ≢ []
      → AllBytes prk
      → Derived size (hkdf_expand p prk info size)
  unfolding hkdf_expand
  hkdf_expand-Derived prk info size ne hk =
      let okm =
        hkdf_rounds-Derived (block_count size) 0 prk (utf8 info) [] ne hk (utf8-bytes info) tt in
      record {
        key = take size okm.key;
        derives = rw okm.derives;
        is_key = record {
          size = omega (arith, length-take size okm.key, okm.is_key.size);
          bytes = AllBytes-take size okm.key okm.is_key.bytes;
        };
      }
