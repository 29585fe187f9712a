-- ===== src/Tests/Toy.antt =====
-- A platform that meets every law of `Platform`: nothing in it is secret, and every law can hold.
use passwd.Base.{
  ℕ, zero, suc, ◌+◌, ◌*◌, ◌/◌, ◌%◌, ◌<◌, ◌≡◌, ◌≢◌, refl, ap, ◌&&◌, [], ◌∷◌, ◌++◌, leb, ◌==◌,
  if◌then◌else◌, Text, Bytes, codes, All, AllBytes, All-append, arith,
}
use passwd.Base.Outcome.{Result, ok, throw, error}
use passwd.Base.Act.{Entropy, later, draw_bytes, draw_bytes-AllBytes}
use passwd.Crypto.Platform.{Platform, IsKey, Sealed, Derived}
use passwd.Tests.Codec.{write, read, read-write, read_number}

-- Sixteen bits of each code unit, low byte first.
unfoldable pub spread : Text → Bytes
spread [] = []
spread (c ∷ s) = (c % 256) ∷ (c / 256 % 256) ∷ spread s

unfoldable pub gather : Bytes → Text
gather [] = []
gather (a ∷ []) = []
gather (a ∷ b ∷ s) = (a + b * 256) ∷ gather s

abbrev pub Narrow : Text → Type 0
Narrow = All (λ c. c < 65536)

pub spread-AllBytes : (s : Text) → AllBytes (spread s)
unfolding spread
spread-AllBytes [] = tt
spread-AllBytes (c ∷ s) = (omega arith, (omega arith, spread-AllBytes s))

pub gather-spread : (s : Text) → Narrow s → gather (spread s) ≡ s
unfolding spread gather
gather-spread [] h = refl
gather-spread (c ∷ s) (hc, h) = ground (arith, gather-spread s h)

unfoldable pub lower_ascii : Text → Text
lower_ascii [] = []
lower_ascii (c ∷ s) = (if leb b'A' c && leb c b'Z' then c + 32 else c) ∷ lower_ascii s

-- What follows a prefix.
unfoldable pub strip : Bytes → Bytes → Result Bytes
strip [] c = ok c
strip (x ∷ k) [] = throw (error (codes "OperationError"))
strip (x ∷ k) (y ∷ c) =
    let rest = strip k c in if x == y then rest else throw (error (codes "OperationError"))

strip-append : (k s : Bytes) → strip k (k ++ s) ≡ ok s
unfolding strip
strip-append [] s = refl
strip-append (x ∷ k) s = ground (arith, strip-append k s)

unfoldable pub sum : Bytes → ℕ
sum [] = 7
sum (b ∷ bs) = b + 31 * sum bs

-- As many bytes as asked for, from a seed.
unfoldable pub stretch : ℕ → ℕ → Bytes
stretch zero seed = []
stretch (suc n) seed = (seed % 256) ∷ stretch n (seed + 1)

pub stretch-IsKey : (n seed : ℕ) → IsKey n (stretch n seed)
unfolding stretch
stretch-IsKey zero seed = record { size = refl; bytes = tt }
stretch-IsKey (suc n) seed =
    let rest = stretch-IsKey n (seed + 1) in
    record { size = ap suc rest.size; bytes = (omega arith, rest.bytes) }

pub stretch-Derived : (n seed : ℕ) → Derived n (ok (stretch n seed))
stretch-Derived n seed = record {
  key = stretch n seed;
  derives = refl;
  is_key = stretch-IsKey n seed;
}

pub seal-Sealed :
    (k pt : Bytes) → AllBytes k → k ≢ [] → AllBytes pt → Sealed (strip k) pt (ok (k ++ pt))
seal-Sealed [] pt hk ne hp = absurd (ne refl)
seal-Sealed (x ∷ k) pt hk ne hp = record {
  ciphertext = (x ∷ k) ++ pt;
  seals = refl;
  bytes = All-append _ (x ∷ k) pt hk hp;
  ne_nil = cc;
  reopens = strip-append (x ∷ k) pt;
}

pub key_ne_nil : {n : ℕ} (k : Bytes) → IsKey (suc n) k → k ≢ []
key_ne_nil [] h e = absurd (omega (arith, h.size))
key_ne_nil (x ∷ k) h e = cc

unfoldable pub generate : Entropy → Result (Bytes × Bytes) × Entropy
generate w = (ok (0 ∷ draw_bytes 4 0 w, 0 ∷ draw_bytes 4 0 w), later 4 w)

pub generates : (w : Entropy) → (generate w).0 ≡ ok (0 ∷ draw_bytes 4 0 w, 0 ∷ draw_bytes 4 0 w)
unfolding generate
generates w = refl

generate_pair :
    (w : Entropy) (public private : Bytes)
    → (generate w).0 ≡ ok (public, private)
    → (public ≡ 0 ∷ draw_bytes 4 0 w) × (private ≡ 0 ∷ draw_bytes 4 0 w)
unfolding generate
generate_pair w public private h = ground arith

pub rsa_toy :
    (w v : Entropy) (public private m : Bytes)
    → (generate w).0 ≡ ok (public, private)
    → IsKey 32 m
    → Sealed (strip private) m (ok (public ++ m))
rsa_toy w v public private m made h =
    let (e, f) = generate_pair w public private made in
    rw (e, f)
      (seal-Sealed (0 ∷ draw_bytes 4 0 w) m (omega arith, draw_bytes-AllBytes 4 0 w) (cc) h.bytes)

abbrev pub toy : Platform
toy = record {
  IsEncodable = Narrow;
  utf8 = spread;
  from_utf8 = gather;
  utf8-bytes = spread-AllBytes;
  from_utf8-utf8 = gather-spread;
  nfkc = λ s. s;
  lower = lower_ascii;
  stringify = write;
  stringify_indented = write;
  parse_json = read;
  parse-stringify = λ v _. read-write v;
  parse-stringify_indented = λ v _. read-write v;
  parse_json_number = λ a b. read_number _;
  aes_encrypt = λ k n pt. ok (k ++ pt);
  aes_decrypt = λ k n c. strip k c;
  aes_seals = λ k n pt hk hn hp. seal-Sealed k pt hk.bytes (key_ne_nil k hk) hp;
  hmac = λ h k m. ok (stretch 32 (sum k + sum m));
  hmac_sha256_derives = λ k m _ _ _. stretch-Derived 32 _;
  pbkdf2_bits = λ pw salt iterations size. ok (stretch size (sum pw + sum salt + iterations));
  pbkdf2_derives = λ pw salt iterations size _ _. stretch-Derived size _;
  Argon2Accepts = λ _ _ _ _ _. Unit;
  argon2id = λ pw salt iterations memory parallelism.
      ok (stretch 32 (sum pw + sum salt + iterations + memory + parallelism));
  argon2id_derives = λ pw salt iterations memory parallelism _. stretch-Derived 32 _;
  rsa_generate = generate;
  rsa_encrypt = λ public m v. (ok (public ++ m), v);
  rsa_decrypt = strip;
  rsa_generates = λ w. (
    0 ∷ draw_bytes 4 0 w,
    0 ∷ draw_bytes 4 0 w,
    generates w,
    (omega arith, draw_bytes-AllBytes 4 0 w),
    (omega arith, draw_bytes-AllBytes 4 0 w),
  );
  rsa_seals = rsa_toy;
}
