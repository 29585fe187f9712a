-- ===== src/Crypto/Envelope/Kdf.antt =====
-- Parameters in JSON, written and read.
use passwd.Base.{ℕ, ◌≡◌, refl, Option, none, some}
use passwd.Base.Equality.{equal}
use passwd.Base.Decimal.{decimal, natural_of-decimal}
use passwd.Base.Json.{IsStable, number, find_member}
use passwd.Base.Outcome.{ok}
use passwd.Crypto.Primitives.{KdfParams, KdfType, argon2id, pbkdf2}
use passwd.Crypto.Envelope.{kdf_json, natural_member, read_kdf}

natural_member-number : (n : ℕ) → natural_member (some (number (decimal n))) ≡ ok n
unfolding natural_member
natural_member-number n = rw natural_of-decimal

abbrev params : KdfType → ℕ → Option ℕ → Option ℕ → KdfParams
params t i m q = record { type = t; iterations = i; memory_mib = m; parallelism = q }

read_params :
    (t : KdfType) (i : ℕ) (m q : Option ℕ)
    → read_kdf (some (kdf_json (params t i m q))) ≡ ok (params t i m q)
unfolding read_kdf
read_params argon2id i none none = rw natural_of-decimal
read_params argon2id i none (some q) = simp natural_of-decimal
read_params argon2id i (some m) none = simp natural_of-decimal
read_params argon2id i (some m) (some q) = simp natural_of-decimal
read_params pbkdf2 i none none = rw natural_of-decimal
read_params pbkdf2 i none (some q) = simp natural_of-decimal
read_params pbkdf2 i (some m) none = simp natural_of-decimal
read_params pbkdf2 i (some m) (some q) = simp natural_of-decimal

-- The `kdf` member is read back as it was written.
pub read_kdf-kdf_json : (k : KdfParams) → read_kdf (some (kdf_json k)) ≡ ok k
read_kdf-kdf_json k = read_params k.type k.iterations k.memory_mib k.parallelism

IsStable-params : (t : KdfType) (i : ℕ) (m q : Option ℕ) → IsStable (kdf_json (params t i m q))
unfolding find_member equal
IsStable-params t i none none = (refl, tt, (refl, (i, refl), tt))
IsStable-params t i none (some q) = (refl, tt, (refl, (i, refl), (refl, (q, refl), tt)))
IsStable-params t i (some m) none = (refl, tt, (refl, (i, refl), (refl, (m, refl), tt)))
IsStable-params t i (some m) (some q) =
    (refl, tt, (refl, (i, refl), (refl, (m, refl), (refl, (q, refl), tt))))

pub kdf_json-IsStable : (k : KdfParams) → IsStable (kdf_json k)
kdf_json-IsStable k = IsStable-params k.type k.iterations k.memory_mib k.parallelism
