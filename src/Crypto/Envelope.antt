-- ===== src/Crypto/Envelope.antt =====
-- The key-derivation parameters inside the JSON documents of vault.ts and backup.ts.
pub mod Kdf
use passwd.Base.{ℕ, Option, none, some, List, [], ◌∷◌, if◌then◌else◌, Text, codes}
use passwd.Base.Strings.{split}
use passwd.Base.Decimal.{decimal, natural_of}
use passwd.Base.Json.{
  Json, null, string, object, number, Members, member, end_members, get, is_string, to_text,
}
use passwd.Base.Outcome.{Result, ok, throw, error, ◌>>=◌}
use passwd.Crypto.Primitives.{KdfParams, KdfType, pbkdf2, argon2id}

-- An absent number is left out of the object.
abbrev pub optional_member : Text → Option ℕ → Members → Members
optional_member k none ms = ms
optional_member k (some n) ms = member k (number (decimal n)) ms

abbrev pub kdf_type_text : KdfType → Text
kdf_type_text argon2id = codes "argon2id"
kdf_type_text pbkdf2 = codes "pbkdf2"

-- `KdfParams` as the value that is written.
abbrev pub kdf_json : KdfParams → Json
kdf_json k = object (
    member (codes "type") (string (kdf_type_text k.type)) (
      member (codes "iterations") (number (decimal k.iterations)) (
        optional_member (codes "memoryMiB") k.memory_mib
          (optional_member (codes "parallelism") k.parallelism end_members))))

abbrev bad_parameter : {A : Type 0} → Result A
bad_parameter = throw (error (codes "invalid key derivation parameter"))

or_bad : Option ℕ → Result ℕ
or_bad none = bad_parameter
or_bad (some n) = ok n

-- A natural number in decimal digits.
unfoldable pub natural_member : Option Json → Result ℕ
unfolding or_bad natural_of
natural_member (some (number t)) = or_bad (natural_of t)
natural_member _ = bad_parameter

if_read : Option ℕ → Option ℕ → Option ℕ
if_read none whole = none
if_read (some fraction) whole = whole

-- The value of the whole part if nothing or digits are behind the decimal point.
whole_part : List Text → Option ℕ
unfolding natural_of if_read
whole_part (front ∷ [] ∷ []) = natural_of front
whole_part (front ∷ (c ∷ s) ∷ []) = if_read (natural_of (c ∷ s)) (natural_of front)
whole_part _ = none

or_whole_part : Text → Option ℕ → Option ℕ
unfolding whole_part split
or_whole_part t none = whole_part (split b'.' t)
or_whole_part t (some n) = some n

-- The integer that `crypto.subtle` takes for a number: a fraction is cut off.
integer_of : Text → Option ℕ
unfolding or_whole_part natural_of
integer_of t = or_whole_part t (natural_of t)

-- `iterations`. PBKDF2's rounds are converted by `crypto.subtle`, a text of decimal digits and a
-- fraction too; hash-wasm refuses what is not an integer. Exponents, signs and the other spellings
-- of a number are refused here.
iterations_member : KdfType → Option Json → Result ℕ
unfolding or_bad integer_of natural_member
iterations_member argon2id v = natural_member v
iterations_member pbkdf2 (some (number t)) = or_bad (integer_of t)
iterations_member pbkdf2 (some (string t)) = or_bad (integer_of t)
iterations_member pbkdf2 _ = bad_parameter

-- `params.k ?? default`: a missing or null member is absent.
unfoldable pub optional_natural : Option Json → Result (Option ℕ)
optional_natural none = ok none
optional_natural (some null) = ok none
optional_natural v = do n ← natural_member v; ok (some n)

natural_or_none : Option Json → Option ℕ
unfolding natural_of
natural_or_none (some (number t)) = natural_of t
natural_or_none _ = none

-- `memoryMiB` and `parallelism`, which are not looked at under PBKDF2: what is not a natural number
-- is then left out. hash-wasm refuses what is not an integer; a memory in a text or with a fraction,
-- which the product with 1024 can make an integer, is refused here.
argon2_member : KdfType → Option Json → Result (Option ℕ)
unfolding optional_natural natural_or_none
argon2_member argon2id v = optional_natural v
argon2_member pbkdf2 v = ok (natural_or_none v)

kdf_type : Option Json → KdfType
unfolding is_string
kdf_type v = if is_string (codes "pbkdf2") v then pbkdf2 else argon2id

kdf_members : Json → Result KdfParams
unfolding kdf_type iterations_member argon2_member get
kdf_members v = do
  iterations ← iterations_member (kdf_type (get (codes "type") v)) (get (codes "iterations") v)
  memory ← argon2_member (kdf_type (get (codes "type") v)) (get (codes "memoryMiB") v)
  parallelism ← argon2_member (kdf_type (get (codes "type") v)) (get (codes "parallelism") v)
  ok (record {
    type = kdf_type (get (codes "type") v);
    iterations = iterations;
    memory_mib = memory;
    parallelism = parallelism;
  })

-- The `kdf` member as `deriveKey` reads it: every type but "pbkdf2" is Argon2id.
unfoldable pub read_kdf : Option Json → Result KdfParams
unfolding kdf_members
read_kdf none = throw (error (codes "Cannot read properties of undefined (reading 'type')"))
read_kdf (some null) = throw (error (codes "Cannot read properties of null (reading 'type')"))
read_kdf (some v) = kdf_members v

-- A member that `TextEncoder` encodes: it is converted to a text, and nothing if it is missing.
unfoldable pub salt_text : Option Json → Text
unfolding to_text
salt_text none = []
salt_text (some v) = to_text v
