-- ===== src/Crypto/Totp/Base32.antt =====
-- The bytes of a decoded secret.
use passwd.Base.{
  ℕ, zero, suc, ◌+◌, ◌*◌, ◌/◌, ◌%◌, ◌^◌, ◌<◌, ◌≡◌, refl, sym, ap, ◌∙◌, Option, none, some, [], ◌∷◌,
  ◌++◌, Text, Bytes, length, length-append, AllBytes, All-append, arith, ◌-◌, ltb, ltb→lt,
  Bool-cases, Option-cases, inl, inr, lt→leb, le→leb,
}
use mathlib.Core.Path.{subst, subst⁻¹}
use passwd.Crypto.Totp.{base32_digit, Decoder, take_digit, decode_digits, decode_clean}

-- A text of base32 digits, as the number that it spells after `n`.
unfoldable pub spelled : ℕ → Text → Option ℕ
spelled n [] = some n
spelled n (c ∷ s) = elim (base32_digit c) [ none ↦ none | some x ↦ spelled (n * 32 + x) s ]

-- Bytes, as the number that they spell after `n`.
abbrev pub big_endian : ℕ → Bytes → ℕ
big_endian n [] = n
big_endian n (b ∷ bs) = big_endian (n * 256 + b) bs

big_endian-snoc :
    (n : ℕ) (bs : Bytes) (b : ℕ) → big_endian n (bs ++ (b ∷ [])) ≡ big_endian n bs * 256 + b
big_endian-snoc n [] b = refl
big_endian-snoc n (a ∷ bs) b = big_endian-snoc (n * 256 + a) bs b

base32_digit-below : (c : ℕ) {x : ℕ} → base32_digit c ≡ some x → x < 32
unfolding base32_digit
base32_digit-below c h = ground arith

-- The decoder after `count` digits that spell `n`.
record Decoded (n count : ℕ) (d : Decoder) : Type 0 where
  few : d.bits < 8
  value : d.value ≡ n % 2 ^ 32
  bytes : AllBytes d.out
  size : 8 * length d.out + d.bits ≡ 5 * count
  number : big_endian 0 d.out ≡ n / 2 ^ d.bits

-- The bits that a digit adds are below those that the bytes hold.
kept_bits : (bits n x : ℕ) → bits < 8 → x < 32 → (n * 32 + x) / 2 ^ (bits + 5) ≡ n / 2 ^ bits
kept_bits zero n x h lt = omega (arith, lt)
kept_bits (suc zero) n x h lt = omega (arith, lt)
kept_bits (suc (suc zero)) n x h lt = omega (arith, lt)
kept_bits (suc (suc (suc zero))) n x h lt = omega (arith, lt)
kept_bits (suc (suc (suc (suc zero)))) n x h lt = omega (arith, lt)
kept_bits (suc (suc (suc (suc (suc zero))))) n x h lt = omega (arith, lt)
kept_bits (suc (suc (suc (suc (suc (suc zero)))))) n x h lt = omega (arith, lt)
kept_bits (suc (suc (suc (suc (suc (suc (suc zero))))))) n x h lt = omega (arith, lt)
kept_bits (suc (suc (suc (suc (suc (suc (suc (suc bits)))))))) n x h lt = absurd (omega arith)

-- The wrap to 32 bits keeps the byte that is taken out.
next_byte :
    (bits m : ℕ) → bits < 8 → m / 2 ^ (bits + 8) * 256 + m % 2 ^ 32 / 2 ^ bits % 256 ≡ m / 2 ^ bits
next_byte zero m h = omega arith
next_byte (suc zero) m h = omega arith
next_byte (suc (suc zero)) m h = omega arith
next_byte (suc (suc (suc zero))) m h = omega arith
next_byte (suc (suc (suc (suc zero)))) m h = omega arith
next_byte (suc (suc (suc (suc (suc zero))))) m h = omega arith
next_byte (suc (suc (suc (suc (suc (suc zero)))))) m h = omega arith
next_byte (suc (suc (suc (suc (suc (suc (suc zero))))))) m h = omega arith
next_byte (suc (suc (suc (suc (suc (suc (suc (suc bits)))))))) m h = absurd (omega arith)

wrap : (n x : ℕ) → (n % 2 ^ 32 * 32 + x) % 2 ^ 32 ≡ (n * 32 + x) % 2 ^ 32
wrap n x = omega arith

-- A digit that does not fill a byte.
shifts :
    (n count x : ℕ) (d : Decoder)
    → d.bits + 5 < 8
    → Decoded n count d
    → x < 32
    → Decoded (n * 32 + x) (count + 1) (take_digit x d)
unfolding take_digit
shifts n count x d h was lt = rw (lt→leb (d.bits + 5) 8 h) (record {
  few = h;
  value = rw was.value (wrap n x);
  bytes = was.bytes;
  size = omega (arith, was.size);
  number = was.number ∙ sym (kept_bits d.bits n x was.few lt);
})

-- The byte above the lowest `rest` bits of 32.
abbrev byte_at : ℕ → ℕ → ℕ
byte_at rest m = m % 2 ^ 32 / 2 ^ rest % 256

-- A digit that fills a byte, with `rest` bits left.
fills :
    (n count x rest : ℕ) (d : Decoder)
    → d.bits + 5 ≡ rest + 8
    → rest < 8
    → Decoded n count d
    → x < 32
    → Decoded (n * 32 + x) (count + 1) (take_digit x d)
unfolding take_digit
fills n count x rest d h few was lt =
    let left : d.bits + 5 - 8 ≡ rest = omega (arith, h) in
    let shifted : n / 2 ^ d.bits ≡ (n * 32 + x) / 2 ^ (rest + 8) =
      sym (kept_bits d.bits n x was.few lt) ∙ ap (λ e. (n * 32 + x) / 2 ^ e) h in
    rw (le→leb 8 (d.bits + 5) (omega (arith, h)), left, was.value, wrap n x)
      (record {
        few = few;
        value = refl;
        bytes = All-append (λ b. b < 256) d.out _ was.bytes (omega arith, tt);
        size = omega (arith, was.size, h, length-append d.out (byte_at rest (n * 32 + x) ∷ []));
        number =
            big_endian-snoc 0 d.out (byte_at rest (n * 32 + x))
            ∙ rw (was.number, shifted) (next_byte rest (n * 32 + x) few);
      })

take_digit-Decoded :
    (n count x : ℕ) (d : Decoder)
    → Decoded n count d
    → x < 32
    → Decoded (n * 32 + x) (count + 1) (take_digit x d)
take_digit-Decoded n count x d was lt = elim (Bool-cases (ltb (d.bits + 5) 8)) [
  | inl e ↦ shifts n count x d (ltb→lt _ _ e) was lt
  | inr e ↦ fills n count x (d.bits + 5 - 8) d (ground arith) (omega (arith, was.few)) was lt
]

-- What decoding makes of `count` digits: it succeeds where they are all digits, and its bytes are
-- then the number that they spell, less the last bits that fill no byte.
abbrev pub Reads : ℕ → Option ℕ → Option Bytes → Type 0
Reads count none none = Unit
Reads count (some n) none = ⊥
Reads count none (some out) = ⊥
Reads count (some n) (some out) =
    (length out ≡ 5 * count / 8) × AllBytes out × (big_endian 0 out ≡ n / 2 ^ (5 * count % 8))

Decoded-Reads : (n count : ℕ) (d : Decoder) → Decoded n count d → Reads count (some n) (some d.out)
Decoded-Reads n count d was =
    let bits : d.bits ≡ 5 * count % 8 = omega (arith, was.size, was.few) in
    (omega (arith, was.size, was.few), was.bytes, was.number ∙ ap (λ e. n / 2 ^ e) bits)

step-some :
    (c : ℕ) (s : Text) (n x : ℕ) (d : Decoder)
    → base32_digit c ≡ some x
    → (spelled n (c ∷ s) ≡ spelled (n * 32 + x) s)
      × (decode_digits (c ∷ s) d ≡ decode_digits s (take_digit x d))
unfolding spelled decode_digits
step-some c s n x d e = (rw (e, spelled) refl, rw (e, decode_digits) refl)

step-none :
    (c : ℕ) (s : Text) (n : ℕ) (d : Decoder)
    → base32_digit c ≡ none
    → (spelled n (c ∷ s) ≡ none) × (decode_digits (c ∷ s) d ≡ none)
unfolding spelled decode_digits
step-none c s n d e = (rw (e, spelled) refl, rw (e, decode_digits) refl)

decode_digits-Reads :
    (s : Text) (n count : ℕ) (d : Decoder)
    → Decoded n count d
    → Reads (count + length s) (spelled n s) (decode_digits s d)
unfolding decode_digits spelled
decode_digits-Reads [] n count d was =
    subst (λ k. Reads k (some n) (some d.out)) (omega arith) (Decoded-Reads n count d was)
decode_digits-Reads (c ∷ s) n count d was = elim (Option-cases (base32_digit c)) [
  | inl e ↦
      let (no_number, refused) = step-none c s n d e in
      subst⁻¹ (Reads (count + length (c ∷ s)) (spelled n (c ∷ s))) refused
        (subst⁻¹ (λ m. Reads (count + length (c ∷ s)) m none) no_number tt)
  | inr (x, e) ↦
      let (number, decodes) = step-some c s n x d e in
      let rest =
        decode_digits-Reads s (n * 32 + x) (count + 1) (take_digit x d)
          (take_digit-Decoded n count x d was (base32_digit-below c e)) in
      subst⁻¹ (Reads (count + length (c ∷ s)) (spelled n (c ∷ s))) decodes (
        subst⁻¹ (λ m. Reads (count + length (c ∷ s)) m (decode_digits s (take_digit x d))) number
          (subst (λ k. Reads k (spelled (n * 32 + x) s) (decode_digits s (take_digit x d)))
            (omega arith) rest))
]

start : Decoded 0 0 (record { bits = 0; value = 0; out = [] })
start = record { few = omega arith; value = refl; bytes = tt; size = refl; number = refl }

-- Separators and padding apart, a text that is not empty is refused if a character is no base32
-- digit. Otherwise `n` characters give the first `5 n / 8` bytes, rounded down, of the number that
-- they spell: the 32-bit arithmetic of the loop loses none of their bits.
pub decode_clean-Reads :
    (c : ℕ) (s : Text) → Reads (length (c ∷ s)) (spelled 0 (c ∷ s)) (decode_clean (c ∷ s))
unfolding decode_clean
decode_clean-Reads c s =
    subst (λ k. Reads k (spelled 0 (c ∷ s)) (decode_clean (c ∷ s))) (omega arith)
      (decode_digits-Reads (c ∷ s) 0 0 (record { bits = 0; value = 0; out = [] }) start)
