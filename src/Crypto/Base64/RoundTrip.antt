-- ===== src/Crypto/Base64/RoundTrip.antt =====
-- Encoding and decoding.
use passwd.Base.{
  ℕ, ◌+◌, ◌*◌, ◌/◌, ◌%◌, ◌<◌, ◌≡◌, ◌≢◌, refl, false, Option, some, [], ◌∷◌, arith, Text, Bytes,
  length, All, AllBytes,
}
use passwd.Base.Outcome.{ok, ◌>>=◌}
use passwd.Crypto.Base64.{
  digit, sextet, quad, encode_groups, any_wide, btoa, without_space, chomp, decode_groups, unpadded,
  atob, to_base64, from_base64,
}

-- The encoder's output with no padding.
bare : Bytes → Text
bare [] = []
bare (a ∷ []) = digit (a / 4) ∷ digit (a % 4 * 16) ∷ []
bare (a ∷ b ∷ []) = digit (a / 4) ∷ digit (a % 4 * 16 + b / 16) ∷ digit (b % 16 * 4) ∷ []
bare (a ∷ b ∷ c ∷ rest) =
    digit (a / 4)
    ∷ digit (a % 4 * 16 + b / 16)
    ∷ digit (b % 16 * 4 + c / 64)
    ∷ digit (c % 64)
    ∷ bare rest

sextet-digit : (x : ℕ) → x < 64 → sextet (digit x) ≡ some x
unfolding digit sextet
sextet-digit x h = ground arith

-- A digit or padding: no white space, and not the bar that separates two encoded parts.
pub record IsCode (c : ℕ) : Type 0 where
  pub visible : 32 < c
  pub not_bar : c ≢ b'|'

digit-IsCode : (x : ℕ) → IsCode (digit x)
unfolding digit
digit-IsCode x = ground arith

digit-ne-pad : (x : ℕ) → digit x ≢ b'='
unfolding digit
digit-ne-pad x = ground arith

pad-IsCode : IsCode b'='
pad-IsCode = omega arith

quad-digit :
    (a b c : ℕ) (rest : Bytes) (later : Option Bytes)
    → a < 256
    → b < 256
    → c < 256
    → later ≡ some rest
    → quad
        (digit (a / 4))
        (digit (a % 4 * 16 + b / 16))
        (digit (b % 16 * 4 + c / 64))
        (digit (c % 64))
        later
      ≡ some (a ∷ b ∷ c ∷ rest)
unfolding quad
quad-digit a b c rest later ha hb hc e =
    rw
      (
        sextet-digit (a / 4) (omega arith),
        sextet-digit (a % 4 * 16 + b / 16) (omega arith),
        sextet-digit (b % 16 * 4 + c / 64) (omega arith),
        sextet-digit (c % 64) (omega arith),
        e,
      )
      (ground arith)

decode_groups-bare : (bs : Bytes) → AllBytes bs → decode_groups (bare bs) ≡ some bs
unfolding bare decode_groups
decode_groups-bare [] h = refl
decode_groups-bare (a ∷ []) (ha, _) =
    rw (sextet-digit (a / 4) (omega arith), sextet-digit (a % 4 * 16) (omega arith)) (ground arith)
decode_groups-bare (a ∷ b ∷ []) (ha, (hb, _)) =
    rw
      (
        sextet-digit (a / 4) (omega arith),
        sextet-digit (a % 4 * 16 + b / 16) (omega arith),
        sextet-digit (b % 16 * 4) (omega arith),
      )
      (ground arith)
decode_groups-bare (a ∷ b ∷ c ∷ rest) (ha, (hb, (hc, h))) =
    quad-digit a b c rest _ ha hb hc (decode_groups-bare rest h)

pub encode_groups-IsCode : (bs : Bytes) → All IsCode (encode_groups bs)
unfolding encode_groups
encode_groups-IsCode [] = tt
encode_groups-IsCode (a ∷ []) = (digit-IsCode _, (digit-IsCode _, (pad-IsCode, (pad-IsCode, tt))))
encode_groups-IsCode (a ∷ b ∷ []) =
    (digit-IsCode _, (digit-IsCode _, (digit-IsCode _, (pad-IsCode, tt))))
encode_groups-IsCode (a ∷ b ∷ c ∷ rest) = (
  digit-IsCode _,
  (digit-IsCode _, (digit-IsCode _, (digit-IsCode _, encode_groups-IsCode rest))),
)

length-encode_groups : (bs : Bytes) → length (encode_groups bs) % 4 ≡ 0
unfolding encode_groups
length-encode_groups [] = refl
length-encode_groups (a ∷ []) = refl
length-encode_groups (a ∷ b ∷ []) = refl
length-encode_groups (a ∷ b ∷ c ∷ rest) = omega (arith, length-encode_groups rest)

without_space_lem : (s : Text) → All IsCode s → without_space s ≡ s
unfolding without_space
without_space_lem [] h = refl
without_space_lem (c ∷ s) (hc, h) = ground (arith, without_space_lem s h)

chomp-cons : (c : ℕ) (s : Text) → c ≢ b'=' → chomp (c ∷ s) ≡ c ∷ chomp s
unfolding chomp
chomp-cons c [] h = ground arith
chomp-cons c (d ∷ s) h = refl

chomp-digit : (x : ℕ) (s : Text) → chomp (digit x ∷ s) ≡ digit x ∷ chomp s
chomp-digit x s = chomp-cons (digit x) s (digit-ne-pad x)

chomp-chomp : (bs : Bytes) → chomp (chomp (encode_groups bs)) ≡ bare bs
unfolding encode_groups bare
chomp-chomp [] = unfold chomp in refl
chomp-chomp (a ∷ []) = simp chomp-digit (unfold chomp in refl)
chomp-chomp (a ∷ b ∷ []) = simp chomp-digit (unfold chomp in refl)
chomp-chomp (a ∷ b ∷ c ∷ rest) = simp (chomp-digit, chomp-chomp rest)

unpadded-encode_groups : (bs : Bytes) → unpadded (encode_groups bs) ≡ bare bs
unfolding unpadded
unpadded-encode_groups bs = ground (arith, length-encode_groups bs, chomp-chomp bs)

atob-encode_groups : (bs : Bytes) → AllBytes bs → atob (encode_groups bs) ≡ ok bs
unfolding atob
atob-encode_groups bs h = rw (
  without_space_lem (encode_groups bs) (encode_groups-IsCode bs),
  unpadded-encode_groups bs,
  decode_groups-bare bs h,
)

any_wide_lem : (bs : Bytes) → AllBytes bs → any_wide bs ≡ false
unfolding any_wide
any_wide_lem [] h = refl
any_wide_lem (b ∷ bs) (hb, h) = ground (arith, any_wide_lem bs h)

-- On bytes the encoder never throws, and writes the padded groups.
pub to_base64-bytes : (bs : Bytes) → AllBytes bs → to_base64 bs ≡ ok (encode_groups bs)
unfolding to_base64 btoa
to_base64-bytes bs h = rw (any_wide_lem bs h)

-- `fromBase64` undoes `toBase64` on every byte array.
pub from_base64-to_base64 : (bs : Bytes) → AllBytes bs → (to_base64 bs >>= from_base64) ≡ ok bs
unfolding from_base64
from_base64-to_base64 bs h = rw (to_base64-bytes bs h) (atob-encode_groups bs h)

pub encode_groups-ne-nil : (bs : Bytes) → bs ≢ [] → encode_groups bs ≢ []
unfolding encode_groups
encode_groups-ne-nil [] h e = h refl
encode_groups-ne-nil (a ∷ []) h e = cc
encode_groups-ne-nil (a ∷ b ∷ []) h e = cc
encode_groups-ne-nil (a ∷ b ∷ c ∷ bs) h e = cc

pub from_base64-encode_groups : (bs : Bytes) → AllBytes bs → from_base64 (encode_groups bs) ≡ ok bs
from_base64-encode_groups bs h = rw (to_base64-bytes bs h) at (from_base64-to_base64 bs h)
