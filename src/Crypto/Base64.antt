-- ===== src/Crypto/Base64.antt =====
-- clients/packages/crypto/src/primitives.ts: `toBase64` and `fromBase64`, over the platform's
-- `btoa` and `atob` (the forgiving decoder of the Infra standard). A binary string is the list of
-- its code units.
pub mod RoundTrip
use passwd.Base.{
  ℕ, ◌+◌, ◌-◌, ◌*◌, ◌/◌, ◌%◌, Bool, ◌&&◌, ◌||◌, Option, none, some, List, [], ◌∷◌, ◌++◌, ltb, leb,
  ◌==◌, if◌then◌else◌, Text, Bytes, codes, length,
}
use passwd.Base.Outcome.{Result, ok, throw, error, ◌>>=◌}

-- The base64 digit of a sextet.
unfoldable pub digit : ℕ → ℕ
digit x =
    if ltb x 26
    then x + 65
    else if ltb x 52
    then x + 71
    else if ltb x 62
    then x - 4
    else if x == 62
    then b'+'
    else b'/'

-- The sextet of a base64 digit.
unfoldable pub sextet : ℕ → Option ℕ
sextet c =
    if leb b'A' c && leb c b'Z'
    then some (c - 65)
    else if leb b'a' c && leb c b'z'
    then some (c - 71)
    else if leb b'0' c && leb c b'9'
    then some (c + 4)
    else if c == b'+'
    then some 62
    else if c == b'/'
    then some 63
    else none

unfoldable pub encode_groups : Bytes → Text
encode_groups [] = []
encode_groups (a ∷ []) = digit (a / 4) ∷ digit (a % 4 * 16) ∷ b'=' ∷ b'=' ∷ []
encode_groups (a ∷ b ∷ []) =
    digit (a / 4) ∷ digit (a % 4 * 16 + b / 16) ∷ digit (b % 16 * 4) ∷ b'=' ∷ []
encode_groups (a ∷ b ∷ c ∷ rest) =
    digit (a / 4)
    ∷ digit (a % 4 * 16 + b / 16)
    ∷ digit (b % 16 * 4 + c / 64)
    ∷ digit (c % 64)
    ∷ encode_groups rest

unfoldable pub any_wide : Text → Bool
any_wide [] = Bool.false
any_wide (c ∷ s) = ltb 255 c || any_wide s

-- `btoa` refuses a code unit above 255.
unfoldable pub btoa : Text → Result Text
unfolding any_wide
btoa s = if any_wide s then throw (error (codes "InvalidCharacterError")) else ok (encode_groups s)

unfoldable pub is_space : ℕ → Bool
is_space c = c == 9 || c == 10 || c == 12 || c == 13 || c == 32

unfoldable pub without_space : Text → Text
unfolding is_space
without_space [] = []
without_space (c ∷ s) = let rest = without_space s in if is_space c then rest else c ∷ rest

-- Removes one `=` from the end, if there is one.
unfoldable pub chomp : Text → Text
chomp [] = []
chomp (c ∷ []) = if c == b'=' then [] else c ∷ []
chomp (c ∷ d ∷ s) = c ∷ chomp (d ∷ s)

unfoldable pub option_bind : Option ℕ → (ℕ → Option Bytes) → Option Bytes
option_bind none f = none
option_bind (some x) f = f x

-- The bytes of one group in front of those of the rest.
unfoldable pub after : Bytes → Option Bytes → Option Bytes
after bs none = none
after bs (some rest) = some (bs ++ rest)

-- The three bytes that four digits stand for, in front of the rest.
unfoldable pub quad : ℕ → ℕ → ℕ → ℕ → Option Bytes → Option Bytes
unfolding option_bind after
quad c d e f later = option_bind (sextet c) λ x. option_bind (sextet d) λ y.
    option_bind (sextet e) λ z.
      option_bind (sextet f)
        λ w. after ((x * 4 + y / 16) ∷ (y % 16 * 16 + z / 4) ∷ (z % 4 * 64 + w) ∷ []) later

unfoldable pub decode_groups : Text → Option Bytes
unfolding option_bind
decode_groups [] = some []
decode_groups (c ∷ []) = none
decode_groups (c ∷ d ∷ []) =
    option_bind (sextet c) λ x. option_bind (sextet d) λ y. some ((x * 4 + y / 16) ∷ [])
decode_groups (c ∷ d ∷ e ∷ []) = option_bind (sextet c) λ x.
    option_bind (sextet d)
      λ y. option_bind (sextet e) λ z. some ((x * 4 + y / 16) ∷ (y % 16 * 16 + z / 4) ∷ [])
decode_groups (c ∷ d ∷ e ∷ f ∷ rest) = quad c d e f (decode_groups rest)

-- Padding is taken off only where the length is a multiple of four.
unfoldable pub unpadded : Text → Text
unpadded s = if length s % 4 == 0 then chomp (chomp s) else s

unfoldable pub or_invalid : Option Bytes → Result Bytes
or_invalid none = throw (error (codes "InvalidCharacterError"))
or_invalid (some bs) = ok bs

unfoldable pub atob : Text → Result Text
unfolding or_invalid
atob s = or_invalid (decode_groups (unpadded (without_space s)))

-- `toBase64`: a byte is the code unit of one character, so `btoa` always accepts it.
unfoldable pub to_base64 : Bytes → Result Text
to_base64 b = btoa b

-- `fromBase64`: the code units of the decoded text, stored as bytes.
unfoldable pub from_base64 : Text → Result Bytes
from_base64 s = atob s
