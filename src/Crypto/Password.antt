-- ===== src/Crypto/Password.antt =====
-- clients/packages/crypto/src/password.ts: the policy for master passwords. A reason is a text.
pub mod Longer
use passwd.Base.{
  ℕ, ◌+◌, Bool, true, false, not, ◌&&◌, ◌||◌, Option, none, some, [], ◌∷◌, leb, ltb, if◌then◌else◌,
  Text, codes, length,
}

abbrev pub is_lower : ℕ → Bool
is_lower c = leb b'a' c && leb c b'z'

abbrev pub is_upper : ℕ → Bool
is_upper c = leb b'A' c && leb c b'Z'

abbrev pub is_digit : ℕ → Bool
is_digit c = leb b'0' c && leb c b'9'

abbrev pub is_symbol : ℕ → Bool
is_symbol c = not (is_lower c || is_upper c || is_digit c)

-- `re.test(password)`, for a class of characters.
unfoldable pub any : (ℕ → Bool) → Text → Bool
any p [] = false
any p (c ∷ s) = p c || any p s

abbrev pub count : Bool → ℕ
count true = 1
count false = 0

-- The number of classes that occur.
unfoldable pub class_count : Text → ℕ
unfolding any
class_count s =
    count (any is_lower s)
    + count (any is_upper s)
    + count (any is_digit s)
    + count (any is_symbol s)

abbrev pub min_master_password_length : ℕ
min_master_password_length = 12

unfoldable pub master_password_issue : Text → Option Text
unfolding class_count
master_password_issue password =
    if ltb (length password) min_master_password_length
    then some (codes "Use at least 12 characters (a short passphrase works well).")
    else if leb 16 (length password)
    then none
    else if ltb (class_count password) 2
    then some (codes "Mix in another character type, or use a longer passphrase.")
    else none
