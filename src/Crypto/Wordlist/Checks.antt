-- ===== src/Crypto/Wordlist/Checks.antt =====
-- Facts about the word list, by evaluation.
use passwd.Base.{
  ℕ, ◌≡◌, refl, Bool, true, false, ◌&&◌, ◌||◌, List, [], ◌∷◌, leb, ltb, ◌==◌, Text, length, All,
  arith,
}
use passwd.Crypto.Wordlist.{bip39_wordlist}

pub bip39_wordlist-length : length bip39_wordlist ≡ 2048
unfolding bip39_wordlist
bip39_wordlist-length = refl

-- A lower-case letter.
abbrev pub is_letter : ℕ → Bool
is_letter c = leb b'a' c && leb c b'z'

abbrev all_letters : Text → Bool
all_letters [] = true
all_letters (c ∷ s) = is_letter c && all_letters s

-- A word: letters only, and at least one.
pub is_word : Text → Bool
is_word [] = false
is_word (c ∷ s) = is_letter c && all_letters s

all_words : List Text → Bool
all_words [] = true
all_words (w ∷ ws) = is_word w && all_words ws

all_words_sound : (ws : List Text) → all_words ws ≡ true → All (λ w. is_word w ≡ true) ws
unfolding all_words
all_words_sound [] h = tt
all_words_sound (w ∷ ws) h = (ground arith, all_words_sound ws (ground arith))

-- Every entry of the list is a word.
pub bip39_wordlist-is_word : All (λ w. is_word w ≡ true) bip39_wordlist
unfolding all_words is_word bip39_wordlist
bip39_wordlist-is_word = all_words_sound bip39_wordlist refl

-- The order of a dictionary, strict.
pub before : Text → Text → Bool
before [] [] = false
before [] (d ∷ t) = true
before (c ∷ s) [] = false
before (c ∷ s) (d ∷ t) = ltb c d || (c == d && before s t)

pub ascending : List Text → Bool
ascending [] = true
ascending (v ∷ []) = true
ascending (v ∷ w ∷ ws) = before v w && ascending (w ∷ ws)

-- The words ascend strictly, so no word occurs twice.
pub bip39_wordlist-ascending : ascending bip39_wordlist ≡ true
unfolding ascending before bip39_wordlist
bip39_wordlist-ascending = refl
