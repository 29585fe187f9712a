-- ===== src/Crypto/Generator.antt =====
-- clients/packages/crypto/src/identifier.ts: `generateAccountId`. The loop runs on fuel; as many
-- turns as words are enough.
pub mod Uniform
use passwd.Base.{
  ℕ, zero, suc, ◌+◌, ◌*◌, ◌/◌, ◌%◌, ◌^◌, Option, none, some, List, [], ◌∷◌, ltb, if◌then◌else◌,
  Text, codes, get_or,
}
use passwd.Base.Act.{Act, Entropy, later}
use passwd.Base.Outcome.{Result, ok, throw, error}
use passwd.Base.Strings.{join}
use passwd.Crypto.Wordlist.{bip39_wordlist}

abbrev pub word_count : ℕ
word_count = 2048

-- The largest multiple of the number of words that 32 bits hold.
abbrev pub limit : ℕ
limit = 2 ^ 32 / word_count * word_count

unfoldable pub word_at : ℕ → Text
word_at x = get_or bip39_wordlist (x % word_count) []

unfoldable pub with_word : Text → Option (List Text × ℕ) → Option (List Text × ℕ)
with_word word none = none
with_word word (some (words, i)) = some (word ∷ words, i)

-- The words from the draw at `i` on, and the position after the last draw.
unfoldable pub draw_words : ℕ → ℕ → ℕ → Entropy → Option (List Text × ℕ)
unfolding with_word word_at
draw_words fuel zero i w = some ([], i)
draw_words zero (suc n) i w = none
draw_words (suc fuel) (suc n) i w =
    let rejected = draw_words fuel (suc n) (i + 1) w in
    let rest = draw_words fuel n (i + 1) w in
    if ltb (w.at i % 2 ^ 32) limit then with_word (word_at (w.at i % 2 ^ 32)) rest else rejected

joined : Option (List Text × ℕ) → Act Text
joined none w = (throw (error (codes "out of fuel")), w)
joined (some (words, i)) w = (ok (join b' ' words), later i w)

unfoldable pub generate_account_id : ℕ → ℕ → Act Text
unfolding joined
generate_account_id fuel zero w = (throw (error (codes "words must be >= 1")), w)
generate_account_id fuel (suc n) w = joined (draw_words fuel (suc n) 0 w) w
