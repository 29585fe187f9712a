-- ===== src/Crypto/Generator/Uniform.antt =====
-- The draws of the generator.
use passwd.Base.{
  ℕ, zero, suc, ◌+◌, ◌%◌, ◌^◌, ◌≡◌, refl, ap, some, List, [], ◌∷◌, lt→ltb, Text, arith,
}
use passwd.Base.Act.{Entropy, later}
use passwd.Base.Outcome.{ok}
use passwd.Base.Strings.{join}
use passwd.Crypto.Generator.{limit, word_at, with_word, draw_words, generate_account_id}

-- The words of consecutive draws: each 32-bit draw, taken modulo the number of words.
unfoldable pub drawn : ℕ → ℕ → Entropy → List Text
drawn zero i w = []
drawn (suc n) i w = word_at (w.at i % 2 ^ 32) ∷ drawn n (i + 1) w

draw_words-drawn : (n i : ℕ) (w : Entropy) → draw_words n n i w ≡ some (drawn n i w, i + n)
unfolding drawn draw_words with_word
draw_words-drawn zero i w = let e : i ≡ i + 0 = omega arith in ap (λ k. some ([], k)) e
draw_words-drawn (suc n) i w =
    let e : i + 1 + n ≡ i + suc n = omega arith in
    rw (lt→ltb (w.at i % 2 ^ 32) limit (omega arith), draw_words-drawn n (i + 1) w)
      (ap (λ k. some (drawn (suc n) i w, k)) e)

-- With as many turns as words, generating an identifier of at least one word succeeds, takes
-- exactly one draw for each word, and joins the words of the draws with spaces: 2048 divides 2 ^ 32,
-- so that no draw is rejected.
pub generate_account_id-drawn :
    (n : ℕ) (w : Entropy)
    → generate_account_id (suc n) (suc n) w ≡ (ok (join b' ' (drawn (suc n) 0 w)), later (suc n) w)
unfolding generate_account_id
generate_account_id-drawn n w =
    let e : 0 + suc n ≡ suc n = omega arith in rw (draw_words-drawn (suc n) 0 w, e) refl
