-- ===== src/Crypto/Wordlist.antt =====
-- clients/packages/crypto/src/wordlist.ts: the words that render an identifier, in the order of the
-- source.
mod First
mod Second
pub mod Checks
use passwd.Base.{List, [], map, Text, codes}
use First.{words_a, words_b, words_c, words_d}
use Second.{words_e, words_f, words_g, words_h}

unfoldable pub bip39_wordlist : List Text
unfolding words_a words_b words_c words_d words_e words_f words_g words_h
bip39_wordlist =
    map codes (words_a (words_b (words_c (words_d (words_e (words_f (words_g (words_h []))))))))
