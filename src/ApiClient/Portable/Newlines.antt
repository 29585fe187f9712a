-- ===== src/ApiClient/Portable/Newlines.antt =====
-- The normalisation of line ends on an exported text.
use passwd.Base.{◌≡◌, ◌≢◌, refl, false, ℕ, [], ◌∷◌, ◌++◌, Text, arith}
use passwd.ApiClient.Portable.{has_special, double_quotes, starts_with, replace_crlf, newlines}

starts_with-append :
    (c d : ℕ) (a b : Text) → starts_with c b ≡ false → starts_with c a ≡ starts_with c (a ++ b)
unfolding starts_with
starts_with-append c d [] b h = cc
starts_with-append c d (x ∷ a) b h = refl

-- Line ends are normalised on both sides of a point that no line feed follows.
pub newlines-append :
    (a b : Text) → starts_with 10 b ≡ false → newlines (a ++ b) ≡ newlines a ++ newlines b
unfolding newlines replace_crlf
newlines-append [] b h = refl
newlines-append (c ∷ a) b h =
    rw⁻¹ (starts_with-append 10 0 a b h) (ground (arith, newlines-append a b h))

pub newlines-other : (c : ℕ) (s : Text) → c ≢ 13 → newlines (c ∷ s) ≡ c ∷ newlines s
unfolding newlines replace_crlf
newlines-other c s h = ground arith

pub newlines-plain : (v : Text) → has_special v ≡ false → newlines v ≡ v
unfolding newlines replace_crlf has_special
newlines-plain [] h = refl
newlines-plain (c ∷ v) h = ground (arith, newlines-plain v)

starts_with-double_quotes : (v : Text) → starts_with 10 (double_quotes v) ≡ starts_with 10 v
unfolding starts_with double_quotes
starts_with-double_quotes [] = refl
starts_with-double_quotes (c ∷ v) = ground arith

pub newlines-double_quotes : (v : Text) → newlines (double_quotes v) ≡ double_quotes (newlines v)
unfolding newlines replace_crlf double_quotes starts_with
newlines-double_quotes [] = refl
newlines-double_quotes (c ∷ v) =
    ground (arith, newlines-double_quotes v, starts_with-double_quotes v)
