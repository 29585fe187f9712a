-- ===== src/Crypto/Password/Longer.antt =====
-- The policy on a password and a longer one.
use passwd.Base.{
  ℕ, ◌≤◌, ◌≡◌, Bool, none, [], ◌∷◌, ◌++◌, Text, length-append, arith, Bool-cases, inl, inr,
}
use passwd.Crypto.Password.{
  any, count, is_lower, is_upper, is_digit, is_symbol, class_count, master_password_issue,
}

count-append : (p : ℕ → Bool) (s t : Text) → count (any p s) ≤ count (any p (s ++ t))
unfolding any
count-append p [] t = omega arith
count-append p (c ∷ s) t = elim (Bool-cases (p c)) [
  | inl e ↦ rw (e, any) (omega arith)
  | inr e ↦ rw (e, any) (count-append p s t)
]

class_count-append : (s t : Text) → class_count s ≤ class_count (s ++ t)
unfolding class_count
class_count-append s t = omega (
  arith,
  count-append is_lower s t,
  count-append is_upper s t,
  count-append is_digit s t,
  count-append is_symbol s t,
)

-- A master password that has no issue has none with more characters behind it either.
pub master_password_issue-append :
    (s t : Text) → master_password_issue s ≡ none → master_password_issue (s ++ t) ≡ none
unfolding master_password_issue
master_password_issue-append s t h = ground (arith, h, class_count-append s t, length-append s t)
