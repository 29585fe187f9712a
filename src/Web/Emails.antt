-- ===== src/Web/Emails.antt =====
-- clients/apps/web/src/App.tsx: the test of the sign-in form for an email address.
use passwd.Base.{Bool, false, not, ◌&&◌, ◌||◌, List, [], ◌∷◌, ◌==◌, Text}
use passwd.Base.Strings.{split, is_space}
use passwd.ApiClient.Portable.{is_blank}

-- A dot with something before and after it.
unfoldable pub has_inner_dot : Text → Bool
has_inner_dot [] = false
has_inner_dot (c ∷ []) = false
has_inner_dot (c ∷ d ∷ []) = false
has_inner_dot (c ∷ d ∷ e ∷ s) = d == b'.' || has_inner_dot (d ∷ e ∷ s)

unfoldable pub has_space : Text → Bool
unfolding is_space
has_space [] = false
has_space (c ∷ s) = is_space c || has_space s

unfoldable two_parts : List Text → Bool
unfolding has_inner_dot
two_parts (local ∷ domain ∷ []) = not (is_blank local) && has_inner_dot domain
two_parts _ = false

-- Whether the text matches `/^[^\s@]+@[^\s@]+\.[^\s@]+$/`.
unfoldable pub is_email : Text → Bool
unfolding has_space two_parts split
is_email s = not (has_space s) && two_parts (split b'@' s)

unfoldable pub has_at : Text → Bool
has_at [] = false
has_at (c ∷ s) = c == b'@' || has_at s
