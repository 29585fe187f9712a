-- ===== src/Base/Outcome.antt =====
-- What a JavaScript call returns or throws.
use mathlib.Core.Path.{◌≡◌, refl}
use mathlib.Core.List.{List}
use passwd.Base.Lists.{Text, codes}

-- A thrown value: an `Error` with its message, or a `TwoFactorRequiredError` with its methods.
pub data Thrown : Type 0 where
  error : Text → Thrown
  two_factor : List Text → Thrown

-- `e.message`
unfoldable pub message_of : Thrown → Text
message_of (error m) = m
message_of (two_factor methods) = codes "two-factor authentication required"

pub data Result {ℓ} (A : Type ℓ) : Type ℓ where
  ok : A → Result A
  throw : Thrown → Result A

infixl 5 ◌>>=◌
-- `await`, or a call that may throw, and what follows it.
abbrev pub ◌>>=◌ {ℓ μ} : {A : Type ℓ} {B : Type μ} → Result A → (A → Result B) → Result B
throw e >>= continue = throw e
ok a >>= continue = continue a

-- `try { return m } catch { return h }`
abbrev pub catch {ℓ} : {A : Type ℓ} → Result A → (Thrown → Result A) → Result A
catch (ok a) h = ok a
catch (throw e) h = h e

module _ {ℓ μ} {A : Type ℓ} {B : Type μ} where
  -- A chain that succeeds had a first call that succeeded.
  pub returned :
      {end : B} (first : Result A) (continue : A → Result B)
      → first >>= continue ≡ ok end
      → (value : A) × (first ≡ ok value) × (continue value ≡ ok end)
  returned (throw e) continue h = cc
  returned (ok a) continue h = (a, refl, h)
