-- ===== src/Base/Act.antt =====
-- Asynchronous code that draws on the platform's random source and may throw. The source is a
-- stream of numbers; a call takes from its front.
use Prim.Native.Nat.{ℕ, zero, suc, ◌+◌, ◌%◌}
use mathlib.Core.Path.{◌≡◌, refl, ap}
use mathlib.Core.List.{[], ◌∷◌}
use native.Mathlib.Omega.{arith}
use passwd.Base.Lists.{Bytes, length, AllBytes}
use passwd.Base.Outcome.{Result, ok, throw}

pub record Entropy : Type 0 where
  pub at : ℕ → ℕ

abbrev pub Act : Type 0 → Type 0
Act A = Entropy → Result A × Entropy

-- What is left after `n` draws.
abbrev pub later : ℕ → Entropy → Entropy
later n w = record { at = λ i. w.at (n + i) }

abbrev pub pure : {A : Type 0} → A → Act A
pure a w = (ok a, w)

abbrev pub lift : {A : Type 0} → Result A → Act A
lift r w = (r, w)

abbrev continue : {A B : Type 0} → (A → Act B) → Result A → Act B
continue f (ok a) w = f a w
continue f (throw e) w = (throw e, w)

infixl 5 ◌>>=◌ ◌>>◌
abbrev pub ◌>>=◌ : {A B : Type 0} → Act A → (A → Act B) → Act B
◌>>=◌ m f w = continue f (m w).0 (m w).1

abbrev pub ◌>>◌ : {B : Type 0} → Act (Unit {0}) → Act B → Act B
m >> k = m >>= λ _. k

-- The first `n` draws as bytes, from position `i` on.
unfoldable pub draw_bytes : ℕ → ℕ → Entropy → Bytes
draw_bytes zero i w = []
draw_bytes (suc n) i w = (w.at i % 256) ∷ draw_bytes n (i + 1) w

pub length-draw_bytes : (n i : ℕ) (w : Entropy) → length (draw_bytes n i w) ≡ n
unfolding draw_bytes
length-draw_bytes zero i w = refl
length-draw_bytes (suc n) i w = ap suc (length-draw_bytes n (i + 1) w)

pub draw_bytes-AllBytes : (n i : ℕ) (w : Entropy) → AllBytes (draw_bytes n i w)
unfolding draw_bytes
draw_bytes-AllBytes zero i w = tt
draw_bytes-AllBytes (suc n) i w = (omega arith, draw_bytes-AllBytes n (i + 1) w)
