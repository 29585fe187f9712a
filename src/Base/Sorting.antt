-- ===== src/Base/Sorting.antt =====
-- `Array.prototype.sort`, which is stable: an insertion sort by the test that the comparator gives a
-- negative number. What a sort by one flag gives.
use mathlib.Core.Path.{◌≡◌, refl, ap, ◌∙◌}
use mathlib.Core.Logic.{inl, inr}
use mathlib.Core.Bool.{Bool, true, false, not, ◌&&◌}
use mathlib.Core.List.{List, [], ◌∷◌, ◌++◌}
use passwd.Base.Tests.{if◌then◌else◌, Bool-cases}

module _ {A : Type 0} where
  unfoldable pub filter : (A → Bool) → List A → List A
  filter f [] = []
  filter f (x ∷ xs) = let rest = filter f xs in if f x then x ∷ rest else rest

  -- In front of the elements that are not before it.
  unfoldable pub insert : (A → A → Bool) → A → List A → List A
  insert lt x [] = x ∷ []
  insert lt x (y ∷ ys) = let rest = insert lt x ys in if lt y x then y ∷ rest else x ∷ y ∷ ys

  unfoldable pub sort : (A → A → Bool) → List A → List A
  unfolding insert
  sort lt [] = []
  sort lt (x ∷ xs) = insert lt x (sort lt xs)

  -- Those of the flag first.
  abbrev pub by_flag : (A → Bool) → A → A → Bool
  by_flag f y x = f y && not (f x)

  insert-flagged :
      (f : A → Bool) (x : A) (ys : List A) → f x ≡ true → insert (by_flag f) x ys ≡ x ∷ ys
  unfolding insert
  insert-flagged f x [] h = refl
  insert-flagged f x (y ∷ ys) h = elim (Bool-cases (f y)) [
    | inl e ↦ rw (e, h) refl
    | inr e ↦ rw e refl
  ]

  insert-front :
      (f : A → Bool) (x z : A) (zs : List A)
      → f z ≡ false
      → insert (by_flag f) x (z ∷ zs) ≡ x ∷ z ∷ zs
  unfolding insert
  insert-front f x z zs e = rw e refl

  insert-behind :
      (f : A → Bool) (x y : A) (ys : List A)
      → f y ≡ true
      → f x ≡ false
      → insert (by_flag f) x (y ∷ ys) ≡ y ∷ insert (by_flag f) x ys
  unfolding insert
  insert-behind f x y ys e h = rw (e, h) refl

  insert-after :
      (f : A → Bool) (x : A) (ys zs : List A)
      → f x ≡ false
      → insert (by_flag f) x (filter f ys ++ filter (λ y. not (f y)) zs)
        ≡ filter f ys ++ (x ∷ filter (λ y. not (f y)) zs)
  unfolding insert filter
  insert-after f x [] [] h = refl
  insert-after f x [] (z ∷ zs) h = elim (Bool-cases (f z)) [
    | inl e ↦ rw e (insert-after f x [] zs h)
    | inr e ↦ rw e (insert-front f x z _ e)
  ]
  insert-after f x (y ∷ ys) zs h = elim (Bool-cases (f y)) [
    | inl e ↦ rw e (insert-behind f x y _ e h ∙ ap (◌∷◌ y) (insert-after f x ys zs h))
    | inr e ↦ rw e (insert-after f x ys zs h)
  ]

  -- Sorting by a flag puts those that have it first, and keeps the order otherwise.
  pub sort-by_flag :
      (f : A → Bool) (xs : List A) → sort (by_flag f) xs ≡ filter f xs ++ filter (λ x. not (f x)) xs
  unfolding sort filter
  sort-by_flag f [] = refl
  sort-by_flag f (x ∷ xs) = elim (Bool-cases (f x)) [
    | inl e ↦ rw (e, sort-by_flag f xs) (insert-flagged f x _ e)
    | inr e ↦ rw (e, sort-by_flag f xs) (insert-after f x xs xs e)
  ]
