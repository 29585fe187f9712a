-- ===== src/Base/Strings.antt =====
-- String methods of JavaScript on code units: `indexOf`, `split`, `trim`, and what they find.
use Prim.Native.Nat.{ℕ, zero, suc}
use mathlib.Core.Path.{◌≡◌, refl, ap, sym, ◌∙◌}
use mathlib.Core.Logic.{◌≢◌, inl, inr}
use mathlib.Core.Bool.{Bool, true, false, ◌&&◌, ◌||◌}
use mathlib.Core.List.{List, [], ◌∷◌, ◌++◌}
use mathlib.Core.Option
use mathlib.Core.Option.{Option, none, some}
use native.Mathlib.Omega.{arith}
use passwd.Base.Tests.{◌==◌, leb, if◌then◌else◌, Bool-cases}
use passwd.Base.Lists.{Text, All, Lacks, length, take, drop}

-- `s.indexOf(c)` for one code unit; `none` is -1.
unfoldable pub index_of : ℕ → Text → Option ℕ
index_of c [] = none
index_of c (x ∷ s) = let later = Option.map suc (index_of c s) in if x == c then some 0 else later

-- Puts `c` in front of the first part.
unfoldable pub extend : ℕ → List Text → List Text
extend c [] = (c ∷ []) ∷ []
extend c (p ∷ ps) = (c ∷ p) ∷ ps

-- `s.split(sep)` at one code unit.
unfoldable pub split : ℕ → Text → List Text
unfolding extend
split sep [] = [] ∷ []
split sep (c ∷ s) = let rest = split sep s in if c == sep then [] ∷ rest else extend c rest

-- The white space and line terminators that `trim`, `\s` and `Number` agree on.
unfoldable pub is_space : ℕ → Bool
is_space c =
    leb 9 c && leb c 13
    || c == 32
    || c == 160
    || c == 0x1680
    || leb 0x2000 c && leb c 0x200a
    || c == 0x2028
    || c == 0x2029
    || c == 0x202f
    || c == 0x205f
    || c == 0x3000
    || c == 0xfeff

unfoldable pub trim_start : Text → Text
trim_start [] = []
trim_start (c ∷ s) = let rest = trim_start s in if is_space c then rest else c ∷ s

-- A code unit in front of a text whose end is trimmed.
unfoldable pub before_trimmed : ℕ → Text → Text
before_trimmed c [] = if is_space c then [] else c ∷ []
before_trimmed c (d ∷ s) = c ∷ d ∷ s

unfoldable pub trim_end : Text → Text
unfolding before_trimmed
trim_end [] = []
trim_end (c ∷ s) = before_trimmed c (trim_end s)

-- `s.trim()`.
unfoldable pub trim : Text → Text
unfolding trim_start trim_end is_space
trim s = trim_end (trim_start s)

pub index_of-append : (c : ℕ) (p s : Text) → Lacks c p → index_of c (p ++ c ∷ s) ≡ some (length p)
unfolding index_of
index_of-append c [] s h = ground arith
index_of-append c (x ∷ p) s (hx, h) = ground (arith, index_of-append c p s h)

module _ {ℓ} {A : Type ℓ} where
  pub take-append : (p s : List A) → take (length p) (p ++ s) ≡ p
  take-append [] s = refl
  take-append (x ∷ p) s = ap (◌∷◌ x) (take-append p s)

  pub drop-append : (p s : List A) → drop (length p) (p ++ s) ≡ s
  drop-append [] s = refl
  drop-append (x ∷ p) s = drop-append p s

-- What `indexOf` found: the text splits there, and the part before lacks the code unit.
pub index_of_sound :
    (c : ℕ) (s : Text) {i : ℕ}
    → index_of c s ≡ some i
    → Lacks c (take i s) × (s ≡ take i s ++ c ∷ drop (suc i) s)
unfolding index_of
index_of_sound c [] h = cc
index_of_sound c (x ∷ s) {i = zero} h = (tt, ground arith)
index_of_sound c (x ∷ s) {i = suc i} h =
    let (lacks, splits) = index_of_sound c s {i = i} (ground arith) in
    ((ground arith, lacks), ap (◌∷◌ x) splits)

pub split-Lacks' : (sep : ℕ) (s : Text) → Lacks sep s → split sep s ≡ s ∷ []
unfolding split
split-Lacks' sep [] h = refl
split-Lacks' sep (c ∷ s) (hc, h) = ground (arith, split-Lacks' sep s h)

pub split-append : (sep : ℕ) (p s : Text) → Lacks sep p → split sep (p ++ sep ∷ s) ≡ p ∷ split sep s
unfolding split
split-append sep [] s h = ground arith
split-append sep (c ∷ p) s (hc, h) = ground (arith, split-append sep p s h)

pub split-cons : (sep : ℕ) (s : Text) → (p : Text) × (ps : List Text) × (split sep s ≡ p ∷ ps)
unfolding split
split-cons sep [] = ([], [], refl)
split-cons sep (c ∷ s) = elim (Bool-cases (c == sep)) [
  | inl same ↦ ([], split sep s, rw same)
  | inr other ↦ let (p, ps, e) = split-cons sep s in (c ∷ p, ps, rw (other, e))
]

-- `parts.join(sep)` for one code unit.
unfoldable pub join : ℕ → List Text → Text
join sep [] = []
join sep (p ∷ []) = p
join sep (p ∷ q ∷ ps) = p ++ (sep ∷ join sep (q ∷ ps))

join-extend :
    (sep c : ℕ) (p : Text) (ps : List Text) → join sep (extend c (p ∷ ps)) ≡ c ∷ join sep (p ∷ ps)
unfolding join extend
join-extend sep c p [] = refl
join-extend sep c p (q ∷ ps) = refl

join-nil : (sep : ℕ) (p : Text) (ps : List Text) → join sep ([] ∷ p ∷ ps) ≡ sep ∷ join sep (p ∷ ps)
unfolding join
join-nil sep p ps = refl

-- Joining the parts of a split gives the text back.
pub join-split : (sep : ℕ) (s : Text) → join sep (split sep s) ≡ s
unfolding split
join-split sep [] = unfold join in refl
join-split sep (c ∷ s) = elim (Bool-cases (c == sep)) [
  | inl same ↦
      let (p, ps, e) = split-cons sep s in
      let ih : join sep (p ∷ ps) ≡ s = rw e at (join-split sep s) in
      rw (same, e) (join-nil sep p ps ∙ ground (arith, ap (◌∷◌ c) ih))
  | inr other ↦
      let (p, ps, e) = split-cons sep s in
      let ih : join sep (p ∷ ps) ≡ s = rw e at (join-split sep s) in
      rw (other, e) (join-extend sep c p ps ∙ ap (◌∷◌ c) ih)
]

extend-Lacks :
    (sep c : ℕ) (ps : List Text) → c ≢ sep → All (Lacks sep) ps → All (Lacks sep) (extend c ps)
unfolding extend
extend-Lacks sep c [] n h = ((n, tt), tt)
extend-Lacks sep c (p ∷ ps) n (hp, h) = ((n, hp), h)

-- No part of a split holds the separator.
pub split-Lacks : (sep : ℕ) (s : Text) → All (Lacks sep) (split sep s)
unfolding split
split-Lacks sep [] = (tt, tt)
split-Lacks sep (c ∷ s) = elim (Bool-cases (c == sep)) [
  | inl same ↦ rw same (tt, split-Lacks sep s)
  | inr other ↦ rw other (extend-Lacks sep c (split sep s) (ground arith) (split-Lacks sep s))
]

-- Two parts of a split spell the text with the separator between them.
pub split_two :
    (sep : ℕ) (s : Text) {a b : Text}
    → split sep s ≡ a ∷ b ∷ []
    → (s ≡ a ++ (sep ∷ b)) × Lacks sep a × Lacks sep b
split_two sep s {a} {b} h =
    let lacks : All (Lacks sep) (a ∷ b ∷ []) = rw h at (split-Lacks sep s) in
    let spelled : join sep (a ∷ b ∷ []) ≡ s = rw h at (join-split sep s) in
    (unfold join in sym spelled, lacks.0, lacks.1.0)

trim_end-append : (s : Text) (d : ℕ) → is_space d ≡ false → trim_end (s ++ (d ∷ [])) ≡ s ++ (d ∷ [])
unfolding trim_end before_trimmed
trim_end-append [] d h = rw h refl
trim_end-append (c ∷ []) d h = rw h refl
trim_end-append (c ∷ e ∷ s) d h = rw (trim_end-append (e ∷ s) d h) refl

-- A text that begins and ends with other than white space is not trimmed.
pub trim-kept :
    (c d : ℕ) (s front : Text)
    → c ∷ s ≡ front ++ (d ∷ [])
    → is_space c ≡ false
    → is_space d ≡ false
    → trim (c ∷ s) ≡ c ∷ s
unfolding trim trim_start
trim-kept c d s front e hc hd = rw hc (ap trim_end e ∙ (trim_end-append front d hd ∙ sym e))

-- `s.startsWith(prefix)`
unfoldable pub starts_with_text : Text → Text → Bool
starts_with_text s [] = true
starts_with_text [] (c ∷ prefix) = false
starts_with_text (d ∷ s) (c ∷ prefix) = d == c && starts_with_text s prefix

-- `s.includes(part)`
unfoldable pub includes_text : Text → Text → Bool
unfolding starts_with_text
includes_text [] part = starts_with_text [] part
includes_text (c ∷ s) part = starts_with_text (c ∷ s) part || includes_text s part

extend-append :
    (c : ℕ) (p : Text) (ps qs : List Text) → extend c ((p ∷ ps) ++ qs) ≡ extend c (p ∷ ps) ++ qs
unfolding extend
extend-append c p ps qs = refl

-- Splitting a text with a separator in it splits the two sides.
pub split-append' : (sep : ℕ) (p s : Text) → split sep (p ++ sep ∷ s) ≡ split sep p ++ split sep s
unfolding split
split-append' sep [] s = ground arith
split-append' sep (c ∷ p) s = elim (Bool-cases (c == sep)) [
  | inl same ↦ rw same (ap (◌∷◌ []) (split-append' sep p s))
  | inr other ↦
      let (q, qs, e) = split-cons sep p in
      rw (other, split-append' sep p s, e) (extend-append c q qs (split sep s))
]
