-- ===== src/Desktop/Recents/Ordered.antt =====
-- The list of recent vaults after a vault is opened.
use passwd.Base.{
  ℕ, zero, suc, ◌≡◌, ◌≢◌, ◌≤◌, refl, ap, not, Option, List, [], ◌∷◌, Text, Bool-cases, inl, inr,
  All, take, length, length-take, arith,
}
use passwd.Base.Equality.{equal-false, equal}
use passwd.Base.Sorting.{filter}
use passwd.Desktop.Recents.{
  RecentVault, basename, recents_max, read_recents, without_path, entry, remember_recent,
}

-- No path stands twice.
abbrev pub IsDistinct : List RecentVault → Type 0
IsDistinct [] = Unit
IsDistinct (r ∷ rs) = All (λ q. q.path ≢ r.path) rs × IsDistinct rs

-- At most eight vaults, each once.
abbrev pub IsRecents : List RecentVault → Type 0
IsRecents rs = (length rs ≤ recents_max) × IsDistinct rs

All-take : (P : RecentVault → Type 0) (n : ℕ) (rs : List RecentVault) → All P rs → All P (take n rs)
All-take P zero rs h = tt
All-take P (suc n) [] h = tt
All-take P (suc n) (r ∷ rs) (hr, h) = (hr, All-take P n rs h)

IsDistinct-take : (n : ℕ) (rs : List RecentVault) → IsDistinct rs → IsDistinct (take n rs)
IsDistinct-take zero rs h = tt
IsDistinct-take (suc n) [] h = tt
IsDistinct-take (suc n) (r ∷ rs) (hr, h) = (All-take _ n rs hr, IsDistinct-take n rs h)

without_path-All :
    (P : RecentVault → Type 0) (path : Text) (rs : List RecentVault)
    → All P rs
    → All P (without_path path rs)
unfolding without_path
without_path-All P path [] h = tt
without_path-All P path (r ∷ rs) (hr, h) = elim (Bool-cases (equal r.path path)) [
  | inl e ↦ rw e (without_path-All P path rs h)
  | inr e ↦ rw e (hr, without_path-All P path rs h)
]

without_path-Absent :
    (path : Text) (rs : List RecentVault) → All (λ q. q.path ≢ path) (without_path path rs)
unfolding without_path
without_path-Absent path [] = tt
without_path-Absent path (r ∷ rs) = elim (Bool-cases (equal r.path path)) [
  | inl e ↦ rw e (without_path-Absent path rs)
  | inr e ↦ rw e (equal-false r.path path e, without_path-Absent path rs)
]

without_path-IsDistinct :
    (path : Text) (rs : List RecentVault) → IsDistinct rs → IsDistinct (without_path path rs)
unfolding without_path
without_path-IsDistinct path [] h = tt
without_path-IsDistinct path (r ∷ rs) (hr, h) = elim (Bool-cases (equal r.path path)) [
  | inl e ↦ rw e (without_path-IsDistinct path rs h)
  | inr e ↦ rw e (without_path-All _ path rs hr, without_path-IsDistinct path rs h)
]

-- The list keeps the vaults of other paths, in their order.
without_path-filter :
    (path : Text) (rs : List RecentVault)
    → without_path path rs ≡ filter (λ r. not (equal r.path path)) rs
unfolding without_path filter
without_path-filter path [] = refl
without_path-filter path (r ∷ rs) = elim (Bool-cases (equal r.path path)) [
  | inl e ↦ rw e (without_path-filter path rs)
  | inr e ↦ rw e (ap (◌∷◌ r) (without_path-filter path rs))
]

-- Remembering a vault makes a list of recent vaults from any list in which no path stands twice,
-- or from a file that is missing. The vault is in front, with its name and the time, and behind it
-- are all those with another path, in their old order, up to the eighth place.
pub remember_recent-IsRecents :
    (path : Text) (now : ℕ) (file : Option (List RecentVault))
    → IsDistinct (read_recents file)
    → IsRecents (remember_recent path now file)
      × (remember_recent path now file
          ≡ record { path = path; name = basename path; opened_at = now }
            ∷ take 7 (filter (λ r. not (equal r.path path)) (read_recents file)))
unfolding remember_recent
remember_recent-IsRecents path now file h =
    let others = without_path path (read_recents file) in
    (
      (
        omega (arith, length-take recents_max (entry path now ∷ others)),
        (
          All-take _ 7 others (without_path-Absent path (read_recents file)),
          IsDistinct-take 7 others (without_path-IsDistinct path (read_recents file) h),
        ),
      ),
      ap (λ rs. entry path now ∷ take 7 rs) (without_path-filter path (read_recents file)),
    )
