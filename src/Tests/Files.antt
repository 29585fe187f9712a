-- ===== src/Tests/Files.antt =====
-- The list of recent vaults.
use passwd.Base.{ℕ, ◌≡◌, ◌<◌, refl, ap, arith, get_or, some, [], ◌∷◌, List, codes, take, not}
use passwd.Base.Equality.{equal}
use passwd.Base.Sorting.{filter}
use passwd.Desktop.Recents.{RecentVault, basename, read_recents, entry, remember_recent}
use passwd.Desktop.Recents.Ordered.{IsDistinct, IsRecents, remember_recent-IsRecents}

abbrev two : List RecentVault
two = entry (codes "/a/x.passwd") 5 ∷ entry (codes "C:\\y.passwd") 4 ∷ []

basename-windows : basename (codes "C:\\v\\y.passwd") ≡ codes "y.passwd"
unfolding basename
basename-windows = refl

first_differs : (c d : ℕ) → c ≡ d → d < c → ⊥
first_differs c d e less = omega (arith, e, less)

IsDistinct-two : IsDistinct two
IsDistinct-two =
    ((λ e. first_differs b'C' b'/' (ap (λ s. get_or s 0 0) e) (omega arith), tt), (tt, tt))

remember_recent-IsRecents_example :
    IsRecents (remember_recent (codes "C:\\y.passwd") 9 (some two))
    × (remember_recent (codes "C:\\y.passwd") 9 (some two)
        ≡ record {
          path = codes "C:\\y.passwd";
          name = basename (codes "C:\\y.passwd");
          opened_at = 9;
        }
          ∷ take 7
              (filter (λ r. not (equal r.path (codes "C:\\y.passwd"))) (read_recents (some two))))
unfolding read_recents
remember_recent-IsRecents_example =
    remember_recent-IsRecents (codes "C:\\y.passwd") 9 (some two) IsDistinct-two
