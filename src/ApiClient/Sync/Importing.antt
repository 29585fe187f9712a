-- ===== src/ApiClient/Sync/Importing.antt =====
-- The counts of an import.
use passwd.Base.{ℕ, ◌+◌, List, [], ◌∷◌}
use passwd.Crypto.Platform.{Platform}

-- The calls of `onProgress` for so many items from an index on.
unfoldable pub progress_from : ℕ → ℕ → ℕ → List (ℕ × ℕ)
progress_from i total ℕ.zero = []
progress_from i total (ℕ.suc n) = (i + 1, total) ∷ progress_from (i + 1) total n
