-- ===== src/Extension/Background/Pending.antt =====
-- A captured login and a later question for it.
use passwd.Base.{ℕ, ◌-◌, ◌≡◌, Option, none, some, ◌∷◌, arith, ltb, if◌then◌else◌, Text}
use passwd.Extension.Protocol.{PendingSave, get_pending, capture_login, pending}
use passwd.Extension.Background.{Client, Storage, pending_ttl_ms, handle, read_pending, capture}

-- What the popup is told of the waiting login at a time, after a capture at another.
abbrev pub told : ℕ → ℕ → Text → Text → Text → Option PendingSave
told captured now url username password =
    if ltb pending_ttl_ms (now - captured)
    then none
    else some (record { url = url; username = username; password = password })

module _ (c : Client) (st : Storage) (net : c.Net) where
  -- A capture with a password replaces whatever was waiting. A later question is answered with
  -- that login up to the end of its time, and with nothing after it.
  pub get_pending-capture_login :
      (r captured now t : ℕ) (url username : Text) (k : ℕ) (rest : Text)
      → (handle c now t get_pending
          (handle c r captured (capture_login url username (k ∷ rest)) (st, net)).1).0
        ≡ pending (told captured now url username (k ∷ rest))
  unfolding handle read_pending capture
  get_pending-capture_login r captured now t url username k rest = ground arith
