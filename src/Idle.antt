-- ===== src/Idle.antt =====
-- clients/apps/web/src/App.tsx and clients/apps/desktop/src/App.tsx: the lock after a time without
-- activity, which is one effect in both. What is open is the session or the vault, and what is shown
-- when it is locked is the rest of the state.
pub mod Locks
use passwd.Base.{ℕ, ◌+◌, ◌*◌, Option, none, some, List, [], ◌∷◌, leb, if◌then◌else◌, Text}
use passwd.ApiClient.Items.{Session}
use passwd.Desktop.Files.{DesktopVault}

-- The deadline is that of the timer, if it is set.
pub record App (S R : Type 0) : Type 0 where
  pub open_vault : Option S
  pub shown : R
  pub deadline : Option ℕ

-- What happens, each at a time: a vault is opened or changed, an event of the user, a turn of the
-- event loop in which due timers run, and the lock button.
pub data Event (S : Type 0) : Type 0 where
  adopt : S → Event S
  activity timers lock_button : Event S

module _ {S R : Type 0} (idle_ms : ℕ) (locked : S → R → R) where
  lock_vault : S → App S R → App S R
  lock_vault s app = record { open_vault = none; shown = locked s app.shown; deadline = none }

  -- The effect's cleanup clears the timer.
  abbrev lock_open : Option S → App S R → App S R
  lock_open none app = app
  lock_open (some s) app = lock_vault s app

  unfoldable pub lock_idle : App S R → App S R
  unfolding lock_vault
  lock_idle app = lock_open app.open_vault app

  abbrev reset_open : Option S → ℕ → App S R → App S R
  reset_open none now app = app
  reset_open (some s) now app = record app { deadline = some (now + idle_ms) }

  -- The listeners are there only while a vault is open.
  unfoldable pub reset : ℕ → App S R → App S R
  reset now app = reset_open app.open_vault now app

  abbrev run_due : Option ℕ → ℕ → App S R → App S R
  run_due none now app = app
  run_due (some d) now app = if leb d now then lock_idle app else app

  unfoldable pub step : ℕ → Event S → App S R → App S R
  unfolding reset lock_idle
  step now (adopt s) app = reset now (record app { open_vault = some s })
  step now activity app = reset now app
  step now timers app = run_due app.deadline now app
  step now lock_button app = lock_idle app

  unfoldable pub run : List (ℕ × Event S) → App S R → App S R
  unfolding step
  run [] app = app
  run ((now, e) ∷ es) app = run es (step now e app)

-- The web application: the recovery phrase that is shown is dropped.
abbrev pub web_idle_ms : ℕ
web_idle_ms = 15 * 60 * 1000

abbrev pub web_locked : Session → Option Text → Option Text
web_locked s recovery = none

-- The desktop application: the screen on which the same vault is unlocked.
pub data Screen : Type 0 where
  boot start : Screen
  unlock create : Text → Screen

abbrev pub desktop_idle_ms : ℕ
desktop_idle_ms = 10 * 60 * 1000

abbrev pub desktop_locked : DesktopVault → Screen → Screen
desktop_locked v screen = unlock v.path
