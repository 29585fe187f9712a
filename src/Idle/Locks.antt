-- ===== src/Idle/Locks.antt =====
-- The idle lock over sequences of events.
use passwd.Base.{
  ℕ, ◌+◌, ◌≤◌, ◌<◌, ◌≡◌, refl, ap, ◌∙◌, Option, none, some, List, [], ◌∷◌, ◌++◌, leb, All,
  All-append, lt→leb, le→leb, Bool-cases, inl, inr,
}
use passwd.Idle.{App, Event, adopt, activity, timers, lock_button, lock_idle, reset, step, run}

-- The user does nothing but, perhaps, lock the vault.
abbrev pub IsQuiet : {S : Type 0} → ℕ × Event S → Type 0
IsQuiet (now, adopt s) = ⊥
IsQuiet (now, activity) = ⊥
IsQuiet (now, timers) = Unit
IsQuiet (now, lock_button) = Unit

-- A turn of the event loop before the deadline.
abbrev pub IsEarly : {S : Type 0} → ℕ → ℕ × Event S → Type 0
IsEarly d (now, adopt s) = ⊥
IsEarly d (now, activity) = ⊥
IsEarly d (now, timers) = now < d
IsEarly d (now, lock_button) = ⊥

module _ {S R : Type 0} (idle_ms : ℕ) (locked : S → R → R) where
  abbrev open_app : S → R → ℕ → App S R
  open_app s r d = record { open_vault = some s; shown = r; deadline = some d }

  abbrev pub locked_app : R → App S R
  locked_app r = record { open_vault = none; shown = r; deadline = none }

  -- A locked application stays locked.
  run-locked :
      (es : List (ℕ × Event S)) (r : R)
      → All IsQuiet es
      → run idle_ms locked es (locked_app r) ≡ locked_app r
  unfolding run step lock_idle
  run-locked [] r h = refl
  run-locked ((now, adopt s) ∷ es) r (h, hs) = absurd h
  run-locked ((now, activity) ∷ es) r (h, hs) = absurd h
  run-locked ((now, timers) ∷ es) r (h, hs) = run-locked es r hs
  run-locked ((now, lock_button) ∷ es) r (h, hs) = run-locked es r hs

  run-due :
      (es : List (ℕ × Event S)) (s : S) (r : R) (d now : ℕ)
      → All IsQuiet es
      → d ≤ now
      → run idle_ms locked (es ++ ((now, timers) ∷ [])) (open_app s r d) ≡ locked_app (locked s r)
  unfolding run step lock_idle
  run-due [] s r d now h due = rw (le→leb d now due) refl
  run-due ((t, adopt u) ∷ es) s r d now (h, hs) due = absurd h
  run-due ((t, activity) ∷ es) s r d now (h, hs) due = absurd h
  run-due ((t, timers) ∷ es) s r d now (h, hs) due = elim (Bool-cases (leb d t)) [
    | inl fires ↦
        rw (run, fires)
          (run-locked (es ++ ((now, timers) ∷ [])) (locked s r)
            (All-append IsQuiet es _ hs (tt, tt)))
    | inr waits ↦ rw (run, waits) (run-due es s r d now hs due)
  ]
  run-due ((t, lock_button) ∷ es) s r d now (h, hs) due =
      run-locked (es ++ ((now, timers) ∷ [])) (locked s r) (All-append IsQuiet es _ hs (tt, tt))

  -- What is open after an event that starts the time anew: the vault that is opened, or the one that
  -- is open as the user does something.
  abbrev pub used : Event S → App S R → Option S
  used (adopt s) app = some s
  used activity app = app.open_vault
  used timers app = none
  used lock_button app = none

  step-used :
      (e : Event S) (app : App S R) (s : S) (at : ℕ)
      → used e app ≡ some s
      → step idle_ms locked at e app ≡ open_app s app.shown (at + idle_ms)
  unfolding step reset
  step-used (adopt u) app s at h = rw h refl
  step-used activity app s at h = rw h refl
  step-used timers app s at h = cc
  step-used lock_button app s at h = cc

  -- Whatever was before, an application whose vault is opened, or in which the user does something
  -- while one is open, at a time and then nothing but, perhaps, lock it, is locked at the first turn
  -- of the event loop that is the idle time later or more, and shows what it shows when it is locked.
  pub run-idle :
      (e : Event S) (es : List (ℕ × Event S)) (app : App S R) (s : S) (at now : ℕ)
      → used e app ≡ some s
      → All IsQuiet es
      → at + idle_ms ≤ now
      → run idle_ms locked ((at, e) ∷ (es ++ ((now, timers) ∷ []))) app
        ≡ locked_app (locked s app.shown)
  unfolding run
  run-idle e es app s at now opened quiet due =
      ap (run idle_ms locked (es ++ ((now, timers) ∷ []))) (step-used e app s at opened)
      ∙ run-due es s app.shown (at + idle_ms) now quiet due

  -- Turns of the event loop before the deadline leave the vault open.
  pub run-early :
      (es : List (ℕ × Event S)) (s : S) (r : R) (d : ℕ)
      → All (IsEarly d) es
      → run idle_ms locked es (open_app s r d) ≡ open_app s r d
  unfolding run step
  run-early [] s r d h = refl
  run-early ((now, adopt u) ∷ es) s r d (h, hs) = absurd h
  run-early ((now, activity) ∷ es) s r d (h, hs) = absurd h
  run-early ((now, timers) ∷ es) s r d (h, hs) = rw (lt→leb now d h) (run-early es s r d hs)
  run-early ((now, lock_button) ∷ es) s r d (h, hs) = absurd h
