-- ===== src/Extension/Background/Consistency.antt =====
-- The lock alarm and the stored session.
use passwd.Base.{ℕ, ◌≡◌, refl, Option, none, some, [], ◌∷◌, arith, Text}
use mathlib.Core.Option.{map}
use passwd.Base.Outcome.{Result, ok, throw}
use passwd.ApiClient.Items.{Session}
use passwd.Crypto.Base64.{to_base64}
use passwd.Extension.Protocol.{
  Request, get_state, unlock, lock, get_items, add_item, update_item, delete_item, get_pending,
  dismiss_pending, capture_login, other, Reply,
}
use passwd.Extension.Background.{
  Client, StoredSession, Storage, World, clear_stored, read_session, read_stored, handle, on_alarm,
  empty, store_session, resume, keep_session, write_stored, read_pending, touch, with_session,
}

-- The alarm is set exactly where a session is stored, for the session's deadline.
abbrev pub IsArmed : Storage → Type 0
IsArmed st = st.alarm ≡ map (λ s. s.lock_at) st.session

read_session-IsArmed :
    (s : Option StoredSession) (now : ℕ) (st : Storage)
    → st.session ≡ s
    → IsArmed st
    → IsArmed (read_session s now st).1
unfolding read_session clear_stored
read_session-IsArmed none now st e h = h
read_session-IsArmed (some s) now st e h = ground arith

store_session-IsArmed :
    (s : Session) (r : Result Text) (now : ℕ) (st : Storage)
    → IsArmed st
    → IsArmed (store_session s r now st).1
unfolding store_session write_stored
store_session-IsArmed s (throw e) now st h = h
store_session-IsArmed s (ok key) now st h = refl

keep_session-IsArmed :
    (r : Result Session) (now : ℕ) (st : Storage) → IsArmed st → IsArmed (keep_session r now st).1
unfolding keep_session
keep_session-IsArmed (throw e) now st h = h
keep_session-IsArmed (ok s) now st h = store_session-IsArmed s (to_base64 s.user_key) now st h

module _ (c : Client) where
  resume-IsArmed :
      (s : Option StoredSession) (now : ℕ) (op : Session → c.Net → Reply × c.Net) (st : Storage)
      (net : c.Net)
      → IsArmed st
      → IsArmed (resume c s now op (st, net)).1.0
  unfolding resume touch write_stored
  resume-IsArmed none now op st net h = h
  resume-IsArmed (some s) now op st net h = refl

  with_session-IsArmed :
      (r t : ℕ) (op : Session → c.Net → Reply × c.Net) (st : Storage) (net : c.Net)
      → IsArmed st
      → IsArmed (with_session c r t op (st, net)).1.0
  unfolding with_session read_stored
  with_session-IsArmed r t op st net h =
      resume-IsArmed _ t op _ net (read_session-IsArmed st.session r st refl h)

  -- A request keeps the alarm in step with the session.
  handle-IsArmed :
      (q : Request) (r t : ℕ) (w : World c.Net) → IsArmed w.0 → IsArmed (handle c r t q w).1.0
  unfolding handle read_stored clear_stored read_pending
  handle-IsArmed get_state r t (st, net) h = read_session-IsArmed st.session r st refl h
  handle-IsArmed (unlock identifier password totp) r t (st, net) h =
      keep_session-IsArmed (c.login_account identifier password totp net).0 t st h
  handle-IsArmed lock r t (st, net) h = refl
  handle-IsArmed get_items r t (st, net) h = with_session-IsArmed r t _ st net h
  handle-IsArmed (add_item f) r t (st, net) h = with_session-IsArmed r t _ st net h
  handle-IsArmed (update_item i) r t (st, net) h = with_session-IsArmed r t _ st net h
  handle-IsArmed (delete_item id) r t (st, net) h = with_session-IsArmed r t _ st net h
  handle-IsArmed (capture_login url username []) r t (st, net) h = h
  handle-IsArmed (capture_login url username (k ∷ rest)) r t (st, net) h = h
  handle-IsArmed get_pending r t (st, net) h = ground arith
  handle-IsArmed dismiss_pending r t (st, net) h = h
  handle-IsArmed other r t w h = h

  -- What can happen to the worker: a request is answered, or the lock alarm fires.
  pub data Step : World c.Net → World c.Net → Type 0 where
    answers : (q : Request) (r t : ℕ) (w : World c.Net) → Step w (handle c r t q w).1
    rings : (w : World c.Net) → Step w (on_alarm c w)

  -- The states of the worker that starts with an empty storage.
  pub data Reachable : World c.Net → Type 0 where
    start : (net : c.Net) → Reachable (empty, net)
    next : {v w : World c.Net} → Reachable v → Step v w → Reachable w

  Step-IsArmed : {v w : World c.Net} → Step v w → IsArmed v.0 → IsArmed w.0
  unfolding on_alarm clear_stored
  Step-IsArmed (answers q r t w) h = handle-IsArmed q r t w h
  Step-IsArmed (rings (st, net)) h = refl

  -- While the worker's handlers run one after the other, the alarm is set exactly when a session
  -- is stored, and it rings at that session's deadline.
  pub Reachable-IsArmed : (w : World c.Net) → Reachable w → IsArmed w.0
  Reachable-IsArmed w (start net) = refl
  Reachable-IsArmed w (next before s) = Step-IsArmed s (Reachable-IsArmed _ before)
