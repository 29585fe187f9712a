-- ===== src/Extension/Background.antt =====
-- clients/apps/extension/entrypoints/background.ts: the background worker, which owns the unlocked
-- session. The operations of the API client are the parameter `Client`, over an abstract state of
-- the network and the server. A handler reads the clock when it reads the session, and again when
-- it writes: the two readings are its arguments.
pub mod Locking
pub mod Pending
pub mod Consistency
pub mod Race
use passwd.Base.{
  ℕ, ◌+◌, ◌-◌, ◌*◌, Bool, Option, none, some, List, [], ◌∷◌, ltb, if◌then◌else◌, Text, Bytes, codes,
}
use passwd.Base.Outcome
use passwd.Base.Outcome.{Thrown, error, two_factor, Result, ok, throw, message_of}
use passwd.ApiClient.Items.{Session, VaultItem, ItemFields}
use passwd.Crypto.Base64.{to_base64, from_base64}
use passwd.Extension.Protocol.{
  PendingSave, Request, get_state, unlock, lock, get_items, add_item, update_item, delete_item,
  get_pending, dismiss_pending, capture_login, other, Reply, state_locked, state_unlocked, locked,
  done, failed, two_factor_required, items, added, pending, no_reply,
}

-- What the worker calls of the API client.
pub record Client : Type 1 where
  pub Net : Type 0
  pub login_account : Text → Text → Option Text → Net → Result Session × Net
  pub load_vault : Session → Net → Result (List VaultItem) × Net
  pub add_item : Session → ItemFields → Net → Result VaultItem × Net
  pub save_item : Session → VaultItem → Net → Result (Unit {0}) × Net
  pub remove_item : Session → Text → Net → Result (Unit {0}) × Net

abbrev pub idle_ms : ℕ
idle_ms = 15 * 60 * 1000

abbrev pub pending_ttl_ms : ℕ
pending_ttl_ms = 5 * 60 * 1000

pub record StoredSession : Type 0 where
  pub identifier : Text
  pub access_token : Text
  pub refresh_token : Text
  pub user_key_b64 : Text
  pub lock_at : ℕ

pub record StoredPending : Type 0 where
  pub save : PendingSave
  pub captured_at : ℕ

-- `storage.session`, and the time of the lock alarm if it is set.
pub record Storage : Type 0 where
  pub session : Option StoredSession
  pub pending : Option StoredPending
  pub alarm : Option ℕ

abbrev pub empty : Storage
empty = record { session = none; pending = none; alarm = none }

unfoldable pub clear_stored : Storage → Storage
clear_stored st = record st { session = none; alarm = none }

unfoldable pub write_stored : StoredSession → Storage → Storage
write_stored s st = record st { session = some s; alarm = some s.lock_at }

read_session : Option StoredSession → ℕ → Storage → Option StoredSession × Storage
unfolding clear_stored
read_session none now st = (none, st)
read_session (some s) now st = if ltb s.lock_at now then (none, clear_stored st) else (some s, st)

-- An expired session is cleared as it is read.
unfoldable pub read_stored : ℕ → Storage → Option StoredSession × Storage
unfolding read_session
read_stored now st = read_session st.session now st

-- The extension holds no sharing key.
unfoldable pub to_session : StoredSession → Result Session
to_session s = Outcome.◌>>=◌ (from_base64 s.user_key_b64) λ key. ok (record {
  identifier = s.identifier;
  access_token = s.access_token;
  refresh_token = s.refresh_token;
  user_key = key;
  protected_private_key = [];
})

-- Extends the idle deadline.
unfoldable pub touch : ℕ → StoredSession → Storage → Storage
unfolding write_stored
touch now s st = write_stored (record s { lock_at = now + idle_ms }) st

read_save : Option StoredPending → ℕ → Storage → Option PendingSave × Storage
read_save none now st = (none, st)
read_save (some q) now st =
    if ltb pending_ttl_ms (now - q.captured_at)
    then (none, record st { pending = none })
    else (some q.save, st)

unfoldable pub read_pending : ℕ → Storage → Option PendingSave × Storage
unfolding read_save
read_pending now st = read_save st.pending now st

abbrev pub World : Type 0 → Type 0
World Net = Storage × Net

-- The reply to an operation that returned or threw.
unfoldable pub reply_with {ℓ} : {A : Type ℓ} → (A → Reply) → Result A → Reply
unfolding message_of
reply_with f (ok a) = f a
reply_with f (throw e) = failed (message_of e)

unfoldable pub stored_session : Session → Text → ℕ → StoredSession
stored_session s key now = record {
  identifier = s.identifier;
  access_token = s.access_token;
  refresh_token = s.refresh_token;
  user_key_b64 = key;
  lock_at = now + idle_ms;
}

-- The `catch` of an unlock.
unfoldable pub unlock_failed : Thrown → Reply
unfolding message_of
unlock_failed (two_factor methods) = two_factor_required methods
unlock_failed (error m) = failed m

-- Writes the session of a login, unless the encoding of its key threw.
unfoldable pub store_session : Session → Result Text → ℕ → Storage → Reply × Storage
unfolding unlock_failed stored_session write_stored
store_session s (throw e) now st = (unlock_failed e, st)
store_session s (ok key) now st = (done, write_stored (stored_session s key now) st)

-- After the login, which may have thrown.
unfoldable pub keep_session : Result Session → ℕ → Storage → Reply × Storage
unfolding unlock_failed store_session
keep_session (throw e) now st = (unlock_failed e, st)
keep_session (ok s) now st = store_session s (to_base64 s.user_key) now st

state_reply : Option StoredSession → Reply
state_reply none = state_locked
state_reply (some s) = state_unlocked s.identifier

-- A login captured with a password replaces the one that is waiting.
unfoldable pub capture : Text → Text → Text → ℕ → Storage → Storage
capture url username [] now st = st
capture url username (c ∷ password) now st = record st {
  pending = some (record {
    save = record { url = url; username = username; password = c ∷ password };
    captured_at = now;
  });
}

module _ (c : Client) where
  open c use {Net}

  -- An operation on the server with the session's credentials.
  abbrev pub Operation : Type 0
  Operation = Session → Net → Reply × Net

  perform : Result Session → Operation → Net → Reply × Net
  unfolding message_of
  perform (throw e) op net = (failed (message_of e), net)
  perform (ok s) op net = op s net

  -- What follows the read of the session: the deadline is extended before the operation runs.
  unfoldable pub resume : Option StoredSession → ℕ → Operation → World Net → Reply × World Net
  unfolding perform touch to_session
  resume none now op w = (locked, w)
  resume (some s) now op (st, net) =
      let (reply, net') = perform (to_session s) op net in (reply, (touch now s st, net'))

  unfoldable pub with_session : ℕ → ℕ → Operation → World Net → Reply × World Net
  unfolding resume
  with_session read_at write_at op (st, net) =
      let (s, st') = read_stored read_at st in resume s write_at op (st', net)

  unfoldable pub operation : Request → Operation
  unfolding reply_with
  operation get_items s net = let (r, n) = c.load_vault s net in (reply_with items r, n)
  operation (add_item f) s net = let (r, n) = c.add_item s f net in (reply_with added r, n)
  operation (update_item i) s net =
      let (r, n) = c.save_item s i net in (reply_with (λ _. done) r, n)
  operation (delete_item i) s net =
      let (r, n) = c.remove_item s i net in (reply_with (λ _. done) r, n)
  operation _ s net = (no_reply, net)

  -- The listener's `switch`.
  unfoldable pub handle : ℕ → ℕ → Request → World Net → Reply × World Net
  unfolding with_session operation read_stored read_pending keep_session state_reply capture
      clear_stored
  handle read_at write_at get_state (st, net) =
      let (s, st') = read_stored read_at st in (state_reply s, (st', net))
  handle read_at write_at (unlock identifier password totp) (st, net) =
      let (r, net') = c.login_account identifier password totp net in
      let (reply, st') = keep_session r write_at st in (reply, (st', net'))
  handle read_at write_at lock (st, net) = (done, (clear_stored st, net))
  handle read_at write_at get_items w = with_session read_at write_at (operation get_items) w
  handle read_at write_at (add_item f) w = with_session read_at write_at (operation (add_item f)) w
  handle read_at write_at (update_item i) w =
      with_session read_at write_at (operation (update_item i)) w
  handle read_at write_at (delete_item i) w =
      with_session read_at write_at (operation (delete_item i)) w
  handle read_at write_at (capture_login url username password) (st, net) =
      (done, (capture url username password write_at st, net))
  handle read_at write_at get_pending (st, net) =
      let (q, st') = read_pending read_at st in (pending q, (st', net))
  handle read_at write_at dismiss_pending (st, net) = (done, (record st { pending = none }, net))
  handle read_at write_at other w = (no_reply, w)

  -- The alarm listener, for the lock alarm: a fired alarm is no longer set.
  unfoldable pub on_alarm : World Net → World Net
  unfolding clear_stored
  on_alarm (st, net) = (clear_stored st, net)
