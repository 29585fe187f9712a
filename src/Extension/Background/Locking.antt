-- ===== src/Extension/Background/Locking.antt =====
-- Requests on the vault, with an open session and without.
use passwd.Base.{
  ℕ, ◌+◌, ◌≤◌, ◌<◌, ◌≡◌, refl, Option, none, some, List, [], ◌∷◌, All, AllBytes, arith, lt→ltb,
  le→ltb, Text,
}
use passwd.Base.Outcome.{ok}
use passwd.ApiClient.Items.{Session, VaultItem, ItemFields}
use passwd.Crypto.Base64.{encode_groups}
use passwd.Crypto.Base64.RoundTrip.{to_base64-bytes, from_base64-encode_groups}
use passwd.Extension.Protocol.{
  Request, get_state, unlock, lock, get_items, add_item, update_item, delete_item, get_pending,
  dismiss_pending, capture_login, other, Reply, locked, done,
}
use passwd.Extension.Background.{
  Client, StoredSession, Storage, World, idle_ms, read_session, read_stored, operation, handle,
  stored_session, keep_session, write_stored, resume, with_session, to_session, touch,
}

-- The requests that act on the vault.
pub data OnVault : Request → Type 0 where
  lists : OnVault get_items
  adds : (f : ItemFields) → OnVault (add_item f)
  updates : (i : VaultItem) → OnVault (update_item i)
  deletes : (id : Text) → OnVault (delete_item id)

-- No session is stored, or it has expired at the time of the read.
abbrev pub IsLocked : ℕ → Option StoredSession → Type 0
IsLocked now none = Unit
IsLocked now (some s) = s.lock_at < now

-- What the extension keeps of a session: all but the sharing key.
abbrev pub without_sharing : Session → Session
without_sharing s = record s { protected_private_key = [] }

-- Requests that are not an unlock.
abbrev pub NotUnlock : Request → Type 0
NotUnlock (unlock identifier password totp) = ⊥
NotUnlock _ = Unit

module _ (c : Client) where
  with_session_locked :
      (s : Option StoredSession) (st : Storage) (net : c.Net) (read_at write_at : ℕ)
      (op : Session → c.Net → Reply × c.Net)
      → st.session ≡ s
      → IsLocked read_at s
      → ((with_session c read_at write_at op (st, net)).0 ≡ locked)
        × ((with_session c read_at write_at op (st, net)).1.1 ≡ net)
        × ((with_session c read_at write_at op (st, net)).1.0.session ≡ none)
  unfolding with_session read_stored
  with_session_locked none st net r w op e h = rw (e, read_session) (refl, refl, refl)
  with_session_locked (some s) st net r w op e h =
      rw (e, read_session, lt→ltb _ _ h) (refl, refl, refl)

  -- With an open session, an operation runs with its credentials and the deadline is extended.
  pub with_session_open :
      (st : Storage) (net : c.Net) (s : StoredSession) (session : Session) (r t : ℕ)
      (op : Session → c.Net → Reply × c.Net)
      → st.session ≡ some s
      → to_session s ≡ ok session
      → r ≤ s.lock_at
      → with_session c r t op (st, net) ≡ ((op session net).0, (touch t s st, (op session net).1))
  unfolding with_session read_stored read_session resume
  with_session_open st net s session r t op stored decodes live =
      rw (stored, le→ltb _ _ live, decodes) refl

  handle-OnVault :
      (q : Request) (r t : ℕ) (w : World c.Net)
      → OnVault q
      → handle c r t q w ≡ with_session c r t (operation c q) w
  unfolding handle
  handle-OnVault q r t w lists = refl
  handle-OnVault q r t w (adds f) = refl
  handle-OnVault q r t w (updates i) = refl
  handle-OnVault q r t w (deletes id) = refl

  -- With no session, or one past its deadline, every request on the vault is answered `locked`.
  -- The server is not called, and no session is left in the storage.
  pub vault_request_locked :
      (q : Request) (st : Storage) (net : c.Net) (read_at write_at : ℕ)
      → OnVault q
      → IsLocked read_at st.session
      → ((handle c read_at write_at q (st, net)).0 ≡ locked)
        × ((handle c read_at write_at q (st, net)).1.1 ≡ net)
        × ((handle c read_at write_at q (st, net)).1.0.session ≡ none)
  vault_request_locked q st net r w on h =
      rw (handle-OnVault q r w _ on)
        (with_session_locked st.session st net r w (operation c q) refl h)

  -- The requests in order, each with the two times at which it reads the clock.
  pub handle_all : List (Request × ℕ × ℕ) → World c.Net → World c.Net
  handle_all [] w = w
  handle_all ((q, r, t) ∷ qs) w = handle_all qs (handle c r t q w).1

  handle_keeps_locked :
      (q : Request) (r t : ℕ) (w : World c.Net)
      → NotUnlock q
      → w.0.session ≡ none
      → (handle c r t q w).1.0.session ≡ none
  unfolding handle
  handle_keeps_locked get_state r t (st, net) n h = rw (h, read_session) refl
  handle_keeps_locked (unlock identifier password totp) r t (st, net) n h = absurd n
  handle_keeps_locked lock r t (st, net) n h = refl
  handle_keeps_locked get_items r t (st, net) n h =
      (vault_request_locked _ st net r t lists (rw h tt)).2
  handle_keeps_locked (add_item f) r t (st, net) n h =
      (vault_request_locked _ st net r t (adds f) (rw h tt)).2
  handle_keeps_locked (update_item i) r t (st, net) n h =
      (vault_request_locked _ st net r t (updates i) (rw h tt)).2
  handle_keeps_locked (delete_item id) r t (st, net) n h =
      (vault_request_locked _ st net r t (deletes id) (rw h tt)).2
  handle_keeps_locked (capture_login url username []) r t (st, net) n h = h
  handle_keeps_locked (capture_login url username (k ∷ rest)) r t (st, net) n h = h
  handle_keeps_locked get_pending r t (st, net) n h = ground arith
  handle_keeps_locked dismiss_pending r t (st, net) n h = h
  handle_keeps_locked other r t (st, net) n h = h

  handle_all_keeps_locked :
      (qs : List (Request × ℕ × ℕ)) (w : World c.Net)
      → All (λ q. NotUnlock q.0) qs
      → w.0.session ≡ none
      → (handle_all qs w).0.session ≡ none
  unfolding handle_all
  handle_all_keeps_locked [] w h e = e
  handle_all_keeps_locked ((q, r, t) ∷ qs) w (n, h) e =
      handle_all_keeps_locked qs (handle c r t q w).1 h (handle_keeps_locked q r t w n e)

  handle_lock : (r t : ℕ) (w : World c.Net) → (handle c r t lock w).1.0.session ≡ none
  unfolding handle
  handle_lock r t (st, net) = refl

  -- After a lock no session is stored, through any requests that follow but an unlock.
  pub lock_stays :
      (qs : List (Request × ℕ × ℕ)) (r t : ℕ) (w : World c.Net)
      → All (λ q. NotUnlock q.0) qs
      → (handle_all qs (handle c r t lock w).1).0.session ≡ none
  lock_stays qs r t w h = handle_all_keeps_locked qs _ h (handle_lock r t w)

  unlocked :
      (identifier password : Text) (totp : Option Text) (st : Storage) (net net' : c.Net)
      (s : Session) (r u : ℕ)
      → c.login_account identifier password totp net ≡ (ok s, net')
      → AllBytes s.user_key
      → handle c r u (unlock identifier password totp) (st, net)
        ≡ (done, (write_stored (stored_session s (encode_groups s.user_key) u) st, net'))
  unfolding handle
  unlocked identifier password totp st net net' s r u e k =
      rw (e, keep_session, to_base64-bytes s.user_key k) refl

  with_session_fresh :
      (s : Session) (u read_at write_at : ℕ) (st : Storage) (net : c.Net)
      (op : Session → c.Net → Reply × c.Net)
      → AllBytes s.user_key
      → read_at ≤ u + idle_ms
      → ((with_session c read_at write_at op
            (write_stored (stored_session s (encode_groups s.user_key) u) st, net)).0
          ≡ (op (without_sharing s) net).0)
        × ((with_session c read_at write_at op
              (write_stored (stored_session s (encode_groups s.user_key) u) st, net)).1.1
            ≡ (op (without_sharing s) net).1)
  unfolding with_session read_stored write_stored stored_session resume to_session
  with_session_fresh s u read_at write_at st net op k h =
      rw (read_session, le→ltb _ _ h, from_base64-encode_groups s.user_key k) (refl, refl)

  -- A login that succeeds is answered `done`, and the session lasts for the idle time: a request
  -- on the vault that reads the storage up to that time runs with the user key and the tokens of
  -- the login.
  pub vault_request-unlock :
      (q : Request) (identifier password : Text) (totp : Option Text) (st : Storage)
      (net net' : c.Net) (s : Session) (r unlocked_at read_at write_at : ℕ)
      → OnVault q
      → c.login_account identifier password totp net ≡ (ok s, net')
      → AllBytes s.user_key
      → read_at ≤ unlocked_at + idle_ms
      → ((handle c r unlocked_at (unlock identifier password totp) (st, net)).0 ≡ done)
        × ((handle c read_at write_at q
              (handle c r unlocked_at (unlock identifier password totp) (st, net)).1).0
            ≡ (operation c q (without_sharing s) net').0)
        × ((handle c read_at write_at q
              (handle c r unlocked_at (unlock identifier password totp) (st, net)).1).1.1
            ≡ (operation c q (without_sharing s) net').1)
  vault_request-unlock q identifier password totp st net net' s r u read_at write_at on e k h =
      let fresh = with_session_fresh s u read_at write_at st net' (operation c q) k h in
      rw
        (
          unlocked identifier password totp st net net' s r u e k,
          handle-OnVault q read_at write_at _ on,
        )
        (refl, fresh.0, fresh.1)
