-- ===== src/Extension/Background/Race.antt =====
-- A handler awaits the read of the session, and then the extension of its deadline. Another message
-- is handled between the two.
use passwd.Base.{ℕ, ◌+◌, ◌≡◌, refl, none, some}
use passwd.ApiClient.Items.{Session}
use passwd.Extension.Protocol.{lock, Reply, done}
use passwd.Extension.Background.{
  Client, StoredSession, Storage, World, idle_ms, clear_stored, read_stored, handle, resume, touch,
  write_stored, with_session,
}

module _ (c : Client) where
  open c use {Net}

  -- A request on the vault whose read of the session is followed by other events before the rest of
  -- it runs.
  unfoldable pub overtaken :
      ℕ
      → ℕ
      → (Session → Net → Reply × Net)
      → (World Net → World Net)
      → World Net
      → Reply × World Net
  unfolding resume read_stored
  overtaken read_at write_at op between (st, net) =
      let (s, st') = read_stored read_at st in resume c s write_at op (between (st', net))

  -- With nothing between the two, this is the handler.
  pub overtaken-nothing :
      (r t : ℕ) (op : Session → Net → Reply × Net) (w : World Net)
      → overtaken r t op (λ v. v) w ≡ with_session c r t op w
  unfolding overtaken with_session
  overtaken-nothing r t op (st, net) = refl

  -- A lock that is handled after a request on the vault has read a session, and before it goes on,
  -- is answered `done` and is lost: when both are over the session is stored again, with a new
  -- deadline.
  pub lock_lost :
      (r t l m : ℕ) (op : Session → Net → Reply × Net) (st st' : Storage) (net : Net)
      (s : StoredSession)
      → read_stored r st ≡ (some s, st')
      → ((handle c l m lock (st', net)).0 ≡ done)
        × ((handle c l m lock (st', net)).1.0.session ≡ none)
        × ((overtaken r t op (λ w. (handle c l m lock w).1) (st, net)).1.0.session
            ≡ some (record s { lock_at = t + idle_ms }))
  unfolding overtaken handle clear_stored resume touch write_stored
  lock_lost r t l m op st st' net s e = rw e (refl, refl, refl)
