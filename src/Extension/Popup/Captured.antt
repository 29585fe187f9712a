-- ===== src/Extension/Popup/Captured.antt =====
-- The popup over the background worker, with a captured login.
use passwd.Base.{ℕ, ◌+◌, ◌≤◌, ◌≡◌, refl, true, false, none, some, List, [], ◌∷◌, Text, codes}
use passwd.Base.Outcome.{ok, throw, error}
use passwd.ApiClient.Items.{Session, ItemFields, VaultItem}
use passwd.Extension.Protocol.{
  Request, Reply, get_items, add_item, dismiss_pending, done, items, added,
}
use passwd.Extension.Background.{
  Client, StoredSession, Storage, World, idle_ms, handle, operation, reply_with, touch,
  write_stored, to_session,
}
use passwd.Extension.Background.Locking.{with_session_open}
use passwd.Extension.Popup.{
  Popup, save_editing, after_save, save_request, on_mutation, unless_refused, dismiss,
  dismiss_if_captured, reload_items, shown_items,
}
use passwd.Extension.Responses.{received, is_locked, error_in, items_in}

-- The worker's clock at the read and at the write of each request, by its number.
pub record Clock : Type 0 where
  pub read_at : ℕ → ℕ
  pub write_at : ℕ → ℕ

to_session-extended :
    (s : StoredSession) (at : ℕ) {session : Session}
    → to_session s ≡ ok session
    → to_session (record s { lock_at = at }) ≡ ok session
unfolding to_session
to_session-extended s at h = h

module _ (c : Client) where
  handle-add_item :
      (st : Storage) (net net' : c.Net) (s : StoredSession) (session : Session) (r t : ℕ)
      (f : ItemFields) (i : VaultItem)
      → st.session ≡ some s
      → to_session s ≡ ok session
      → r ≤ s.lock_at
      → c.add_item session f net ≡ (ok i, net')
      → handle c r t (add_item f) (st, net) ≡ (added i, (touch t s st, net'))
  unfolding handle operation reply_with
  handle-add_item st net net' s session r t f i stored decodes live adds =
      rw
        (
          with_session_open c st net s session r t (operation c (add_item f)) stored decodes live,
          adds,
        )
        refl

  handle-get_items :
      (st : Storage) (net net' : c.Net) (s : StoredSession) (session : Session) (r t : ℕ)
      (loaded : List VaultItem)
      → st.session ≡ some s
      → to_session s ≡ ok session
      → r ≤ s.lock_at
      → c.load_vault session net ≡ (ok loaded, net')
      → handle c r t get_items (st, net) ≡ (items loaded, (touch t s st, net'))
  unfolding handle operation reply_with
  handle-get_items st net net' s session r t loaded stored decodes live loads =
      rw
        (
          with_session_open c st net s session r t (operation c get_items) stored decodes live,
          loads,
        )
        refl

  handle-dismiss_pending :
      (r t : ℕ) (w : World c.Net)
      → handle c r t dismiss_pending w ≡ (done, (record w.0 { pending = none }, w.1))
  unfolding handle
  handle-dismiss_pending r t w = refl

  module _ (clock : Clock) where
    -- The worker and the number of the next request.
    abbrev pub Worker : Type 0
    Worker = ℕ × World c.Net

    abbrev pub send : Request → Worker → Reply × Worker
    send q (n, w) =
        let (r, w') = handle c (clock.read_at n) (clock.write_at n) q w in (r, (n + 1, w'))

    -- A captured login that the user saves, while the session is open, and that the server stores, is
    -- added to the account, the list that the server then gives is shown, and the worker and the popup
    -- forget the captured login; the session's deadline is counted from the last request, which comes
    -- before the deadline that the first one set.
    pub save_editing-captured :
        (popup : Popup) (f : ItemFields) (n : ℕ) (st : Storage) (net net' net'' : c.Net)
        (s : StoredSession) (session : Session) (i : VaultItem) (loaded : List VaultItem)
        → popup.from_pending ≡ true
        → st.session ≡ some s
        → to_session s ≡ ok session
        → clock.read_at n ≤ s.lock_at
        → clock.read_at (n + 1 + 1) ≤ clock.write_at n + idle_ms
        → c.add_item session f net ≡ (ok i, net')
        → c.load_vault session net' ≡ (ok loaded, net'')
        → save_editing send (record { id = []; content = f }) (popup, (n, (st, net))) ≡ (
          ok none,
          (
            record popup {
              items = loaded;
              editing = none;
              from_pending = false;
              pending = none;
              toast = some (codes "Added");
            },
            (
              n + 1 + 1 + 1,
              (touch (clock.write_at (n + 1 + 1)) s (record st { pending = none }), net''),
            ),
          ),
        )
    unfolding save_editing save_request on_mutation after_save dismiss_if_captured dismiss
        reload_items received is_locked error_in items_in unless_refused shown_items
    save_editing-captured popup f n st net net' net'' s session i loaded captured stored decodes
          live still adds loads =
        rw
          (
            handle-add_item st net net' s session (clock.read_at n) (clock.write_at n) f i stored
                decodes live adds,
            captured,
            handle-dismiss_pending (clock.read_at (n + 1)) (clock.write_at (n + 1))
                (touch (clock.write_at n) s st, net'),
            handle-get_items (record (touch (clock.write_at n) s st) { pending = none }) net' net''
                (record s { lock_at = clock.write_at n + idle_ms }) session
                (clock.read_at (n + 1 + 1)) (clock.write_at (n + 1 + 1)) loaded
                (unfold touch write_stored in refl)
                (to_session-extended s (clock.write_at n + idle_ms) decodes) still loads,
          )
          (unfold touch write_stored in refl)

    -- Where adding it is refused, with a message, the editor is given the message, the popup is as
    -- it was, and so is the captured login in the worker.
    save_editing-refused :
        (popup : Popup) (f : ItemFields) (n : ℕ) (st : Storage) (net net' : c.Net)
        (s : StoredSession) (session : Session) (k : ℕ) (message : Text)
        → st.session ≡ some s
        → to_session s ≡ ok session
        → clock.read_at n ≤ s.lock_at
        → c.add_item session f net ≡ (throw (error (k ∷ message)), net')
        → let after = save_editing send (record { id = []; content = f }) (popup, (n, (st, net))) in
          (after.0 ≡ ok (some (k ∷ message)))
          × (after.1.0 ≡ popup)
          × (after.1.1.1.0.pending ≡ st.pending)
    unfolding save_editing save_request on_mutation received is_locked error_in unless_refused
        handle operation reply_with
    save_editing-refused popup f n st net net' s session k message stored decodes live fails =
        rw
          (
            with_session_open c st net s session (clock.read_at n) (clock.write_at n)
                (operation c (add_item f)) stored decodes live,
            fails,
          )
          (refl, refl, (unfold touch write_stored in refl))
