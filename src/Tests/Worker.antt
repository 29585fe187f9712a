-- ===== src/Tests/Worker.antt =====
-- The background worker with a client that answers every call and counts them, the popup over it, and
-- the content script on a page.
use passwd.Base.{ℕ, ◌+◌, ◌*◌, ◌≡◌, refl, true, false, none, some, List, [], ◌∷◌, drop, codes, arith}
use passwd.Base.Equality.{equal}
use passwd.Base.Strings.{includes_text, starts_with_text}
use passwd.Base.Outcome.{ok, throw, error}
use passwd.ApiClient.Items.{Session, VaultItem, login, blank_fields}
use passwd.Crypto.Base64.{
  from_base64, atob, decode_groups, unpadded, without_space, chomp, quad, sextet,
}
use passwd.Extension.Protocol.{unlock, lock, get_items, delete_item, capture_login, locked, done}
use passwd.Extension.Background.{
  Client, StoredSession, Storage, idle_ms, touch, to_session, empty, handle, operation, read_stored,
}
use passwd.Extension.Background.Locking.{
  lists, vault_request_locked, handle_all, lock_stays, vault_request-unlock, without_sharing,
}
use passwd.Extension.Background.Consistency.{IsArmed, start, next, answers, Reachable-IsArmed}
use passwd.Extension.Content.{
  Input, is_password, has_kind, is_user, first_input, fill_login_form, capture_from,
}
use passwd.Extension.Content.Filled.{fill_login_form-filled}
use passwd.Extension.Popup.{Popup, save_editing}
use passwd.Extension.Popup.Captured.{Clock, send, save_editing-captured}
use passwd.Extension.Background.Race.{overtaken, lock_lost}

abbrev alice : Session
alice = record {
  identifier = codes "alice";
  access_token = codes "t1";
  refresh_token = codes "t2";
  user_key = 1 ∷ 2 ∷ 3 ∷ [];
  protected_private_key = codes "1.x|y";
}

abbrev counting_client : Client
counting_client = record {
  Net = ℕ;
  login_account = λ identifier password totp n. (ok alice, n + 1);
  load_vault = λ s n. (ok [], n + 1);
  add_item = λ s f n. (throw (error (codes "HTTP 500")), n + 1);
  save_item = λ s i n. (ok tt, n + 1);
  remove_item = λ s id n. (ok tt, n + 1);
}

abbrev stored : StoredSession
stored = record {
  identifier = codes "alice";
  access_token = codes "t1";
  refresh_token = codes "t2";
  user_key_b64 = codes "AQID";
  lock_at = 5000;
}

abbrev unlocked : Storage
unlocked = record { session = some stored; pending = none; alarm = some 5000 }

vault_request_locked_example :
    ((handle counting_client 6000 6001 get_items (unlocked, 7)).0 ≡ locked)
    × ((handle counting_client 6000 6001 get_items (unlocked, 7)).1.1 ≡ 7)
    × ((handle counting_client 6000 6001 get_items (unlocked, 7)).1.0.session ≡ none)
vault_request_locked_example =
    vault_request_locked counting_client get_items unlocked 7 6000 6001 lists (omega arith)

lock_stays_example :
    (handle_all counting_client
      ((get_items, 2, 3) ∷ (delete_item (codes "i"), 4, 5) ∷ [])
      (handle counting_client 1 1 lock (unlocked, 7)).1).0.session
    ≡ none
lock_stays_example =
    lock_stays counting_client ((get_items, 2, 3) ∷ (delete_item (codes "i"), 4, 5) ∷ []) 1 1
      (unlocked, 7) (tt, (tt, tt))

vault_request-unlock_example :
    ((handle counting_client 100 200 (unlock (codes "alice") (codes "pw") none) (empty, 7)).0
      ≡ done)
    × ((handle counting_client 300 301 get_items
          (handle counting_client 100 200
            (unlock (codes "alice") (codes "pw") none)
            (empty, 7)).1).0
        ≡ (operation counting_client get_items (without_sharing alice) 8).0)
    × ((handle counting_client 300 301 get_items
          (handle counting_client 100 200
            (unlock (codes "alice") (codes "pw") none)
            (empty, 7)).1).1.1
        ≡ (operation counting_client get_items (without_sharing alice) 8).1)
vault_request-unlock_example =
    vault_request-unlock counting_client get_items (codes "alice") (codes "pw") none empty 7 8 alice
      100 200 300 301 lists refl (omega arith, (omega arith, (omega arith, tt))) (omega arith)

Reachable-IsArmed_example : IsArmed (handle counting_client 1 2 lock (empty, 7)).1.0
Reachable-IsArmed_example =
    Reachable-IsArmed counting_client (handle counting_client 1 2 lock (empty, 7)).1
      (next (start 7) (answers lock 1 2 (empty, 7)))

read_unlocked : read_stored 10 unlocked ≡ (some stored, unlocked)
unfolding read_stored
read_unlocked = refl

lock_lost_example :
    ((handle counting_client 20 21 lock (unlocked, 7)).0 ≡ done)
    × ((handle counting_client 20 21 lock (unlocked, 7)).1.0.session ≡ none)
    × ((overtaken counting_client 10 30
          (operation counting_client get_items)
          (λ w. (handle counting_client 20 21 lock w).1)
          (unlocked, 7)).1.0.session
        ≡ some (record stored { lock_at = 30 + idle_ms }))
lock_lost_example =
    lock_lost counting_client 10 30 20 21 (operation counting_client get_items) unlocked unlocked 7
      stored read_unlocked

decodes : to_session stored ≡ ok (without_sharing alice)
unfolding to_session from_base64 atob decode_groups unpadded without_space chomp quad sextet
decodes = refl

abbrev site : VaultItem
site = record { id = codes "i1"; content = blank_fields login }

-- A client that adds one item.
abbrev adding_client : Client
adding_client = record counting_client {
  add_item = λ s f n. (ok site, n + 1);
  load_vault = λ s n. (ok (site ∷ []), n + 1);
}

abbrev steady : Clock
steady = record { read_at = λ n. 10 * n; write_at = λ n. 10 * n + 5 }

-- The popup while it shows a captured login.
abbrev reviewing : Popup
reviewing = record {
  is_shut = false;
  items = [];
  loading = false;
  error = none;
  toast = none;
  editing = some (record { id = []; content = blank_fields login });
  from_pending = true;
  pending = some (record { url = codes "u"; username = codes "n"; password = codes "p" });
}

save_editing-captured_example :
    save_editing
      (send adding_client steady)
      (record { id = []; content = blank_fields login })
      (reviewing, (0, (unlocked, 7)))
    ≡ (
      ok none,
      (
        record reviewing {
          items = site ∷ [];
          editing = none;
          from_pending = false;
          pending = none;
          toast = some (codes "Added");
        },
        (3, (touch 25 stored unlocked, 9)),
      ),
    )
save_editing-captured_example =
    save_editing-captured adding_client steady reviewing (blank_fields login) 0 unlocked 7 8 9
      stored (without_sharing alice) site (site ∷ []) refl refl decodes (omega arith) (omega arith)
      refl refl

-- A page with a search field outside the form, and a form with two inputs.
abbrev password_input : Input
password_input = record {
  kind = codes "Password";
  autocomplete = [];
  name = codes "pw";
  id = [];
  value = [];
  form = some 1;
}

abbrev page : List Input
page =
    record password_input { kind = codes "text"; name = codes "q"; form = none }
    ∷ record password_input { kind = codes "tel"; name = codes "LoginUser" }
    ∷ password_input
    ∷ []

first_input-page : first_input is_password page ≡ some password_input
unfolding first_input has_kind equal
first_input-page = refl

fill_login_form-filled_example :
    ((fill_login_form (codes "n") (codes "p") page).0 ≡ true)
    × (first_input is_password (fill_login_form (codes "n") (codes "p") page).1
        ≡ some (record password_input { value = codes "p" }))
fill_login_form-filled_example =
    fill_login_form-filled (codes "n") (codes "p") page password_input first_input-page

-- The field outside the form is not taken, and a submit of the form captures what was filled.
capture_from-filled :
    capture_from (codes "u") (drop 1 (fill_login_form (codes "n") (codes "p") page).1)
    ≡ some (capture_login (codes "u") (codes "n") (codes "p"))
unfolding capture_from fill_login_form has_kind is_user equal includes_text starts_with_text
capture_from-filled = refl
