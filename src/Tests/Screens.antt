-- ===== src/Tests/Screens.antt =====
-- The screens at concrete inputs.
use passwd.Base.{◌+◌, ◌≡◌, refl, true, false, Option, none, some, [], ◌∷◌, ◌++◌, Text, codes, arith}
use passwd.Base.Act.{Entropy}
use passwd.Base.Decimal.{natural_of}
use passwd.Base.Equality.{equal}
use passwd.Base.Outcome.{ok}
use passwd.Crypto.Primitives.Sealing.{draw-IsKey}
use passwd.ApiClient.Items.{Session, VaultItem, login, blank_fields}
use passwd.ApiClient.Sync.{Cipher, load_ciphers}
use passwd.Idle.{App, adopt, timers, run, web_idle_ms, web_locked}
use passwd.Idle.Locks.{run-idle}
use passwd.Web.Awareness.{AuditEvent, check_activity}
use passwd.Web.Awareness.Since.{count_of, check_activity-fresh}
use passwd.Web.Vault
use passwd.Web.Vault.{Screen, handle_save}
use passwd.Web.Vault.Saving.{handle_save-added}
use passwd.Tests.Toy.{toy}
use passwd.Tests.Sync.{alice, bank, list_server, encodable_bank, lower_false}

abbrev counting : Entropy
counting = record { at = λ i. i + 3 }

abbrev bank_item : VaultItem
bank_item = record { id = codes "c1"; content = bank }

abbrev shop_item : VaultItem
shop_item = record {
  id = codes "c2";
  content = record (blank_fields login) { name = codes "shop" };
}

abbrev signed_out : App Session (Option Text)
signed_out = record { open_vault = none; shown = some (codes "phrase"); deadline = none }

run-idle_example :
    run web_idle_ms web_locked
      ((5, adopt alice) ∷ ((100, timers) ∷ (200, timers) ∷ []) ++ ((900005, timers) ∷ []))
      signed_out
    ≡ record { open_vault = none; shown = none; deadline = none }
run-idle_example =
    run-idle web_idle_ms web_locked (adopt alice) ((100, timers) ∷ (200, timers) ∷ []) signed_out
      alice 5 900005 refl (tt, (tt, tt)) (omega arith)

abbrev junk : Cipher
junk = record { id = codes "c0"; payload = codes "junk"; created_at = []; updated_at = [] }

handle_save-added_example :
    ((handle_save toy list_server alice
        (record { id = []; content = bank })
        Vault.opened
        (junk ∷ [])
        counting).0
      ≡ true)
    × ((handle_save toy list_server alice
          (record { id = []; content = bank })
          Vault.opened
          (junk ∷ [])
          counting).1
        ≡ record Vault.opened {
          items =
              load_ciphers toy alice.user_key (junk ∷ [])
              ++ (record { id = codes "c1"; content = bank } ∷ []);
          loading = false;
          error = none;
          toast = some (codes "Saved");
        })
handle_save-added_example =
    handle_save-added toy list_server alice bank (junk ∷ []) (codes "c1") [] [] Vault.opened
      (junk ∷ [])
      (λ t. junk ∷ record { id = codes "c1"; payload = t; created_at = []; updated_at = [] } ∷ [])
      counting lower_false (draw-IsKey 64 0 counting) encodable_bank (λ t. refl) (λ t. refl)

abbrev at_time : Text → Text → AuditEvent
at_time event t = record { event = event; detail = none; created_at = t }

abbrev signed_in : AuditEvent
signed_in = at_time (codes "login.success") (codes "100")

abbrev failed : AuditEvent
failed = at_time (codes "login.failure") (codes "200")

check_activity-fresh_example :
    (check_activity natural_of
      (ok ((failed ∷ []) ++ (signed_in ∷ [])))
      false
      false
      1
      (codes "k")
      none
      (check_activity natural_of
        (ok (signed_in ∷ []))
        false
        false
        1
        (codes "k")
        none
        (λ k. none)).1).0
    ≡ some (
        codes "Since your last visit: 1 failed sign-in attempt"
        ++ codes ". If that wasn't you, review your activity.")
unfolding natural_of count_of equal
check_activity-fresh_example =
    check_activity-fresh natural_of (failed ∷ []) [] signed_in 100 1 1 (codes "k") (λ k. none) refl
      (refl, tt) (refl, tt)
