-- ===== src/Web/Awareness.antt =====
-- clients/apps/web/src/VaultScreen.tsx: the notice of sign-ins that failed since the last visit.
-- SHA-256, `new Date(text).getTime()` after 1970, and the entries of `localStorage` are parameters
-- and a function. An entry under such a key is one that this code wrote.
pub mod Since
use passwd.Base.{
  ℕ, ◌+◌, Bool, true, false, not, ◌&&◌, ◌||◌, Option, none, some, List, [], ◌∷◌, ◌++◌, ltb, ◌==◌,
  if◌then◌else◌, length, Text, Bytes, codes,
}
use passwd.Base.Decimal.{decimal, natural_of}
use passwd.Base.Equality.{equal}
use passwd.Base.Hex.{hex}
use passwd.Base.Outcome.{Result, ok, throw}
use passwd.Base.Sorting.{filter}
use passwd.Crypto.Identifier.{normalize_identifier}
use passwd.Crypto.Platform.{Platform}

-- `AuditEvent`
pub record AuditEvent : Type 0 where
  pub event : Text
  pub detail : Option Text
  pub created_at : Text

-- `localStorage`
abbrev pub Local : Type 0
Local = Text → Option Text

abbrev pub set_item : Text → Text → Local → Local
set_item k v store j = if equal j k then some v else store j

-- `new Date(text).getTime()`; an invalid date has no time.
abbrev pub Clock : Type 0
Clock = Text → Option ℕ

-- `t > lastSeen`, which is false if one is not a number.
abbrev pub is_later : Option ℕ → Option ℕ → Bool
is_later none last = false
is_later (some t) none = false
is_later (some t) (some last) = ltb last t

-- `String(t)` and `Number(text)`
abbrev pub time_text : Option ℕ → Text
time_text none = codes "NaN"
time_text (some t) = decimal t

abbrev pub failure_event : AuditEvent → Bool
failure_event e = equal e.event (codes "login.failure")

abbrev pub reuse_event : AuditEvent → Bool
reuse_event e = equal e.event (codes "token.reuse_detected")

unfoldable pub any : (AuditEvent → Bool) → List AuditEvent → Bool
any f [] = false
any f (e ∷ es) = f e || any f es

abbrev failures_part : ℕ → Text
failures_part failures =
    decimal failures
    ++ (codes " failed sign-in attempt" ++ (if failures == 1 then [] else codes "s"))

-- `parts.join(" and ")`
abbrev parts : Bool → Bool → ℕ → Text
parts false false failures = []
parts false true failures = codes "session token reuse"
parts true false failures = failures_part failures
parts true true failures = failures_part failures ++ codes " and session token reuse"

unfoldable pub build_login_alert : ℕ → Bool → Text
build_login_alert failures reuse =
    codes "Since your last visit: "
    ++ (parts (ltb 0 failures) reuse failures
        ++ codes ". If that wasn't you, review your activity.")

unfoldable pub last_seen_key : Platform → (Bytes → Bytes) → Text → Text
unfolding normalize_identifier hex
last_seen_key p sha256 identifier =
    codes "passwd:lastSeenActivity:" ++ hex (sha256 (p.utf8 (normalize_identifier p identifier)))

module _ (time_of : Clock) where
  -- The events that are told of.
  unfoldable pub since : Option ℕ → List AuditEvent → List AuditEvent
  unfolding filter
  since last_seen events =
      filter (λ e. is_later (time_of e.created_at) last_seen && (failure_event e || reuse_event e))
        events

  -- The notice, if there is one, for the events since a time.
  unfoldable pub alert_for : List AuditEvent → Option Text
  unfolding filter any build_login_alert
  alert_for events =
      let failures = length (filter failure_event events) in
      let reuse = any reuse_event events in
      if ltb 0 failures || reuse then some (build_login_alert failures reuse) else none

  -- The newest event is the first.
  abbrev pub newest : ℕ → List AuditEvent → Option ℕ
  newest now [] = some now
  newest now (e ∷ es) = time_of e.created_at

  abbrev alert_since : Option Text → List AuditEvent → Option Text
  alert_since none events = none
  alert_since (some raw) events = alert_for (since (natural_of raw) events)

  -- On a device that has no entry for the account there is no notice.
  abbrev noticed : Bool → Option Text → Option Text → Option Text
  noticed true found alert = alert
  noticed false none alert = alert
  noticed false (some text) alert = some text

  -- The effect that runs as the vault is opened: what `getActivity` returned or threw, whether the
  -- effect was cancelled meanwhile and by the end, the clock, the account's key, the notice that is
  -- shown, and the entries.
  unfoldable pub check_activity :
      Result (List AuditEvent) → Bool → Bool → ℕ → Text → Option Text → Local → Option Text × Local
  unfolding since alert_for
  check_activity (throw e) first_cancelled cancelled now key alert store = (alert, store)
  check_activity (ok events) true cancelled now key alert store = (alert, store)
  check_activity (ok events) false cancelled now key alert store = (
    noticed cancelled (alert_since (store key) events) alert,
    set_item key (time_text (newest now events)) store,
  )
