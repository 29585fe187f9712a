-- ===== src/Web/Awareness/Since.antt =====
-- The notice of a visit after another.
use passwd.Base.{
  ℕ, zero, suc, ◌≡◌, refl, ap, ◌∙◌, arith, ltb, ◌==◌, length, codes, Bool, true, false, ◌||◌,
  Option, none, some, List, [], ◌∷◌, ◌++◌, if◌then◌else◌, Text, All, Bool-cases, inl, inr,
}
use passwd.Base.Decimal.{decimal, digits_onto, natural_of-decimal}
use passwd.Base.Equality.{equal, equal_refl}
use passwd.Base.Outcome.{ok}
use passwd.Base.Sorting.{filter}
use passwd.Web.Awareness.{
  AuditEvent, Local, Clock, is_later, failure_event, reuse_event, any, build_login_alert, since,
  alert_for, noticed, check_activity,
}

-- How many events have a name.
unfoldable pub count_of : Text → List AuditEvent → ℕ
unfolding equal
count_of name [] = 0
count_of name (e ∷ es) =
    let rest = count_of name es in if equal e.event name then suc rest else rest

-- The notice for a number of failed sign-ins and of reuses of a token.
abbrev pub notice : ℕ → ℕ → Option Text
notice zero zero = none
notice zero (suc reuses) = some (
    codes "Since your last visit: session token reuse"
    ++ codes ". If that wasn't you, review your activity.")
notice (suc zero) zero = some (
    codes "Since your last visit: 1 failed sign-in attempt"
    ++ codes ". If that wasn't you, review your activity.")
notice (suc zero) (suc reuses) = some (
    codes "Since your last visit: 1 failed sign-in attempt and session token reuse"
    ++ codes ". If that wasn't you, review your activity.")
notice (suc (suc n)) zero = some (
    codes "Since your last visit: "
    ++ ((decimal (suc (suc n)) ++ codes " failed sign-in attempts")
        ++ codes ". If that wasn't you, review your activity."))
notice (suc (suc n)) (suc reuses) = some (
    codes "Since your last visit: "
    ++ (((decimal (suc (suc n)) ++ codes " failed sign-in attempts")
          ++ codes " and session token reuse")
        ++ codes ". If that wasn't you, review your activity."))

length-failures :
    (es : List AuditEvent) → length (filter failure_event es) ≡ count_of (codes "login.failure") es
unfolding filter count_of
length-failures [] = refl
length-failures (e ∷ es) = elim (Bool-cases (failure_event e)) [
  | inl fails ↦ rw fails (ap suc (length-failures es))
  | inr other ↦ rw other (length-failures es)
]

any-reuses :
    (es : List AuditEvent) → any reuse_event es ≡ ltb 0 (count_of (codes "token.reuse_detected") es)
unfolding any count_of
any-reuses [] = refl
any-reuses (e ∷ es) = elim (Bool-cases (reuse_event e)) [
  | inl reuses ↦ rw reuses (ground arith)
  | inr other ↦ rw other (any-reuses es)
]

abbrev told : AuditEvent → Bool
told e = failure_event e || reuse_event e

module _ (time_of : Clock) where
  -- The event is later than a time, or is not.
  abbrev pub IsAfter : ℕ → AuditEvent → Type 0
  IsAfter t e = is_later (time_of e.created_at) (some t) ≡ true

  abbrev pub IsSeen : ℕ → AuditEvent → Type 0
  IsSeen t e = is_later (time_of e.created_at) (some t) ≡ false

  since-seen : (t : ℕ) (es : List AuditEvent) → All (IsSeen t) es → since time_of (some t) es ≡ []
  unfolding since filter
  since-seen t [] h = refl
  since-seen t (e ∷ es) (h, hs) = rw h (since-seen t es hs)

  since-append :
      (t : ℕ) (fresh seen : List AuditEvent)
      → All (IsAfter t) fresh
      → All (IsSeen t) seen
      → since time_of (some t) (fresh ++ seen) ≡ filter told fresh
  unfolding since filter
  since-append t [] seen h hs = since-seen t seen hs
  since-append t (e ∷ fresh) seen (h, hf) hs =
      rw h (ap (λ r. if told e then e ∷ r else r) (since-append t fresh seen hf hs))

  filter-told :
      (es : List AuditEvent) → filter failure_event (filter told es) ≡ filter failure_event es
  unfolding filter
  filter-told [] = refl
  filter-told (e ∷ es) = elim (Bool-cases (failure_event e)) [
    | inl fails ↦ rw fails (rw fails (ap (◌∷◌ e) (filter-told es)))
    | inr other ↦ elim (Bool-cases (reuse_event e)) [
      | inl reuses ↦ rw (other, reuses) (rw other (filter-told es))
      | inr quiet ↦ rw (other, quiet) (filter-told es)
    ]
  ]

  any-told : (es : List AuditEvent) → any reuse_event (filter told es) ≡ any reuse_event es
  unfolding filter any
  any-told [] = refl
  any-told (e ∷ es) = elim (Bool-cases (reuse_event e)) [
    | inl reuses ↦ elim (Bool-cases (failure_event e)) [
      | inl fails ↦ rw (fails, reuses) refl
      | inr other ↦ rw (other, reuses) (rw reuses refl)
    ]
    | inr quiet ↦ elim (Bool-cases (failure_event e)) [
      | inl fails ↦ rw (fails, quiet) (any-told es)
      | inr other ↦ rw (other, quiet) (any-told es)
    ]
  ]

  alert_for-told :
      (es : List AuditEvent) → alert_for time_of (filter told es) ≡ alert_for time_of es
  unfolding alert_for
  alert_for-told es = rw (filter-told es, any-told es) refl

  positive : (n : ℕ) → ltb 0 (suc n) ≡ true
  positive n = ground arith

  plural : (n : ℕ) → (suc (suc n) == 1) ≡ false
  plural n = ground arith

  alert_of : ℕ → ℕ → Option Text
  alert_of failures reuses =
      if ltb 0 failures || ltb 0 reuses
      then some (build_login_alert failures (ltb 0 reuses))
      else none

  alert_of-notice : (failures reuses : ℕ) → alert_of failures reuses ≡ notice failures reuses
  unfolding alert_of build_login_alert decimal digits_onto
  alert_of-notice zero zero = refl
  alert_of-notice zero (suc reuses) = rw (positive reuses) refl
  alert_of-notice (suc zero) zero = refl
  alert_of-notice (suc zero) (suc reuses) = rw (positive reuses) refl
  alert_of-notice (suc (suc n)) zero = rw (positive (suc n), plural n) refl
  alert_of-notice (suc (suc n)) (suc reuses) = rw (positive (suc n), positive reuses, plural n) refl

  alert_for-notice :
      (es : List AuditEvent)
      → alert_for time_of es
        ≡ notice (count_of (codes "login.failure") es) (count_of (codes "token.reuse_detected") es)
  unfolding alert_for alert_of
  alert_for-notice es =
      rw (length-failures es, any-reuses es)
        (alert_of-notice (count_of (codes "login.failure") es)
          (count_of (codes "token.reuse_detected") es))

  noticed-none : (alert : Option Text) → noticed time_of false alert none ≡ alert
  noticed-none none = refl
  noticed-none (some text) = refl

  -- After a visit that saw events of which the first is the newest, the next visit on the same
  -- device, whose log has later events in front of these, gives the notice of those later events and no
  -- other: it says how many of them are failed sign-ins and whether a token was reused, and there is
  -- none if neither happened. Both visits run to their end.
  pub check_activity-fresh :
      (fresh seen : List AuditEvent) (e : AuditEvent) (t now now' : ℕ) (key : Text) (store : Local)
      → time_of e.created_at ≡ some t
      → All (IsSeen t) (e ∷ seen)
      → All (IsAfter t) fresh
      → (check_activity time_of
          (ok (fresh ++ (e ∷ seen)))
          false
          false
          now'
          key
          none
          (check_activity time_of (ok (e ∷ seen)) false false now key none store).1).0
        ≡ notice
            (count_of (codes "login.failure") fresh)
            (count_of (codes "token.reuse_detected") fresh)
  unfolding check_activity
  check_activity-fresh fresh seen e t now now' key store dated old new =
      rw
        (
          dated,
          equal_refl key,
          natural_of-decimal t,
          since-append t fresh (e ∷ seen) new old,
          alert_for-told fresh,
        )
        (noticed-none (alert_for time_of fresh) ∙ alert_for-notice fresh)
