-- ===== src/ApiClient/Http/Answers.antt =====
-- Answers of a server to a request: the value with a status of success, or an object with the error's
-- message and another status; and how the client reads them.
use passwd.Base.{
  ℕ, ◌≡◌, ◌≤◌, ◌<◌, refl, true, false, none, some, List, [], ◌∷◌, Text, codes, le→leb, arith,
}
use passwd.Base.Equality.{equal}
use passwd.Base.Json.{
  Json, array, string, Items, end_items, item, get, find_member, truthy, to_text,
}
use passwd.Base.Outcome.{Result, Thrown, ok, throw, error, two_factor, ◌>>=◌}
use passwd.Crypto.Platform.{Platform}
use passwd.ApiClient.Sync.{Cipher}
use passwd.ApiClient.Http.{HttpResponse, is_success, failure, read_text, read_answer, refusal}
use passwd.ApiClient.Http.Requests.{one_member}
use passwd.ApiClient.Http.Typed.{
  as_string, text_member, read_each, read_array, read_cipher, read_ciphers,
}

abbrev pub sent_message : Thrown → Text
sent_message (error m) = m
sent_message (two_factor ms) = []

-- The message that the client shows: a blank one is replaced.
abbrev pub shown : ℕ → Text → Text
shown status [] = failure (codes "request") status
shown status (c ∷ m) = c ∷ m

-- A result as it is after its error has been sent as a message, with the error's status.
abbrev pub plain : {A : Type 0} → (Thrown → ℕ) → Result A → Result A
plain refused (ok a) = ok a
plain refused (throw e) = throw (error (shown (refused e) (sent_message e)))

-- A status of success, between 200 and 299, and any other.
abbrev pub Succeeds : ℕ → Type 0
Succeeds status = (200 ≤ status) × (status ≤ 299)

abbrev pub Fails : ℕ → Type 0
Fails status = 299 < status

pub is_success-Succeeds : (status : ℕ) → Succeeds status → is_success status ≡ true
is_success-Succeeds status (low, high) = rw (le→leb _ _ low, le→leb _ _ high) refl

pub is_success-Fails : (status : ℕ) → Fails status → is_success status ≡ false
is_success-Fails status h = ground arith

-- A value with the members of an item, in any order and with any others.
pub record IsCipher (c : Cipher) (v : Json) : Type 0 where
  pub id : get (codes "id") v ≡ some (string c.id)
  pub payload : get (codes "data") v ≡ some (string c.payload)
  pub created : get (codes "createdAt") v ≡ some (string c.created_at)
  pub updated : get (codes "updatedAt") v ≡ some (string c.updated_at)

abbrev pub AreCiphers : List Cipher → Items → Type 0
AreCiphers [] end_items = Unit
AreCiphers [] (item v vs) = ⊥
AreCiphers (c ∷ cs) end_items = ⊥
AreCiphers (c ∷ cs) (item v vs) = IsCipher c v × AreCiphers cs vs

-- A value whose `ciphers` are the items, in order.
abbrev pub ListsCiphers : List Cipher → Json → Type 0
ListsCiphers cs v = (vs : Items) × (get (codes "ciphers") v ≡ some (array vs)) × AreCiphers cs vs

pub read_cipher-IsCipher : (c : Cipher) (v : Json) → IsCipher c v → read_cipher v ≡ ok c
unfolding read_cipher text_member as_string
read_cipher-IsCipher c v h = rw (h.id, h.payload, h.created, h.updated) refl

read_each-AreCiphers :
    (cs : List Cipher) (vs : Items) → AreCiphers cs vs → read_each read_cipher vs ≡ ok cs
unfolding read_each
read_each-AreCiphers [] end_items h = refl
read_each-AreCiphers [] (item v vs) h = absurd h
read_each-AreCiphers (c ∷ cs) end_items h = absurd h
read_each-AreCiphers (c ∷ cs) (item v vs) (is, are) =
    rw (read_cipher-IsCipher c v is, read_each-AreCiphers cs vs are) refl

pub read_ciphers-ListsCiphers :
    (cs : List Cipher) (v : Json) → ListsCiphers cs v → read_ciphers v ≡ ok cs
unfolding read_ciphers read_array
read_ciphers-ListsCiphers cs v (vs, lists, are) = rw (lists, read_each-AreCiphers cs vs are) refl

module _ (p : Platform) (blank_fails : p.parse_json [] ≡ none) where
  -- The text is that of a value with a property.
  abbrev pub Spells : (Json → Type 0) → Text → Type 0
  Spells Is s = (v : Json) × (p.parse_json s ≡ some v) × Is v

  -- An answer that carries a result: a value by a text, with any status of success, and an error by its
  -- message, with the error's status.
  abbrev pub Carries :
      {A : Type 0} → (Thrown → ℕ) → (A → Text → Type 0) → Result A → HttpResponse → Type 0
  Carries refused Writes (ok a) r = Succeeds r.status × Writes a r.body
  Carries refused Writes (throw e) r =
      (r.status ≡ refused e)
      × (p.parse_json r.body ≡ some (one_member (codes "error") (sent_message e)))

  -- A text that is a value's is read as that value.
  pub read_text-parsed : (s : Text) (v : Json) → p.parse_json s ≡ some v → read_text p s ≡ ok v
  unfolding read_text
  read_text-parsed [] v e = cc
  read_text-parsed (c ∷ s) v e = rw e refl

  refusal-shown :
      {A : Type 0} (status : ℕ) (m : Text)
      → refusal {A = A} (codes "request") status (one_member (codes "error") m)
        ≡ throw (error (shown status m))
  unfolding refusal truthy get find_member equal to_text
  refusal-shown status [] = refl
  refusal-shown status (c ∷ m) = refl

  -- The client reads what the answer carries, an error by its message.
  pub read_answer-Carries :
      {A : Type 0} (refused : Thrown → ℕ) (Writes : A → Text → Type 0) (read : Json → Result A)
      (result : Result A) (r : HttpResponse)
      → ((e : Thrown) → Fails (refused e))
      → ((a : A) (s : Text) → Writes a s → (v : Json) × (read_text p s ≡ ok v) × (read v ≡ ok a))
      → Carries refused Writes result r
      → read_answer p (ok r) >>= read ≡ plain refused result
  unfolding read_answer
  read_answer-Carries refused Writes read (ok a) r fails reads (succeeds, writes) =
      let (v, e, f) = reads a r.body writes in rw (e, is_success-Succeeds r.status succeeds, f) refl
  read_answer-Carries refused Writes read (throw e) r fails reads (status, text) =
      rw
        (
          read_text-parsed r.body (one_member (codes "error") (sent_message e)) text,
          status,
          is_success-Fails (refused e) (fails e),
          refusal-shown (refused e) (sent_message e),
        )
        refl
