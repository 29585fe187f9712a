-- ===== src/ApiClient/Http/SecondFactor.antt =====
-- A login that the server refuses, over HTTP.
use passwd.Base.{
  ℕ, ◌≡◌, ◌==◌, refl, true, Option, none, some, List, [], ◌∷◌, Text, Bytes, codes, Bool-cases, inl,
  inr,
}
use passwd.Base.Act.{Entropy}
use passwd.Base.Json.{
  Json, boolean, object, string, array, Items, end_items, item, Members, get, find_member, truthy,
  to_text,
}
use passwd.Base.Outcome.{Thrown, ok, throw, error, two_factor, ◌>>=◌}
use passwd.Crypto.Platform.{Platform}
use passwd.Crypto.Primitives.{KdfParams}
use passwd.Crypto.Envelope.{kdf_json}
use passwd.Crypto.Envelope.Kdf.{read_kdf-kdf_json}
use passwd.Crypto.Account.Keys.{derive_master_key, derive_master_password_hash}
use passwd.ApiClient.Accounts.{second_factor, login_account, signed}
use passwd.ApiClient.Http.{Http, HttpRequest, HttpResponse, request, call, read_answer, refusal}
use passwd.ApiClient.Http.Answers.{
  Succeeds, Fails, Spells, is_success-Succeeds, is_success-Fails, read_text-parsed,
}
use passwd.ApiClient.Http.Requests
use passwd.ApiClient.Http.Requests.{
  LoginReply, one_member, read_login, read_login_answer, login_request, methods_wanted,
}
use passwd.ApiClient.Http.Typed.{http_endpoints, read_reply, read_array, read_each, as_text}

-- What a server refuses a login for: it wants a second factor, of which it lists the methods, or
-- anything else, with a status and a message, whose first character stands by itself.
pub data Refusal : Type 0 where
  wants : List Text → Refusal
  refuses : ℕ → ℕ → Text → Refusal

-- What the client throws then.
abbrev pub thrown : Refusal → Thrown
thrown (wants methods) = two_factor methods
thrown (refuses status c message) = error (c ∷ message)

abbrev pub AreTexts : List Text → Items → Type 0
AreTexts [] end_items = Unit
AreTexts [] (item v vs) = ⊥
AreTexts (t ∷ ts) end_items = ⊥
AreTexts (t ∷ ts) (item v vs) = (v ≡ string t) × AreTexts ts vs

-- The answer to a login that is refused. Where a second factor is wanted the object may hold any other
-- member, an error's message too.
abbrev pub IsRefusal : Refusal → ℕ → Members → Type 0
IsRefusal (wants methods) status ms =
    (status ≡ 401)
    × (find_member (codes "twoFactorRequired") ms ≡ some (boolean true))
    × ((vs : Items) × (find_member (codes "methods") ms ≡ some (array vs)) × AreTexts methods vs)
IsRefusal (refuses code c message) status ms =
    (status ≡ code)
    × Fails code
    × (find_member (codes "twoFactorRequired") ms ≡ none)
    × (find_member (codes "error") ms ≡ some (string (c ∷ message)))

read_each-AreTexts : (ts : List Text) (vs : Items) → AreTexts ts vs → read_each as_text vs ≡ ok ts
unfolding read_each as_text
read_each-AreTexts [] end_items h = refl
read_each-AreTexts [] (item v vs) h = absurd h
read_each-AreTexts (t ∷ ts) end_items h = absurd h
read_each-AreTexts (t ∷ ts) (item v vs) (is, are) = rw (is, read_each-AreTexts ts vs are) refl

-- The members of an answer to a question for the key derivation.
abbrev pub HoldsKdf : KdfParams → Json → Type 0
HoldsKdf kdf v = get (codes "kdf") v ≡ some (kdf_json kdf)

abbrev pub prelogin_request : Platform → Http → Text → HttpRequest
prelogin_request p http identifier =
    request p http (codes "POST") (codes "/api/accounts/prelogin")
      (some (one_member (codes "identifier") identifier)) none

module _ (p : Platform) (blank_fails : p.parse_json [] ≡ none) where
  -- The answer's text is that of an object with these members.
  abbrev pub SpellsMembers : (Members → Type 0) → Text → Type 0
  SpellsMembers Is s = (ms : Members) × (p.parse_json s ≡ some (object ms)) × Is ms

  read_reply-IsRefusal :
      (a : Refusal) (r : HttpResponse)
      → SpellsMembers (IsRefusal a r.status) r.body
      → (read_login_answer p (ok r) >>= read_reply) ≡ elim a [
        | wants methods ↦ ok (second_factor methods)
        | refuses status c message ↦ throw (error (c ∷ message))
      ]
  unfolding read_login_answer read_login read_reply read_array truthy get refusal to_text
  read_reply-IsRefusal (wants methods) r (ms, parses, (status, wanted, (vs, lists, are))) =
      rw (parses, status, wanted, lists, read_each-AreTexts methods vs are) refl
  read_reply-IsRefusal (refuses code c message) r (ms, parses, (status, fails, unwanted, says)) =
      rw (parses, status, is_success-Fails code fails, unwanted, says)
        (elim (Bool-cases (code == 401)) [ inl same ↦ rw same refl | inr other ↦ rw other refl ])

  reads_kdf :
      (kdf : KdfParams) (r : HttpResponse) (v : Json)
      → Succeeds r.status
      → p.parse_json r.body ≡ some v
      → read_answer p (ok r) ≡ ok v
  unfolding read_answer
  reads_kdf kdf r v succeeds parses =
      rw (read_text-parsed p blank_fails r.body v parses, is_success-Succeeds r.status succeeds)
        refl

  -- Signing in to an account, where the server refuses the login, throws the request for the second
  -- factor with the methods that the server lists, if it wants one, whether its answer holds an
  -- error's message as well or not; and otherwise an error with the server's message. The server has
  -- given the account's key derivation before, the two hashes are derived, and the empty text is no
  -- JSON. The server is asked these two times only, and no random byte is drawn.
  pub login_account-refused :
      (http : Http) (identifier password : Text) (totp_code : Option Text) (kdf : KdfParams)
      (master_key : Bytes) (hash : Text) (a : Refusal) (asked answer : HttpResponse)
      (net net' net'' : http.Net) (w : Entropy)
      → http.fetch (prelogin_request p http identifier) net ≡ (ok asked, net')
      → Succeeds asked.status
      → Spells p blank_fails (HoldsKdf kdf) asked.body
      → derive_master_key p password identifier kdf ≡ ok master_key
      → derive_master_password_hash p master_key password ≡ ok hash
      → http.fetch (login_request p http identifier hash totp_code) net' ≡ (ok answer, net'')
      → SpellsMembers (IsRefusal a answer.status) answer.body
      → login_account p (http_endpoints p http) identifier password totp_code net w
        ≡ (throw (thrown a), net'', w)
  unfolding login_account signed Requests.prelogin call Requests.login
  login_account-refused http identifier password totp_code kdf master_key hash (wants methods) asked
        answer net net' net'' w asks succeeds (v, parses, holds) derives hashes answers is =
      rw
        (
          asks,
          reads_kdf kdf asked v succeeds parses,
          holds,
          read_kdf-kdf_json kdf,
          derives,
          hashes,
          answers,
          read_reply-IsRefusal (wants methods) answer is,
        )
        refl
  login_account-refused http identifier password totp_code kdf master_key hash
        (refuses code c message) asked answer net net' net'' w asks succeeds (v, parses, holds)
        derives hashes answers is =
      rw
        (
          asks,
          reads_kdf kdf asked v succeeds parses,
          holds,
          read_kdf-kdf_json kdf,
          derives,
          hashes,
          answers,
          read_reply-IsRefusal (refuses code c message) answer is,
        )
        refl
