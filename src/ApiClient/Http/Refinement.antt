-- ===== src/ApiClient/Http/Refinement.antt =====
-- The vault's endpoints over HTTP and the abstract ones of `Api`.
use passwd.Base.{ℕ, ◌≡◌, refl, Option, none, some, [], ◌++◌, ◌⊎◌, inl, inr, Text, codes}
use passwd.Base.Json.{Json, object, end_members}
use passwd.Base.Outcome.{Result, Thrown, ok}
use passwd.Crypto.Platform.{Platform}
use passwd.ApiClient.Sync.{Api}
use passwd.ApiClient.Http.{Http, HttpRequest, HttpResponse, request, call, read_text}
use passwd.ApiClient.Http.Requests
use passwd.ApiClient.Http.Requests.{one_member}
use passwd.ApiClient.Http.Typed.{http_api, read_cipher, read_ciphers, typed, ignored}
use passwd.ApiClient.Http.Answers.{
  plain, Fails, IsCipher, ListsCiphers, Spells, Carries, read_text-parsed, read_answer-Carries,
  read_cipher-IsCipher, read_ciphers-ListsCiphers,
}

-- The endpoints, with the errors as they are after they have been sent as a message.
abbrev pub plain_api : (Thrown → ℕ) → Api → Api
plain_api refused api = record {
  Net = api.Net;
  sync = λ token net. (plain refused (api.sync token net).0, (api.sync token net).1);
  create_cipher = λ token t net.
      (plain refused (api.create_cipher token t net).0, (api.create_cipher token t net).1);
  update_cipher = λ token id t net.
      (plain refused (api.update_cipher token id t net).0, (api.update_cipher token id t net).1);
  delete_cipher = λ token id net.
      (plain refused (api.delete_cipher token id net).0, (api.delete_cipher token id net).1);
}

module _ (p : Platform) (blank_fails : p.parse_json [] ≡ none) (api : Api) (base : Text)
    (fetch : HttpRequest → api.Net → Result HttpResponse × api.Net) (encode : Text → Text) where
  -- The browser and the network between the client and the server.
  abbrev pub over : Http
  over = record { Net = api.Net; base_url = base; fetch = fetch; encode_component = encode }

  -- What the client does not look at: nothing, or some value.
  abbrev pub Anything : Unit {0} → Text → Type 0
  Anything u s = (s ≡ []) ⊎ Spells p blank_fails (λ v. Unit) s

  -- The server answers a request with what an operation returns.
  abbrev pub Answers :
      {A : Type 0}
      → (Thrown → ℕ)
      → HttpRequest
      → (A → Text → Type 0)
      → (api.Net → Result A × api.Net)
      → Type 0
  Answers refused r Writes op =
      (net : api.Net)
      → (answer : HttpResponse) × (fetch r net ≡ (ok answer, (op net).1))
        × Carries p blank_fails refused Writes (op net).0 answer

  -- The server answers the four requests with what the endpoints return, and refuses each error with
  -- a status that is above those of success.
  pub record Serves (refused : Thrown → ℕ) : Type 0 where
    pub refuses : (e : Thrown) → Fails (refused e)
    pub syncs :
        (token : Text)
        → Answers refused
            (request p over (codes "GET") (codes "/api/sync") none (some token))
            (λ cs. Spells p blank_fails (ListsCiphers cs))
            (api.sync token)
    pub creates :
        (token t : Text)
        → Answers refused
            (request p over
              (codes "POST")
              (codes "/api/ciphers")
              (some (one_member (codes "data") t))
              (some token))
            (λ c. Spells p blank_fails (IsCipher c))
            (api.create_cipher token t)
    pub updates :
        (token id t : Text)
        → Answers refused
            (request p over
              (codes "PUT")
              (codes "/api/ciphers/" ++ id)
              (some (one_member (codes "data") t))
              (some token))
            Anything
            (api.update_cipher token id t)
    pub deletes :
        (token id : Text)
        → Answers refused
            (request p over (codes "DELETE") (codes "/api/ciphers/" ++ id) none (some token))
            Anything
            (api.delete_cipher token id)

  -- A call that the server answers, read, is the operation.
  typed-call :
      {A : Type 0} (refused : Thrown → ℕ) (method path : Text) (body : Option Json)
      (token : Option Text) (Writes : A → Text → Type 0) (read : Json → Result A)
      (op : api.Net → Result A × api.Net) (net : api.Net)
      → ((e : Thrown) → Fails (refused e))
      → ((a : A) (s : Text) → Writes a s → (v : Json) × (read_text p s ≡ ok v) × (read v ≡ ok a))
      → Answers refused (request p over method path body token) Writes op
      → typed read (call p over method path body token net) ≡ (plain refused (op net).0, (op net).1)
  unfolding call
  typed-call refused method path body token Writes read op net fails reads answers =
      let (answer, sends, carries) = answers net in
      rw
        (
          sends,
          read_answer-Carries p blank_fails refused Writes read (op net).0 answer fails reads
              carries,
        )
        refl

  read_text-Spells :
      {A : Type 0} (Is : A → Json → Type 0) (read : Json → Result A)
      → ((a : A) (v : Json) → Is a v → read v ≡ ok a)
      → (a : A) (s : Text) → Spells p blank_fails (Is a) s
      → (v : Json) × (read_text p s ≡ ok v) × (read v ≡ ok a)
  read_text-Spells Is read reads a s (v, spells, is) =
      (v, read_text-parsed p blank_fails s v spells, reads a v is)

  read_text-Anything :
      (u : Unit {0}) (s : Text)
      → Anything u s
      → (v : Json) × (read_text p s ≡ ok v) × (ignored v ≡ ok u)
  unfolding read_text
  read_text-Anything u s (inl blank) = (object end_members, rw blank refl, refl)
  read_text-Anything u s (inr (v, spells, is)) =
      (v, read_text-parsed p blank_fails s v spells, refl)

  -- On a server that answers the four requests with what the abstract endpoints return, with any
  -- status of success and an item's members in any order, or refuses with the error's message and a
  -- status above those of success, the vault's endpoints over HTTP are those endpoints: the same
  -- values, the same states of the server, and the same errors up to a blank message, which is
  -- replaced by the status. The empty text is no JSON.
  pub http_api-plain_api :
      (refused : Thrown → ℕ) → Serves refused → http_api p over ≡ plain_api refused api
  unfolding Requests.sync Requests.create_cipher Requests.update_cipher Requests.delete_cipher
  http_api-plain_api refused h = λ i. record {
    Net = api.Net;
    sync = λ token net.
        typed-call refused _ _ none (some token) _ read_ciphers (api.sync token) net h.refuses
          (read_text-Spells ListsCiphers read_ciphers read_ciphers-ListsCiphers) (h.syncs token) i;
    create_cipher = λ token t net.
        typed-call refused _ _ (some (one_member (codes "data") t)) (some token) _ read_cipher
          (api.create_cipher token t) net h.refuses
          (read_text-Spells IsCipher read_cipher read_cipher-IsCipher) (h.creates token t) i;
    update_cipher = λ token id t net.
        typed-call refused _ _ (some (one_member (codes "data") t)) (some token) _ ignored
          (api.update_cipher token id t) net h.refuses read_text-Anything (h.updates token id t) i;
    delete_cipher = λ token id net.
        typed-call refused _ _ none (some token) _ ignored (api.delete_cipher token id) net
          h.refuses read_text-Anything (h.deletes token id) i;
  }
