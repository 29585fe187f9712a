-- ===== src/ApiClient/Http/Refusals.antt =====
-- Calls that return a value.
use passwd.Base.{ℕ, ◌≢◌, ◌≡◌, refl, true, inl, inr, Option, Text, codes, Bool-cases, arith}
use passwd.Base.Json.{Json, null, get, truthy}
use passwd.Base.Outcome.{Result, ok, throw}
use passwd.Crypto.Platform.{Platform}
use passwd.ApiClient.Http.{
  Http, HttpResponse, is_success, request, refusal, read_text, checked, read_answer, call,
}

refusal-throws :
    {A : Type 0} (what : Text) (status : ℕ) (v : Json) (a : A) → refusal what status v ≢ ok a
unfolding refusal
refusal-throws what status null a h = cc
refusal-throws what status v a h = elim (Bool-cases (truthy (get (codes "error") v))) [
  | inl some_error ↦ ground (arith, h)
  | inr no_error ↦ ground (arith, h)
]

module _ (p : Platform) where
  checked-returned :
      (status : ℕ) (read : Result Json) (v : Json)
      → checked p status read ≡ ok v
      → (is_success status ≡ true) × (read ≡ ok v)
  unfolding checked
  checked-returned status (throw e) v h = cc
  checked-returned status (ok u) v h = elim (Bool-cases (is_success status)) [
    | inl succeeds ↦ (succeeds, ground (arith, h))
    | inr fails ↦ absurd (refusal-throws (codes "request") status u v (ground (arith, h)))
  ]

  read_answer-returned :
      (response : Result HttpResponse) (v : Json)
      → read_answer p response ≡ ok v
      → (r : HttpResponse) × (response ≡ ok r)
        × (is_success r.status ≡ true)
        × (read_text p r.body ≡ ok v)
  unfolding read_answer checked
  read_answer-returned (throw e) v h = cc
  read_answer-returned (ok r) v h =
      let (succeeds, reads) = checked-returned r.status (read_text p r.body) v h in
      (r, refl, succeeds, reads)

  -- A call that returns a value had an answer with a status of success, whose text is that value, or
  -- is blank where the value is an empty object. No other answer, and no failure of the network,
  -- gives a value.
  pub call-returned :
      (http : Http) (method path : Text) (body : Option Json) (token : Option Text) (net : http.Net)
      (v : Json)
      → (call p http method path body token net).0 ≡ ok v
      → (r : HttpResponse) × ((http.fetch (request p http method path body token) net).0 ≡ ok r)
        × (is_success r.status ≡ true)
        × (read_text p r.body ≡ ok v)
  unfolding call
  call-returned http method path body token net v h =
      read_answer-returned (http.fetch (request p http method path body token) net).0 v h
