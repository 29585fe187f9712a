-- ===== src/ApiClient/Http.antt =====
-- clients/packages/api-client/src/api.ts: a request to the backend and its answer. `fetch` and
-- `encodeURIComponent` are the parameter `Http`, over an abstract state of the network and the
-- server. The base URL, which the module keeps, is a field of it.
pub mod Requests
pub mod Security
pub mod Typed
pub mod Answers
pub mod Refusals
pub mod Refinement
pub mod SecondFactor
use passwd.Base.{
  ℕ, Bool, true, false, ◌&&◌, Option, none, some, List, [], ◌∷◌, ◌++◌, leb, ◌==◌, if◌then◌else◌,
  Text, codes,
}
use passwd.Base.Decimal.{decimal}
use passwd.Base.Equality.{equal}
use passwd.Base.Json.{
  Json, null, object, string, Members, end_members, member, get, truthy, to_text,
}
use passwd.Base.Outcome.{Result, Thrown, ok, throw, error}
use passwd.Crypto.Platform.{Platform}

pub record HttpRequest : Type 0 where
  pub method : Text
  pub url : Text
  pub headers : List (Text × Text)
  pub body : Option Text

-- The status and the text of an answer.
pub record HttpResponse : Type 0 where
  pub status : ℕ
  pub body : Text

pub record Http : Type 1 where
  pub Net : Type 0
  pub base_url : Text
  pub fetch : HttpRequest → Net → Result HttpResponse × Net
  pub encode_component : Text → Text

-- `replace(/\/$/, "")`
unfoldable pub configure_api : Text → Text
unfolding equal
configure_api [] = []
configure_api (c ∷ s) =
    let rest = configure_api s in if equal (c ∷ s) (codes "/") then [] else c ∷ rest

-- `res.ok`
abbrev pub is_success : ℕ → Bool
is_success status = leb 200 status && leb status 299

abbrev pub blank_token : Option Text → Bool
blank_token none = true
blank_token (some []) = true
blank_token (some (c ∷ t)) = false

abbrev content_type : Option Json → List (Text × Text)
content_type none = []
content_type (some v) = (codes "content-type", codes "application/json") ∷ []

-- A blank token is not sent.
abbrev authorization : Option Text → List (Text × Text)
authorization none = []
authorization (some []) = []
authorization (some (c ∷ t)) = (codes "authorization", codes "Bearer " ++ (c ∷ t)) ∷ []

abbrev pub type_error : {A : Type 0} → Result A
type_error = throw (error (codes "TypeError"))

abbrev pub syntax_error : {A : Type 0} → Result A
syntax_error = throw (error (codes "SyntaxError"))

-- `what failed (status)`
abbrev pub failure : Text → ℕ → Text
failure what status = what ++ (codes " failed (" ++ (decimal status ++ codes ")"))

or_failure : Text → ℕ → Option Json → Text
unfolding to_text
or_failure what status none = failure what status
or_failure what status (some v) = to_text v

-- `json.error || ...`, the message of the error that is thrown. A null value has no members to read.
unfoldable pub refusal : {A : Type 0} → Text → ℕ → Json → Result A
unfolding or_failure truthy get
refusal what status null = type_error
refusal what status v =
    if truthy (get (codes "error") v)
    then throw (error (or_failure what status (get (codes "error") v)))
    else throw (error (failure what status))

module _ (p : Platform) where
  abbrev written : Option Json → Option Text
  written none = none
  written (some v) = some (p.stringify v)

  abbrev or_syntax_error : Option Json → Result Json
  or_syntax_error none = syntax_error
  or_syntax_error (some v) = ok v

  -- `text ? JSON.parse(text) : {}`
  unfoldable pub read_text : Text → Result Json
  read_text [] = ok (object end_members)
  read_text (c ∷ s) = or_syntax_error (p.parse_json (c ∷ s))

  checked : ℕ → Result Json → Result Json
  unfolding refusal
  checked status (throw e) = throw e
  checked status (ok v) = if is_success status then ok v else refusal (codes "request") status v

  -- What `call` does with an answer.
  unfoldable pub read_answer : Result HttpResponse → Result Json
  unfolding checked read_text
  read_answer (throw e) = throw e
  read_answer (ok r) = checked r.status (read_text r.body)

  module _ (http : Http) where
    open http use {Net}

    abbrev pub request : Text → Text → Option Json → Option Text → HttpRequest
    request method path body token = record {
      method = method;
      url = http.base_url ++ path;
      headers = content_type body ++ authorization token;
      body = written body;
    }

    unfoldable pub call : Text → Text → Option Json → Option Text → Net → Result Json × Net
    unfolding read_answer
    call method path body token net =
        let (response, net') = http.fetch (request method path body token) net in
        (read_answer response, net')
