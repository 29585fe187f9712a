-- ===== src/Tests/Backend.antt =====
-- Requests on backends that are written out: one keeps a list of ciphers, one asks for a second
-- factor.
use passwd.Base.{
  ℕ, ◌+◌, ◌≡◌, refl, Bool, true, false, not, ◌||◌, Option, none, some, List, [], ◌∷◌, ◌++◌, map,
  drop, if◌then◌else◌, Text, codes, arith, Bool-cases, inl, inr,
}
use passwd.Base.Equality.{equal}
use passwd.Base.Sorting.{filter}
use passwd.Base.Outcome.{Result, Thrown, ok, throw, error, two_factor}
use passwd.Base.Act.{Entropy}
use passwd.Base.Json.{
  Json, boolean, string, array, object, Items, end_items, item, Members, member, end_members, get,
  find_member,
}
use passwd.Crypto.Platform.{Derived}
use passwd.Crypto.Primitives.{default_kdf, derive_key}
use passwd.Crypto.Envelope.{kdf_json}
use passwd.Crypto.Account.Keys.{derive_master_key}
use passwd.Crypto.Account.Flows.Unlocking.{derive_master_password_hash-Hashes}
use passwd.ApiClient.Accounts.{login_account}
use passwd.ApiClient.Sync.{Api, Cipher}
use passwd.ApiClient.Http.{Http, HttpRequest, HttpResponse, request, call, read_text, is_success}
use passwd.ApiClient.Http.Typed.{http_api, http_endpoints, text_member, as_string}
use passwd.ApiClient.Http.Answers.{
  sent_message, Succeeds, Fails, IsCipher, AreCiphers, ListsCiphers, Spells, Carries,
}
use passwd.ApiClient.Http.Requests.{one_member}
use passwd.ApiClient.Http.Refinement.{over, Anything, Serves, plain_api, http_api-plain_api}
use passwd.ApiClient.Http.Refusals.{call-returned}
use passwd.ApiClient.Http.SecondFactor.{wants, IsRefusal, HoldsKdf, login_account-refused}
use passwd.Tests.Toy.{toy, stretch-Derived}
use passwd.Tests.Codec.{write, read, read-write}

abbrev counting : Entropy
counting = record { at = λ i. i + 3 }

blank_fails : read [] ≡ none
unfolding read
blank_fails = refl

-- The `data` member of a request's body.
abbrev or_blank : Result Text → Text
or_blank (ok t) = t
or_blank (throw e) = []

unfoldable payload_of : Option Json → Text
unfolding text_member as_string get find_member equal
payload_of none = []
payload_of (some v) = or_blank (text_member (codes "data") v)

unfoldable sent : Option Text → Text
unfolding payload_of
sent none = []
sent (some t) = payload_of (read t)

-- A server that keeps a list of items.
abbrev cipher : Text → Text → Cipher
cipher id t = record { id = id; payload = t; created_at = codes "1"; updated_at = codes "2" }

abbrev not_found : {A : Type 0} → Result A
not_found = throw (error (codes "item not found"))

unfoldable has_id : Text → List Cipher → Bool
unfolding equal
has_id id [] = false
has_id id (c ∷ cs) = equal c.id id || has_id id cs

abbrev found : {A : Type 0} → Text → A → List Cipher → List Cipher → Result A × List Cipher
found id a after net = if has_id id net then (ok a, after) else (not_found, net)

abbrev keeping : Api
keeping = record {
  Net = List Cipher;
  sync = λ token net. (ok net, net);
  create_cipher = λ token t net. (ok (cipher (codes "c1") t), net ++ (cipher (codes "c1") t ∷ []));
  update_cipher =
      λ token id t net. found id tt (map (λ c. if equal c.id id then cipher id t else c) net) net;
  delete_cipher = λ token id net. found id tt (filter (λ c. not (equal c.id id)) net) net;
}

-- The statuses of its errors.
unfoldable refused : Thrown → ℕ
unfolding equal
refused (error m) = if equal m (codes "item not found") then 404 else 500
refused (two_factor methods) = 500

unfoldable answer_of : {A : Type 0} → ℕ → (A → Text) → Result A → HttpResponse
unfolding refused
answer_of status text_of (ok a) = record { status = status; body = text_of a }
answer_of status text_of (throw e) = record {
  status = refused e;
  body = write (one_member (codes "error") (sent_message e));
}

abbrev answered :
    {A : Type 0} → ℕ → (A → Text) → Result A × List Cipher → Result HttpResponse × List Cipher
answered status text_of (r, net) = (ok (answer_of status text_of r), net)

abbrev cipher_json : Cipher → Json
cipher_json c = object (
    member (codes "id") (string c.id) (
      member (codes "data") (string c.payload) (
        member (codes "createdAt") (string c.created_at)
          (member (codes "updatedAt") (string c.updated_at) end_members))))

unfoldable cipher_elements : List Cipher → Items
cipher_elements [] = end_items
cipher_elements (c ∷ cs) = item (cipher_json c) (cipher_elements cs)

abbrev ciphers_json : List Cipher → Json
ciphers_json cs = object (member (codes "ciphers") (array (cipher_elements cs)) end_members)

cipher_json-IsCipher : (c : Cipher) → IsCipher c (cipher_json c)
unfolding get find_member equal
cipher_json-IsCipher c = record { id = refl; payload = refl; created = refl; updated = refl }

cipher_elements-AreCiphers : (cs : List Cipher) → AreCiphers cs (cipher_elements cs)
unfolding cipher_elements
cipher_elements-AreCiphers [] = tt
cipher_elements-AreCiphers (c ∷ cs) = (cipher_json-IsCipher c, cipher_elements-AreCiphers cs)

ciphers_json-ListsCiphers : (cs : List Cipher) → ListsCiphers cs (ciphers_json cs)
unfolding get find_member equal
ciphers_json-ListsCiphers cs = (cipher_elements cs, refl, cipher_elements-AreCiphers cs)

-- Its handlers answer 200, 201 with the new item, 200 with the changed one, and 204.
unfoldable serve : HttpRequest → List Cipher → Result HttpResponse × List Cipher
unfolding sent equal answer_of
serve r net =
    if equal r.method (codes "GET")
    then answered 200 (λ cs. write (ciphers_json cs)) (keeping.sync [] net)
    else if equal r.method (codes "POST")
    then answered 201 (λ c. write (cipher_json c)) (keeping.create_cipher [] (sent r.body) net)
    else if equal r.method (codes "PUT")
    then answered 200 (λ u. write (cipher_json (cipher (drop 22 r.url) (sent r.body))))
        (keeping.update_cipher [] (drop 22 r.url) (sent r.body) net)
    else answered 204 (λ u. []) (keeping.delete_cipher [] (drop 22 r.url) net)

payload_of-one_member : (t : Text) → sent (some (write (one_member (codes "data") t))) ≡ t
unfolding sent payload_of text_member as_string get find_member equal
payload_of-one_member t = rw (read-write (one_member (codes "data") t)) refl

refused-Fails : (e : Thrown) → Fails (refused e)
unfolding refused
refused-Fails (error m) = elim (Bool-cases (equal m (codes "item not found"))) [
  | inl missing ↦ rw missing (omega arith)
  | inr other ↦ rw other (omega arith)
]
refused-Fails (two_factor methods) = omega arith

abbrev base : Text
base = codes "https://h"

abbrev spelled : (v : Json) {Is : Json → Type 0} → Is v → Spells toy blank_fails Is (write v)
spelled v is = (v, read-write v, is)

-- Any result of a change, with a text that nothing looks at.
answer_of-Carries :
    (status : ℕ) (text : Text) (r : Result (Unit {0}))
    → Succeeds status
    → Anything toy blank_fails keeping base serve (λ t. t) tt text
    → Carries toy blank_fails refused
        (Anything toy blank_fails keeping base serve (λ t. t))
        r
        (answer_of status (λ u. text) r)
unfolding answer_of
answer_of-Carries status text (ok u) succeeds is = (succeeds, is)
answer_of-Carries status text (throw e) succeeds is = (refl, read-write _)

serve-Serves : Serves toy blank_fails keeping base serve (λ t. t) refused
unfolding serve equal
serve-Serves = record {
  refuses = refused-Fails;
  syncs = λ token net. (
    record { status = 200; body = write (ciphers_json net) },
    unfold answer_of in refl,
    ((omega arith, omega arith), spelled (ciphers_json net) (ciphers_json-ListsCiphers net)),
  );
  creates = λ token t net. (
    record { status = 201; body = write (cipher_json (cipher (codes "c1") t)) },
    rw (payload_of-one_member t) (unfold answer_of in refl),
    (
      (omega arith, omega arith),
      spelled (cipher_json (cipher (codes "c1") t)) (cipher_json-IsCipher _),
    ),
  );
  updates = λ token id t net. (
    answer_of 200 (λ u. write (cipher_json (cipher id t))) (keeping.update_cipher token id t net).0,
    rw (payload_of-one_member t) refl,
    answer_of-Carries 200 _ (keeping.update_cipher token id t net).0 (omega arith, omega arith)
        (inr (spelled (cipher_json (cipher id t)) tt)),
  );
  deletes = λ token id net. (
    answer_of 204 (λ u. []) (keeping.delete_cipher token id net).0,
    refl,
    answer_of-Carries 204 [] (keeping.delete_cipher token id net).0 (omega arith, omega arith)
        (inl refl),
  );
}

http_api-plain_api_example :
    http_api toy (over toy blank_fails keeping base serve (λ t. t)) ≡ plain_api refused keeping
http_api-plain_api_example =
    http_api-plain_api toy blank_fails keeping base serve (λ t. t) refused serve-Serves

-- A backend that answers every request in the same way.
abbrev always : HttpResponse → Http
always r = record {
  Net = Unit;
  base_url = [];
  fetch = λ q net. (ok r, net);
  encode_component = λ t. t;
}

call-returned_example :
    (r : HttpResponse) × (((always (record { status = 204; body = [] })).fetch
        (request toy
          (always (record { status = 204; body = [] }))
          (codes "GET")
          (codes "/api/sync")
          none
          (some (codes "t1")))
        tt).0
      ≡ ok r)
    × (is_success r.status ≡ true)
    × (read_text toy r.body ≡ ok (object end_members))
unfolding call read_text
call-returned_example =
    call-returned toy (always (record { status = 204; body = [] })) (codes "GET")
      (codes "/api/sync") none (some (codes "t1")) tt (object end_members) refl

abbrev methods : List Text
methods = codes "webauthn" ∷ codes "totp" ∷ []

-- The members in the order in which the server writes them.
abbrev wanted : Members
wanted = member (codes "error") (string (codes "two-factor authentication required")) (
    member (codes "methods")
      (array (item (string (codes "webauthn")) (item (string (codes "totp")) end_items)))
      (member (codes "twoFactorRequired") (boolean true) end_members))

abbrev kdf_answer : Json
kdf_answer = object (member (codes "kdf") (kdf_json default_kdf) end_members)

unfoldable ask : HttpRequest → Unit {0} → Result HttpResponse × Unit {0}
unfolding equal
ask r net =
    if equal r.url (codes "/api/accounts/prelogin")
    then (ok (record { status = 200; body = write kdf_answer }), net)
    else (ok (record { status = 401; body = write (object wanted) }), net)

abbrev asking : Http
asking = record { Net = Unit; base_url = []; fetch = ask; encode_component = λ t. t }

alice_derives : Derived 32 (derive_master_key toy (codes "pw") (codes "alice") default_kdf)
unfolding derive_master_key derive_key
alice_derives = stretch-Derived 32 _

wanted-IsRefusal : IsRefusal (wants methods) 401 wanted
unfolding find_member equal
wanted-IsRefusal = (refl, refl, (_, refl, (refl, (refl, tt))))

kdf_answer-HoldsKdf : HoldsKdf default_kdf kdf_answer
unfolding get find_member equal
kdf_answer-HoldsKdf = refl

login_account-refused_example :
    login_account toy (http_endpoints toy asking) (codes "alice") (codes "pw") none tt counting
    ≡ (throw (two_factor methods), tt, counting)
unfolding ask equal
login_account-refused_example =
    login_account-refused toy blank_fails asking (codes "alice") (codes "pw") none default_kdf
      alice_derives.key (derive_master_password_hash-Hashes toy alice_derives.key (codes "pw")).hash
      (wants methods) (record { status = 200; body = write kdf_answer })
      (record { status = 401; body = write (object wanted) }) tt tt tt counting refl
      (omega arith, omega arith) (kdf_answer, read-write kdf_answer, kdf_answer-HoldsKdf)
      alice_derives.derives
      (derive_master_password_hash-Hashes toy alice_derives.key (codes "pw")).hashes refl
      (wanted, read-write (object wanted), wanted-IsRefusal)
