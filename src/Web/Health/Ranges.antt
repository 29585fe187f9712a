-- ===== src/Web/Health/Ranges.antt =====
-- clients/apps/web/src/health.ts: sha1Hex and breachCount, the request for one password to the service
-- of known breaches. SHA-1 is WebCrypto's and a parameter.
use passwd.Base.{
  ℕ, suc, ◌-◌, ◌&&◌, Option, none, some, List, [], ◌∷◌, ◌++◌, leb, if◌then◌else◌, Text, Bytes,
  codes, take, drop, map,
}
use passwd.Base.Decimal.{decimal, parse_int}
use passwd.Base.Equality.{equal}
use passwd.Base.Hex.{hex}
use passwd.Base.Outcome.{Result, ok, throw, error}
use passwd.Base.Strings.{index_of, split}
use passwd.Crypto.Platform.{Platform}
use passwd.ApiClient.Items.{VaultItem}
use passwd.ApiClient.Http.{Http, HttpRequest, HttpResponse, is_success}
use passwd.Web.Health.{breached_item_ids}

-- `toUpperCase` of a text of hex digits.
abbrev upper_hex : Text → Text
upper_hex = map (λ c. if leb b'a' c && leb c b'f' then c - 32 else c)

-- A line of the answer, at the place of its colon: the count, where the line is for the suffix.
unfoldable pub line_count : Text → Text → Option ℕ → Option ℕ
unfolding equal parse_int
line_count suffix line none = none
line_count suffix line (some i) =
    if equal (take i line) suffix then some (parse_int (drop (suc i) line)) else none

-- The first line that is for the suffix.
unfoldable pub find_count : Text → List Text → ℕ
unfolding line_count index_of
find_count suffix [] = 0
find_count suffix (line ∷ lines) = elim (line_count suffix line (index_of b':' line)) [
  | none ↦ find_count suffix lines
  | some n ↦ n
]

abbrev pub range_request : List (Text × Text) → Text → HttpRequest
range_request headers prefix = record {
  method = codes "GET";
  url = codes "https://api.pwnedpasswords.com/range/" ++ prefix;
  headers = headers;
  body = none;
}

unfoldable pub read_range : Text → Result HttpResponse → Result ℕ
unfolding find_count split decimal
read_range suffix (throw e) = throw e
read_range suffix (ok r) =
    if is_success r.status
    then ok (find_count suffix (split 10 r.body))
    else throw (error (codes "breach service returned " ++ decimal r.status))

module _ (http : Http) where
  -- The fallback, after a fetch that threw.
  unfoldable pub or_plain : Text → Result HttpResponse × http.Net → Result HttpResponse × http.Net
  or_plain prefix (throw e, net) = http.fetch (range_request [] prefix) net
  or_plain prefix (ok r, net) = (ok r, net)

  unfoldable pub fetch_range : Text → http.Net → Result HttpResponse × http.Net
  unfolding or_plain
  fetch_range prefix net =
      or_plain prefix
        (http.fetch (range_request ((codes "Add-Padding", codes "true") ∷ []) prefix) net)

module _ (p : Platform) (sha1 : Bytes → Bytes) where
  unfoldable pub sha1_hex : Text → Text
  unfolding hex
  sha1_hex s = upper_hex (hex (sha1 (p.utf8 s)))

  -- The five characters that are sent, and those that are kept.
  abbrev pub prefix_of : Text → Text
  prefix_of pw = take 5 (sha1_hex pw)

  module _ (http : Http) where
    unfoldable pub breach_count : Text → http.Net → Result ℕ × http.Net
    unfolding sha1_hex fetch_range read_range
    breach_count pw net =
        let (r, net') = fetch_range http (prefix_of pw) net in
        (read_range (drop 5 (sha1_hex pw)) r, net')

    -- The whole check: `breachedItemIds` over that request.
    unfoldable pub check_vault : List VaultItem → http.Net → List (Text × ℕ) × http.Net
    unfolding breach_count breached_item_ids
    check_vault = breached_item_ids breach_count
