-- ===== src/Extension/Hosts.antt =====
-- clients/apps/extension/utils/protocol.ts and entrypoints/popup/App.tsx: which items belong to the
-- page, and the popup's list. `new URL(text).hostname`, with nothing where it throws, is a parameter.
pub mod Labels
use passwd.Base.{
  ℕ, ◌-◌, Bool, true, false, not, ◌&&◌, ◌||◌, Option, none, some, List, [], ◌∷◌, ◌++◌,
  if◌then◌else◌, drop, take, length, Text, codes,
}
use passwd.Base.Equality.{equal}
use passwd.Base.Sorting.{filter, sort}
use passwd.Base.Strings.{includes_text, starts_with_text, split}
use passwd.Crypto.Platform.{Platform}
use passwd.ApiClient.Items.{VaultItem, ItemFields, ItemType, login, note, card, identity}
use passwd.ApiClient.Portable.{is_blank}
use passwd.Web.Listing.{or_text, first_line, digits_of}

-- `host.replace(/^www\./, "")`
unfoldable pub strip_www : Text → Text
unfolding starts_with_text
strip_www host = if starts_with_text host (codes "www.") then drop 4 host else host

-- `s.endsWith(end)`
unfoldable pub ends_with : Text → Text → Bool
unfolding equal
ends_with [] end = equal [] end
ends_with (c ∷ s) end = equal (c ∷ s) end || ends_with s end

unfoldable pub same_or_subdomain : Text → Text → Bool
unfolding ends_with equal
same_or_subdomain a b = equal a b || ends_with a (codes "." ++ b) || ends_with b (codes "." ++ a)

-- The address that `new URL` is given.
unfoldable pub address : Text → Text
unfolding includes_text
address url = if includes_text url (codes "://") then url else codes "https://" ++ url

-- The popup's subtitle of an item.
typed_sub : ItemType → ItemFields → Text
unfolding split digits_of
typed_sub note f = or_text (take 50 (first_line (split 10 f.notes))) (codes "secure note")
typed_sub card f = elim (digits_of f.card.number) [
  | [] ↦ codes "card"
  | c ∷ digits ↦
      0x2022 ∷ 0x2022 ∷ 0x2022 ∷ 0x2022 ∷ b' ' ∷ drop (length (c ∷ digits) - 4) (c ∷ digits)
]
typed_sub identity f = or_text f.identity.email (or_text f.identity.full_name (codes "identity"))
typed_sub login f = or_text f.username f.url

unfoldable pub item_sub : VaultItem → Text
unfolding typed_sub
item_sub i = typed_sub i.content.type i.content

module _ (p : Platform) (hostname : Text → Option Text) where
  host_or_blank : Option Text → Text
  host_or_blank none = []
  host_or_blank (some host) = p.lower host

  -- `safeHost`
  unfoldable pub safe_host : Text → Text
  unfolding host_or_blank address
  safe_host url = host_or_blank (hostname (address url))

  unfoldable pub host_matches : Text → Text → Bool
  unfolding safe_host strip_www same_or_subdomain
  host_matches item_url page_host =
      not (is_blank (safe_host item_url))
      && (not (is_blank page_host)
          && same_or_subdomain (strip_www (safe_host item_url)) (strip_www page_host))

  abbrev matches : Option Text → VaultItem → Bool
  matches none i = false
  matches (some host) i = host_matches i.content.url host

  -- The comparator is negative where only the first matches, or they agree on that and only the first
  -- is a favourite.
  unfoldable pub before : Option Text → VaultItem → VaultItem → Bool
  unfolding host_matches
  before tab_host a b =
      matches tab_host a && not (matches tab_host b)
      || (matches tab_host a || not (matches tab_host b))
        && (a.content.favorite && not b.content.favorite)

  unfoldable pub sorted : Option Text → List VaultItem → List VaultItem
  unfolding before sort
  sorted tab_host items = sort (before tab_host) items

  unfoldable pub is_found : Text → VaultItem → Bool
  unfolding includes_text
  is_found query i =
      is_blank query
      || includes_text (p.lower i.content.name) (p.lower query)
      || includes_text (p.lower i.content.username) (p.lower query)
      || includes_text (p.lower i.content.url) (p.lower query)

  unfoldable pub listed : Option Text → Text → List VaultItem → List VaultItem
  unfolding sorted is_found filter
  listed tab_host query items = filter (is_found query) (sorted tab_host items)
