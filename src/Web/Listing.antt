-- ===== src/Web/Listing.antt =====
-- clients/apps/web/src/VaultScreen.tsx: the list of items. `localeCompare`, as the test whether one
-- text comes before another, is a parameter.
pub mod Favorites
use passwd.Base.{
  ℕ, ◌-◌, ◌+◌, Bool, true, false, not, ◌&&◌, ◌||◌, Option, none, some, List, [], ◌∷◌, ◌++◌, map,
  ◌==◌, leb, if◌then◌else◌, take, drop, length, Text, codes,
}
use passwd.Base.Equality.{equal}
use passwd.Base.Sorting.{filter, sort, by_flag}
use passwd.Base.Strings.{split, join, includes_text, starts_with_text}
use passwd.Crypto.Platform.{Platform}
use passwd.ApiClient.Items.{VaultItem, ItemFields, ItemType, login, note, card, identity}
use passwd.ApiClient.Portable.{is_blank}

-- `inFilter`: "all", "favorites", or "folder:" and a name.
unfoldable pub in_filter : Text → VaultItem → Bool
unfolding equal
in_filter f i =
    if equal f (codes "all")
    then true
    else if equal f (codes "favorites")
    then i.content.favorite
    else equal i.content.folder (drop (length (codes "folder:")) f)

unfoldable member_of : Text → List Text → Bool
unfolding equal
member_of t [] = false
member_of t (s ∷ ss) = equal t s || member_of t ss

-- `[...new Set(texts)]`: the first of each, in order; `seen` are those before.
unfoldable pub distinct_from : List Text → List Text → List Text
unfolding member_of
distinct_from seen [] = []
distinct_from seen (t ∷ ts) =
    let rest = distinct_from (t ∷ seen) ts in if member_of t seen then rest else t ∷ rest

unfoldable pub folders : (Text → Text → Bool) → List VaultItem → List Text
unfolding distinct_from filter sort
folders locale_before items =
    sort locale_before
      (distinct_from [] (filter (λ t. not (is_blank t)) (map (λ i. i.content.folder) items)))

-- `a || b` on texts
abbrev pub or_text : Text → Text → Text
or_text [] b = b
or_text (c ∷ a) b = c ∷ a

abbrev pub first_line : List Text → Text
first_line [] = []
first_line (l ∷ ls) = l

-- `number.replace(/\D/g, "")`
unfoldable pub digits_of : Text → Text
unfolding filter
digits_of s = filter (λ c. leb b'0' c && leb c b'9') s

-- The last four digits, behind four bullets.
abbrev card_subtitle : Text → Text
card_subtitle [] = codes "card"
card_subtitle (c ∷ digits) =
    0x2022 ∷ 0x2022 ∷ 0x2022 ∷ 0x2022 ∷ b' ' ∷ drop (length (c ∷ digits) - 4) (c ∷ digits)

typed_subtitle : ItemType → ItemFields → Text
unfolding split digits_of
typed_subtitle note f = or_text (take 80 (first_line (split 10 f.notes))) (codes "secure note")
typed_subtitle card f = card_subtitle (digits_of f.card.number)
typed_subtitle identity f =
    or_text f.identity.email (or_text f.identity.full_name (codes "identity"))
typed_subtitle login f = or_text f.username (or_text f.url (codes "no details"))

unfoldable pub item_subtitle : VaultItem → Text
unfolding typed_subtitle
item_subtitle i = typed_subtitle i.content.type i.content

-- A letter of the ASCII range in lower case, as `/i` compares it.
abbrev fold : ℕ → ℕ
fold c = if leb b'A' c && leb c b'Z' then c + 32 else c

unfoldable pub normalize_url : Text → Text
unfolding starts_with_text
normalize_url url =
    if starts_with_text (map fold url) (codes "http://")
      || starts_with_text (map fold url) (codes "https://")
    then url
    else codes "https://" ++ url

module _ (p : Platform) where
  unfoldable pub search_haystack : VaultItem → Text
  unfolding join
  search_haystack i = p.lower (
      join 10 (
        i.content.name ∷ i.content.username ∷ i.content.url ∷ i.content.folder
        ∷ i.content.identity.full_name ∷ i.content.identity.email ∷ i.content.card.cardholder ∷ []))

  unfoldable pub is_listed : Text → Text → VaultItem → Bool
  unfolding in_filter search_haystack includes_text
  is_listed f query i =
      in_filter f i && (is_blank query || includes_text (search_haystack i) (p.lower query))

  -- `Number(b.favorite) - Number(a.favorite)` is negative where only `a` is a favourite.
  unfoldable pub filtered : Text → Text → List VaultItem → List VaultItem
  unfolding is_listed filter sort
  filtered f query items =
      sort (by_flag (λ i. i.content.favorite)) (filter (is_listed f query) items)
