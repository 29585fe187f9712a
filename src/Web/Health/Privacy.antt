-- ===== src/Web/Health/Privacy.antt =====
-- The requests of the breach check.
use passwd.Base.{◌≡◌, refl, ap, sym, ◌∙◌, List, [], ◌∷◌, Text, Bytes, map}
use passwd.Crypto.Platform.{Platform}
use passwd.ApiClient.Items.{VaultItem}
use passwd.ApiClient.Http.{Http}
use passwd.Web.Health.{Groups, by_password, breached_ids, breached_item_ids}
use passwd.Web.Health.Ranges.{prefix_of, fetch_range, breach_count, check_vault}

module _ (p : Platform) (sha1 : Bytes → Bytes) where
  -- The prefixes of the distinct passwords, in order.
  abbrev pub prefixes : Groups → List Text
  prefixes = map (λ g. prefix_of p sha1 g.0)

  module _ (http : Http) where
    -- The network after one request for each prefix.
    unfoldable asked : List Text → http.Net → http.Net
    asked [] net = net
    asked (prefix ∷ rest) net = asked rest (fetch_range http prefix net).1

    breached_ids-asked :
        (m : Groups) (net : http.Net)
        → (breached_ids (breach_count p sha1 http) m net).1 ≡ asked (prefixes m) net
    unfolding breached_ids breach_count asked
    breached_ids-asked [] net = refl
    breached_ids-asked ((pw, ids) ∷ m) net =
        breached_ids-asked m (fetch_range http (prefix_of p sha1 pw) net).1

    -- Two vaults whose distinct passwords have, in order, SHA-1 hashes with the same five first hex
    -- digits leave the network in the same state: the requests that the breach check sends do not
    -- depend on anything else of the vault.
    pub check_vault-prefixes :
        (items items' : List VaultItem) (net : http.Net)
        → prefixes (by_password items) ≡ prefixes (by_password items')
        → (check_vault p sha1 http items net).1 ≡ (check_vault p sha1 http items' net).1
    unfolding check_vault breached_item_ids
    check_vault-prefixes items items' net same =
        breached_ids-asked (by_password items) net
        ∙ (ap (λ qs. asked qs net) same ∙ sym (breached_ids-asked (by_password items') net))
