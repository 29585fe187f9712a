-- ===== src/ApiClient/Shares/Listing.antt =====
-- Sharing an item, and the recipient's list.
use passwd.Base.{◌≡◌, refl, ap, sym, ◌∙◌, List, ◌∷◌, Text, codes, some}
use passwd.Base.Act.{Entropy}
use passwd.Base.Outcome.{ok, throw}
use mathlib.Core.Path.{subst, subst⁻¹}
use passwd.Crypto.Platform.{Platform, IsKey}
use passwd.Crypto.Sharing.{
  UserKeypair, ShareEnvelope, generate_user_keypair, create_share, open_share,
}
use passwd.Crypto.Sharing.RoundTrip.{open-create_share}
use passwd.ApiClient.Items.{Session, VaultItem}
use passwd.ApiClient.Fields.{fields_json}
use passwd.ApiClient.Fields.RoundTrip.{fields_json-IsStable, normalize-fields_json}
use passwd.ApiClient.Shares.{
  Share, ShareApi, load_share, load_shares, keep, share_item, list_shared_with_me,
}

module _ (p : Platform) (api : ShareApi) where
  -- What the server does: it knows the recipient's key, and lists a share that it is sent in front
  -- of those that it held.
  pub record Delivers (sender recipient : Session) (key : Text) (before : List Share) (id : Text)
      (net : api.Net) (after : ShareEnvelope → api.Net) : Type 0 where
    pub knows : api.lookup_public_key sender.access_token recipient.identifier net ≡ (ok key, net)
    pub stores :
        (e : ShareEnvelope)
        → api.create_share sender.access_token recipient.identifier e net ≡ (ok tt, after e)
    pub lists :
        (e : ShareEnvelope)
        → api.list_shares recipient.access_token (after e)
          ≡ (ok (record { id = id; sealed = e } ∷ before), after e)

  load_share-kept :
      (s : Session) (sh : Share) (i : VaultItem)
      → p.lower (codes "false") ≡ codes "false"
      → open_share p s.user_key s.protected_private_key sh.sealed
        ≡ ok (p.stringify (fields_json i.content))
      → load_share p s sh ≡ some (record { id = sh.id; share_id = sh.id; content = i.content })
  unfolding load_share
  load_share-kept s sh i lower_false e =
      rw
        (
          e,
          p.parse-stringify (fields_json i.content) (fields_json-IsStable i.content),
          normalize-fields_json p i.content lower_false,
        )
        refl

  -- Sharing an item succeeds where the recipient's key pair was made by this client, and the server
  -- knows its public key and keeps what it is sent. The recipient, whose session holds the private
  -- key of that pair, then lists the item with all its fields, in front of the shares from before.
  pub list_shared_with_me-share_item :
      (sender recipient : Session) (i : VaultItem) (before : List Share) (id : Text) (net : api.Net)
      (after : ShareEnvelope → api.Net) (made w v : Entropy) (pair : UserKeypair)
      → p.lower (codes "false") ≡ codes "false"
      → IsKey 64 recipient.user_key
      → p.IsEncodable (p.stringify (fields_json i.content))
      → (generate_user_keypair p recipient.user_key made).0 ≡ ok pair
      → recipient.protected_private_key ≡ pair.protected_private_key
      → Delivers sender recipient pair.public_key before id net after
      → ((share_item p api sender recipient.identifier i net w).0 ≡ ok tt)
        × ((list_shared_with_me p api recipient
              (share_item p api sender recipient.identifier i net w).1
              v).0
            ≡ ok (
                record { id = id; share_id = id; content = i.content }
                ∷ load_shares p recipient before))
  unfolding share_item list_shared_with_me load_shares keep
  list_shared_with_me-share_item sender recipient i before id net after made w v pair lower_false
        key encodable generated holds delivers =
      let text = p.stringify (fields_json i.content) in
      let (pair', share, generates, seals, opens) =
        open-create_share p recipient.user_key key made w text encodable in
      let same : pair' ≡ pair =
        ap (λ r. elim r [ ok q ↦ q | throw t ↦ pair ]) (sym generates ∙ generated) in
      let sealed = subst (λ q. (create_share p q.public_key text w).0 ≡ ok share) same seals in
      let opened =
        subst⁻¹ (λ k. open_share p recipient.user_key k share ≡ ok text) holds
          (subst (λ q. open_share p recipient.user_key q.protected_private_key share ≡ ok text) same
            opens) in
      rw
        (
          delivers.knows,
          sealed,
          delivers.stores share,
          delivers.lists share,
          load_share-kept recipient (record { id = id; sealed = share }) i lower_false opened,
        )
        (refl, refl)
