-- ===== src/Tests/Sharing.antt =====
-- Sharing an item on a server that keeps the shares of one recipient.
use passwd.Base.{◌≡◌, refl, map, [], ◌∷◌, List, codes}
use passwd.Base.Outcome.{ok}
use passwd.Crypto.Primitives.Sealing.{draw-IsKey}
use passwd.Crypto.Sharing.{UserKeypair, ShareEnvelope, generate_user_keypair}
use passwd.Crypto.Sharing.RoundTrip.{generate_user_keypair-Generates}
use passwd.ApiClient.Items.{Session, VaultItem}
use passwd.ApiClient.Shares.{ShareApi, load_shares, share_item, list_shared_with_me}
use passwd.ApiClient.Shares.Listing.{Delivers, list_shared_with_me-share_item}
use passwd.Tests.Sync.{alice, bank, counting, encodable_bank, lower_false}
use passwd.Tests.Toy.{toy}

abbrev pair : UserKeypair
pair = (generate_user_keypair-Generates toy alice.user_key (draw-IsKey 64 0 counting) counting).pair

pair_made : (generate_user_keypair toy alice.user_key counting).0 ≡ ok pair
pair_made =
    (generate_user_keypair-Generates toy alice.user_key (draw-IsKey 64 0 counting)
      counting).generates

abbrev recipient : Session
recipient = record alice { protected_private_key = pair.protected_private_key }

abbrev post_box : ShareApi
post_box = record {
  Net = List ShareEnvelope;
  lookup_public_key = λ token identifier net. (ok pair.public_key, net);
  create_share = λ token identifier e net. (ok tt, e ∷ net);
  list_shares = λ token net. (ok (map (λ e. record { id = codes "s"; sealed = e }) net), net);
}

post_box-Delivers :
    Delivers toy post_box alice recipient pair.public_key [] (codes "s") [] (λ e. e ∷ [])
post_box-Delivers = record { knows = refl; stores = λ e. refl; lists = λ e. refl }

abbrev item : VaultItem
item = record { id = codes "c1"; content = bank }

list_shared_with_me-share_item_example :
    ((share_item toy post_box alice recipient.identifier item [] counting).0 ≡ ok tt)
    × ((list_shared_with_me toy post_box recipient
          (share_item toy post_box alice recipient.identifier item [] counting).1
          counting).0
        ≡ ok (
            record { id = codes "s"; share_id = codes "s"; content = bank }
            ∷ load_shares toy recipient []))
list_shared_with_me-share_item_example =
    list_shared_with_me-share_item toy post_box alice recipient item [] (codes "s") [] (λ e. e ∷ [])
      counting counting counting pair lower_false (draw-IsKey 64 0 counting) encodable_bank
      pair_made refl post_box-Delivers
