-- ===== src/Gateway/Marketplace/Tests.antt =====
-- The theorems on the marketplace at a concrete listing, bought once.
use nyx_dirty_and_develop.Base.{
  ◌≡◌, refl, ◌≢◌, true, false, [], ◌∷◌, String, text_ne, text_append, text_discrete, fullmatch,
  strip, none, some, Result, ok, List,
}
use nyx_dirty_and_develop.Base.Int.{pos}
use nyx_dirty_and_develop.Fees.{Payload}
use nyx_dirty_and_develop.Gateway.Monad.{Error}
use nyx_dirty_and_develop.Gateway.Validate.{
  Checked, validate_text, validate_wallet_address, validate_asset, validate_int,
}
use nyx_dirty_and_develop.Gateway.Fields.{
  Value, text, number, Fields, integers, PurchaseRequest, validate_address_text, require_int,
  validate_purchase_payload,
}
use nyx_dirty_and_develop.Gateway.Tables.{select_one, delete, insert_or_replace, update_where}
use nyx_dirty_and_develop.Gateway.Wallet.{
  validate_account, ensure_wallet_account, get_wallet_balance, set_wallet_balance, exists_row,
  balance_of, insert_or_ignore, update, validate_transfer, take_from, settle, move_funds,
}
use nyx_dirty_and_develop.Gateway.Transfers.{
  validate_transfer_row, insert_wallet_transfer, apply_wallet_transfer,
}
use nyx_dirty_and_develop.Gateway.Store.{Db, empty_db, FeeLedger, Listing, request}
use nyx_dirty_and_develop.Gateway.Inserts.{insert_fee_ledger, insert_purchase}
use nyx_dirty_and_develop.Gateway.Marketplace.Defs.{
  Request, publish, purchase, listing_key, require_balance, check_balance, load_listing, mark_sold,
  sell_listing, settle_purchase, purchase_listing, serve_all,
}
use nyx_dirty_and_develop.Gateway.Marketplace.Purchases.{IsSale, purchase_listing-IsSale}
use nyx_dirty_and_develop.Gateway.Marketplace.History.{serve_all-sold}

abbrev name_of : Value → String
name_of v = "value"

abbrev flat_fee : String → String → Payload → String → Checked FeeLedger
flat_fee module_name action p run_id = ok (record {
  fee_id = text_append "fee-" run_id;
  module_name = module_name;
  action = action;
  protocol_fee_total = 1;
  platform_fee_amount = 1;
  total_paid = 2;
  fee_address = "treasury";
  run_id = run_id;
})

abbrev id_of : String → String → String
id_of prefix run_id = text_append prefix (text_append "-" run_id)

abbrev hat : Listing
hat = record {
  listing_id = "listing-r1";
  publisher_id = "alice";
  sku = "hat";
  title = "A hat";
  price = 5;
  active = true;
  run_id = "r1";
}

abbrev shop : Db
shop = record empty_db {
  accounts = record { address = "bob"; asset_id = "NYXT"; balance = 30 } ∷ [];
  listings = hat ∷ [];
}

abbrev two_hats : Fields
two_hats k = elim (text_discrete k "listing_id") [
  | yes _ ↦ some (text "listing-r1 ")
  | no _ ↦ elim (text_discrete k "buyer_id") [
    | yes _ ↦ some (text "bob")
    | no _ ↦ elim (text_discrete k "qty") [ yes _ ↦ some (number (pos 2)) | no _ ↦ none ]
  ]
]

abbrev bought : Result Error (Unit {0}) × Db
bought = request (purchase_listing name_of flat_fee id_of "r2" two_hats "bob") shop

bought_ok : bought ≡ (ok tt, bought.1)
unfolding validate_transfer_row insert_wallet_transfer apply_wallet_transfer delete
    insert_or_replace update_where select_one validate_account ensure_wallet_account
    get_wallet_balance set_wallet_balance exists_row balance_of insert_or_ignore update
    validate_transfer take_from settle move_funds validate_text validate_wallet_address
    validate_asset validate_int text_discrete fullmatch strip validate_address_text require_int
    validate_purchase_payload insert_fee_ledger insert_purchase require_balance check_balance
    load_listing mark_sold sell_listing settle_purchase purchase_listing
bought_ok = refl

purchase_listing-IsSale_example :
    (v : PurchaseRequest) × (l : Listing) × (fee : FeeLedger) × (validate_purchase_payload name_of
        two_hats
      ≡ ok v)
    × (flat_fee "marketplace" "purchase_listing" (integers v.fields) "r2" ≡ ok fee)
    × IsSale name_of flat_fee id_of "r2" v l fee shop bought.1
purchase_listing-IsSale_example =
    purchase_listing-IsSale name_of flat_fee id_of "r2" two_hats "bob" shop bought.1 tt bought_ok

abbrev asked : PurchaseRequest
asked = record { listing_id = "listing-r1"; buyer_id = "bob"; qty = 2; fields = two_hats }

asked_ok : validate_purchase_payload name_of two_hats ≡ ok asked
unfolding validate_purchase_payload validate_address_text require_int text_discrete fullmatch strip
asked_ok = refl

abbrev sold_hat : Listing
sold_hat = record hat { active = false }

abbrev closed_shop : Db
closed_shop = record shop { listings = sold_hat ∷ [] }

abbrev attempts : List Request
attempts = purchase "r3" two_hats "bob" ∷ publish "r4" two_hats "" ∷ []

sold_stored : select_one listing_key "listing-r1" closed_shop.listings ≡ some sold_hat
unfolding select_one text_discrete
sold_stored = refl

spared : id_of "listing" "r4" ≢ "listing-r1"
unfolding text_discrete
spared = text_ne _ _ refl

serve_all-sold_example :
    (select_one listing_key "listing-r1"
        (serve_all name_of flat_fee id_of attempts closed_shop).listings
      ≡ some sold_hat)
    × (request
          (purchase_listing name_of flat_fee id_of "r5" two_hats "bob")
          (serve_all name_of flat_fee id_of attempts closed_shop)
        ≢ (ok tt, shop))
serve_all-sold_example =
    serve_all-sold "listing-r1" sold_hat name_of flat_fee id_of attempts closed_shop shop "r5"
      two_hats "bob" asked tt refl (tt, (spared, tt)) sold_stored asked_ok refl
