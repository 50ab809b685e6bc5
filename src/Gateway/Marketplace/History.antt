-- ===== src/Gateway/Marketplace/History.antt =====
-- A listing that has been sold stays sold.
use nyx_dirty_and_develop.Base.{
  ℕ, ◌+◌, ◌*◌, true, ◌≡◌, refl, ◌≢◌, arith, String, text_discrete, some, ok, false, not, List, [],
  ◌∷◌, All, raise_if, or_raise,
}
use nyx_dirty_and_develop.Fees.{Payload}
use nyx_dirty_and_develop.Gateway.Validate.{Checked}
use nyx_dirty_and_develop.Gateway.Fields.{
  Value, Fields, ListingRequest, PurchaseRequest, integers, validate_listing_payload,
  validate_purchase_payload,
}
use nyx_dirty_and_develop.Gateway.Tables.{select_one}
use nyx_dirty_and_develop.Gateway.Tables.Laws.{
  select_one-insert_or_replace, select_one-update_where,
}
use nyx_dirty_and_develop.Gateway.Wallet.{Transfer}
use nyx_dirty_and_develop.Gateway.Transfers.{apply_wallet_transfer, insert_wallet_transfer}
use nyx_dirty_and_develop.Gateway.Monad.{gateway}
use nyx_dirty_and_develop.Gateway.Keeps.{
  Keeps, Both, follow-Keeps, check-Keeps, committing-Keeps, request-Keeps,
}
use nyx_dirty_and_develop.Gateway.Inserts.{insert_fee_ledger, insert_purchase, insert_listing}
use nyx_dirty_and_develop.Gateway.Store.{
  Db, FeeLedger, Listing, Purchase, committing, request, request-ok,
}
use nyx_dirty_and_develop.Gateway.Marketplace.Defs.{
  Request, publish, purchase, serve, serve_all, listing_key, check_balance, require_balance,
  sell_listing, mark_sold, charge_fee, publish_listing, settle_purchase, purchase_listing,
  load_listing, check_caller, nyxt_transfer,
}
use nyx_dirty_and_develop.Gateway.Marketplace.Sales.{purchase_listing-ok, payment, purchase_row}

module _ (id : String) (l : Listing) where
  -- The listing is in the table, as `l`.
  abbrev pub Stored : Db → Type 0
  Stored db = select_one listing_key id db.listings ≡ some l

  purchase-Keeps : (r : Purchase) → Keeps (Both Stored) (insert_purchase r)
  unfolding insert_purchase
  purchase-Keeps r c h = ground arith

  fee-Keeps : (r : FeeLedger) → Keeps (Both Stored) (insert_fee_ledger r)
  unfolding insert_fee_ledger
  fee-Keeps r c h = ground arith

  -- An insertion under another key.
  listing-Keeps : (r : Listing) → r.listing_id ≢ id → Keeps (Both Stored) (insert_listing r)
  unfolding insert_listing
  listing-Keeps r ne c h = ground (
    arith,
    select_one-insert_or_replace listing_key id r c.working.listings,
    text_discrete r.listing_id id,
  )

  transfer-Keeps : (t : Transfer) → Keeps Stored (apply_wallet_transfer t)
  unfolding apply_wallet_transfer insert_wallet_transfer
  transfer-Keeps t db h = ground arith

  balance-Keeps : (a : String) (n : ℕ) (m : String) → Keeps (Both Stored) (check_balance a n m)
  unfolding check_balance require_balance
  balance-Keeps a n m c h = ground arith

  load-Keeps : (k : String) → Keeps (Both Stored) (load_listing k)
  unfolding load_listing
  load-Keeps k c h = ground arith

  sell-Keeps : (k : String) → l.active ≡ false → Keeps (Both Stored) (sell_listing k)
  unfolding sell_listing mark_sold
  sell-Keeps k sold c h = ground (
    arith,
    select_one-update_where listing_key k id (λ r. record r { active = false }) c.working.listings
        (λ r. refl),
    text_discrete k id,
  )

  module _ (str : Value → String)
      (route_fee : String → String → Payload → String → Checked FeeLedger)
      (make_id : String → String → String) where
    charge_fee-Keeps :
        (caller : String) (fee : FeeLedger) (run_id : String)
        → Keeps (Both Stored) (charge_fee str route_fee make_id caller fee run_id)
    unfolding charge_fee
    charge_fee-Keeps caller fee run_id c h =
        let t = nyxt_transfer (make_id "fee" run_id) caller fee.fee_address 0 fee run_id in
        ground (
          arith,
          follow-Keeps (Both Stored) (committing (apply_wallet_transfer t) c)
              (λ _. insert_fee_ledger fee)
              (committing-Keeps Stored (apply_wallet_transfer t) (transfer-Keeps t) c h)
              (λ _. fee-Keeps fee),
        )

    abbrev listing_row : String → ListingRequest → Listing
    listing_row run_id v = record {
      listing_id = make_id "listing" run_id;
      publisher_id = v.publisher_id;
      sku = v.sku;
      title = v.title;
      price = v.price;
      active = true;
      run_id = run_id;
    }

    publish_listing-Keeps :
        (run_id : String) (p : Fields) (caller : String)
        → make_id "listing" run_id ≢ id
        → Keeps (Both Stored) (publish_listing str route_fee make_id run_id p caller)
    unfolding publish_listing
    publish_listing-Keeps run_id p caller ne c h =
        check-Keeps (Both Stored) (validate_listing_payload str p) c _ h λ v.
          check-Keeps (Both Stored) (check_caller caller v.publisher_id "publisher_id mismatch") c _
            h
            λ _.
              check-Keeps (Both Stored)
                (route_fee "marketplace" "listing_publish" (integers v.fields) run_id) c _ h
                λ fee.
                  follow-Keeps (Both Stored)
                    (check_balance caller fee.total_paid "insufficient NYXT balance for fee" c) _
                    (balance-Keeps caller _ _ c h)
                    λ _ c₁ h₁.
                      let r = listing_row run_id v in
                      follow-Keeps (Both Stored) (insert_listing r c₁) _ (listing-Keeps r ne c₁ h₁)
                        λ _. charge_fee-Keeps caller fee run_id

    settle_purchase-Keeps :
        (run_id : String) (v : PurchaseRequest) (r : Listing) (fee : FeeLedger)
        → l.active ≡ false
        → Keeps (Both Stored) (settle_purchase str route_fee make_id run_id v r fee)
    unfolding settle_purchase
    settle_purchase-Keeps run_id v r fee sold c h =
        let t = payment make_id run_id v r fee in
        follow-Keeps (Both Stored) (committing (apply_wallet_transfer t) c) _
          (committing-Keeps Stored (apply_wallet_transfer t) (transfer-Keeps t) c h)
          λ _ c₁ h₁.
            let row = purchase_row make_id run_id v in
            follow-Keeps (Both Stored) (insert_purchase row c₁) _ (purchase-Keeps row c₁ h₁)
              λ _ c₂ h₂.
                follow-Keeps (Both Stored) (sell_listing v.listing_id c₂) _
                  (sell-Keeps v.listing_id sold c₂ h₂) λ _. fee-Keeps fee

    purchase_listing-Keeps :
        (run_id : String) (p : Fields) (caller : String)
        → l.active ≡ false
        → Keeps (Both Stored) (purchase_listing str route_fee make_id run_id p caller)
    unfolding purchase_listing
    purchase_listing-Keeps run_id p caller sold c h =
        check-Keeps (Both Stored) (validate_purchase_payload str p) c _ h λ v.
          check-Keeps (Both Stored) (check_caller caller v.buyer_id "buyer_id mismatch") c _ h λ _.
            follow-Keeps (Both Stored) (load_listing v.listing_id c) _ (load-Keeps v.listing_id c h)
              λ o c₁ h₁.
                check-Keeps (Both Stored) (or_raise o (gateway "listing_id not found")) c₁ _ h₁ λ r.
                  check-Keeps (Both Stored)
                    (raise_if (not r.active) (gateway "listing not available")) c₁ _ h₁
                    λ _.
                      check-Keeps (Both Stored)
                        (route_fee "marketplace" "purchase_listing" (integers v.fields) run_id) c₁ _
                        h₁
                        λ fee.
                          follow-Keeps (Both Stored)
                            (check_balance caller (r.price * v.qty + fee.total_paid)
                              "insufficient NYXT balance for amount + fee" c₁)
                            _ (balance-Keeps caller _ _ c₁ h₁)
                            λ _. settle_purchase-Keeps run_id v r fee sold

    -- A request that does not publish under the listing's own id.
    abbrev pub Spares : Request → Type 0
    Spares (publish run_id _ _) = make_id "listing" run_id ≢ id
    Spares (purchase _ _ _) = Unit

    serve_all-Stored :
        (qs : List Request) (db : Db)
        → l.active ≡ false
        → All Spares qs
        → Stored db
        → Stored (serve_all str route_fee make_id qs db)
    unfolding serve serve_all
    serve_all-Stored [] db sold hs h = h
    serve_all-Stored (publish run_id p caller ∷ qs) db sold hs h = serve_all-Stored qs _ sold hs.1 (
        request-Keeps Stored (publish_listing str route_fee make_id run_id p caller)
          (publish_listing-Keeps run_id p caller hs.0) db h)
    serve_all-Stored (purchase run_id p caller ∷ qs) db sold hs h =
        serve_all-Stored qs _ sold hs.1 (
          request-Keeps Stored (purchase_listing str route_fee make_id run_id p caller)
            (purchase_listing-Keeps run_id p caller sold) db h)

    -- A listing that is sold stays as it is under every sequence of requests to publish and to
    -- purchase, failed ones included, none of which publishes under its id; and no request to
    -- purchase it returns after them.
    pub serve_all-sold :
        (qs : List Request) (db db' : Db) (run_id : String) (p : Fields) (caller : String)
        (v : PurchaseRequest) (u : Unit {0})
        → l.active ≡ false
        → All Spares qs
        → select_one listing_key id db.listings ≡ some l
        → validate_purchase_payload str p ≡ ok v
        → v.listing_id ≡ id
        → (select_one listing_key id (serve_all str route_fee make_id qs db).listings ≡ some l)
          × (request
                (purchase_listing str route_fee make_id run_id p caller)
                (serve_all str route_fee make_id qs db)
              ≢ (ok u, db'))
    serve_all-sold qs db db' run_id p caller v u sold hs h asked named =
        let stored = serve_all-Stored qs db sold hs h in
        (
          stored,
          λ e.
              let (c, e₁, _) =
                request-ok (purchase_listing str route_fee make_id run_id p caller)
                  (serve_all str route_fee make_id qs db) db' u e in
              let (v', l', fee, start, b, w) =
                purchase_listing-ok make_id str route_fee run_id p caller _ c u e₁ in
              ground (arith, w.asked, w.found, w.active),
        )
