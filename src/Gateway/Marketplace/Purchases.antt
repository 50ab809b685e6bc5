-- ===== src/Gateway/Marketplace/Purchases.antt =====
-- A purchase that returns, from its payload to the tables: the listing, the money, the record.
use nyx_dirty_and_develop.Base.{
  ◌+◌, ◌-◌, ◌*◌, ◌≤◌, ◌≡◌, refl, ◌≢◌, ◌&&◌, true, false, arith, String, text_eq, text_discrete, ok,
  some, Option-cases, if◌then◌else◌,
}
use nyx_dirty_and_develop.Fees.{Payload}
use nyx_dirty_and_develop.Gateway.Validate.{Checked}
use nyx_dirty_and_develop.Gateway.Fields.{
  Value, Fields, integers, PurchaseRequest, validate_purchase_payload,
}
use nyx_dirty_and_develop.Gateway.Tables.{select_one, update_where, insert_or_replace}
use nyx_dirty_and_develop.Gateway.Tables.Laws.{
  select_one-insert_or_replace, select_one-update_where,
}
use nyx_dirty_and_develop.Gateway.Wallet.{Accounts, balance_of, supply}
use nyx_dirty_and_develop.Gateway.Wallet.Moves.{Agrees}
use nyx_dirty_and_develop.Gateway.Wallet.Conservation.{AreApart, move_funds_nyxt, move_funds-supply}
use nyx_dirty_and_develop.Gateway.Store.{Db, FeeLedger, Listing, request, request-ok}
use nyx_dirty_and_develop.Gateway.Marketplace.Defs.{listing_key, mark_sold, purchase_listing}
use nyx_dirty_and_develop.Gateway.Marketplace.Sales.{
  payment, purchase_row, purchase_key, purchase_listing-ok,
}

-- `status = 'sold'`
abbrev close : Listing → Listing
close r = record r { active = false }

module _ (str : Value → String) (route_fee : String → String → Payload → String → Checked FeeLedger)
    (make_id : String → String → String) where
  -- The tables before and after the purchase of `l` that `v` asks for, with `fee`.
  pub record IsSale (run_id : String) (v : PurchaseRequest) (l : Listing) (fee : FeeLedger)
      (db db' : Db) : Type 0 where
    pub found : select_one listing_key v.listing_id db.listings ≡ some l
    pub active : l.active ≡ true
    pub sold :
        (id : String)
        → select_one listing_key id db'.listings ≡ (
            if text_eq v.listing_id id
            then some (record l { active = false })
            else select_one listing_key id db.listings)
    pub recorded :
        select_one purchase_key (make_id "purchase" run_id) db'.purchases
        ≡ some (purchase_row make_id run_id v)
    pub affordable : l.price * v.qty + fee.total_paid ≤ balance_of v.buyer_id "NYXT" db.accounts
    pub paid :
        fee.fee_address ≢ v.buyer_id
        → fee.fee_address ≢ l.publisher_id
        → (a s : String)
        → balance_of a s db'.accounts ≡ (
            if text_eq fee.fee_address a && text_eq "NYXT" s
            then balance_of a s db.accounts + fee.total_paid
            else if text_eq l.publisher_id a && text_eq "NYXT" s
            then balance_of a s db.accounts + l.price * v.qty
            else if text_eq v.buyer_id a && text_eq "NYXT" s
            then balance_of a s db.accounts - (l.price * v.qty + fee.total_paid)
            else balance_of a s db.accounts)
    pub conserved :
        v.buyer_id ≢ fee.fee_address
        → l.publisher_id ≢ fee.fee_address
        → (s : String) → supply s db'.accounts ≡ supply s db.accounts

  sold_row :
      (v : PurchaseRequest) (l : Listing) (db db' : Db) (id : String)
      → db'.listings ≡ update_where listing_key v.listing_id close db.listings
      → select_one listing_key v.listing_id db.listings ≡ some l
      → select_one listing_key id db'.listings ≡ (
          if text_eq v.listing_id id
          then some (record l { active = false })
          else select_one listing_key id db.listings)
  sold_row v l db db' id e found = elim (text_discrete v.listing_id id) [
    | yes same ↦ rw e (
        ground (
          arith,
          same,
          found,
          select_one-update_where listing_key v.listing_id id close db.listings (λ r. refl),
        ))
    | no other ↦ rw e (
        ground (
          arith,
          other,
          Option-cases (select_one listing_key id db.listings),
          select_one-update_where listing_key v.listing_id id close db.listings (λ r. refl),
        ))
  ]

  paid_from :
      (v : PurchaseRequest) (l : Listing) (fee : FeeLedger) (start rs rs' : Accounts)
      → Agrees start rs
      → v.buyer_id ≢ l.publisher_id
      → ((a s : String)
          → balance_of a s rs' ≡ (
              if text_eq fee.fee_address a && text_eq "NYXT" s
              then balance_of fee.fee_address "NYXT" start + fee.total_paid
              else if text_eq l.publisher_id a && text_eq "NYXT" s
              then balance_of l.publisher_id "NYXT" start + l.price * v.qty
              else if text_eq v.buyer_id a && text_eq "NYXT" s
              then balance_of v.buyer_id "NYXT" start - (l.price * v.qty + fee.total_paid)
              else balance_of a s start))
      → fee.fee_address ≢ v.buyer_id
      → fee.fee_address ≢ l.publisher_id
      → (a s : String)
      → balance_of a s rs' ≡ (
          if text_eq fee.fee_address a && text_eq "NYXT" s
          then balance_of a s rs + fee.total_paid
          else if text_eq l.publisher_id a && text_eq "NYXT" s
          then balance_of a s rs + l.price * v.qty
          else if text_eq v.buyer_id a && text_eq "NYXT" s
          then balance_of a s rs - (l.price * v.qty + fee.total_paid)
          else balance_of a s rs)
  paid_from v l fee start rs rs' same ne after n₁ n₂ a s =
      let e = same.0 a s in ground (arith, after a s, e)

  -- A request to purchase that returns bought a listing that was active: in the database after it
  -- the listing is sold and no other has changed, the purchase is recorded, the buyer could pay
  -- the price times the quantity and the fee and has paid them to the publisher and to the
  -- treasury, no other balance has changed, and the supply of every asset is as before; the money
  -- where the treasury is neither the buyer nor the publisher.
  pub purchase_listing-IsSale :
      (run_id : String) (p : Fields) (caller : String) (db db' : Db) (u : Unit {0})
      → request (purchase_listing str route_fee make_id run_id p caller) db ≡ (ok u, db')
      → (v : PurchaseRequest) × (l : Listing) × (fee : FeeLedger) × (validate_purchase_payload str p
          ≡ ok v)
        × (route_fee "marketplace" "purchase_listing" (integers v.fields) run_id ≡ ok fee)
        × IsSale run_id v l fee db db'
  unfolding mark_sold
  purchase_listing-IsSale run_id p caller db db' u h =
      let (c', e, ed) =
        request-ok (purchase_listing str route_fee make_id run_id p caller) db db' u h in
      let (v, l, fee, start, b, w) =
        purchase_listing-ok make_id str route_fee run_id p caller _ c' u e in
      let t = payment make_id run_id v l fee in
      let (enough, after) =
        move_funds_nyxt t (l.price * v.qty) fee.total_paid start c'.working.accounts b refl
          w.moved in
      let listings : db'.listings ≡ update_where listing_key v.listing_id close db.listings =
        ground (arith, w.left, ed) in
      let purchases : db'.purchases
          ≡ insert_or_replace purchase_key (purchase_row make_id run_id v) db.purchases =
        ground (arith, w.left, ed) in
      let accounts : c'.working.accounts ≡ db'.accounts = ground (arith, w.left, ed) in
      (
        v,
        l,
        fee,
        w.asked,
        w.priced,
        record {
          found = w.found;
          active = w.active;
          sold = λ id. sold_row v l db db' id listings w.found;
          recorded = ground (
            arith,
            purchases,
            select_one-insert_or_replace purchase_key (make_id "purchase" run_id)
                (purchase_row make_id run_id v) db.purchases,
          );
          affordable = ground (arith, enough, w.agrees.0 v.buyer_id "NYXT");
          paid = λ n₁ n₂ a s. rw accounts at (
              paid_from v l fee start db.accounts c'.working.accounts w.agrees w.distinct after n₁
                n₂ a s);
          conserved = λ n₁ n₂ s.
              let apart : AreApart t = record {
                receiver = w.distinct;
                payer = λ _. n₁;
                payee = λ _. n₂;
              } in
              let kept =
                move_funds-supply t (l.price * v.qty) fee.total_paid start c'.working.accounts b s
                  apart w.moved in
              ground (arith, kept, w.agrees.1 s, accounts);
        },
      )
