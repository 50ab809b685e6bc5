-- ===== src/Gateway/Marketplace/Sales.antt =====
-- What a purchase that returns has done.
use nyx_dirty_and_develop.Base.{
  ℕ, ◌+◌, ◌*◌, ◌≤◌, ◌≡◌, refl, ◌≢◌, ◌∙◌, sym, Bool, true, false, not, Bool-cases, inl, inr, ltb,
  Option, arith, String, text_eq, ok, some, raise_if, raise_if-ok, or_raise, or_raise-ok,
}
use nyx_dirty_and_develop.Fees.{Payload}
use nyx_dirty_and_develop.Gateway.Monad.{M, gateway, follow-check, follow-eq-ok, fail_if-ok}
use nyx_dirty_and_develop.Gateway.Validate.{Checked}
use nyx_dirty_and_develop.Gateway.Fields.{
  Value, Fields, integers, PurchaseRequest, validate_purchase_payload,
}
use nyx_dirty_and_develop.Gateway.Tables.{select_one, insert_or_replace}
use nyx_dirty_and_develop.Gateway.Wallet.{
  Accounts, Transfer, Balances, balance_of, get_wallet_balance, move_funds,
}
use nyx_dirty_and_develop.Gateway.Wallet.Evaluate.{get-ok}
use nyx_dirty_and_develop.Gateway.Wallet.Moves.{Agrees, Agrees-ensure}
use nyx_dirty_and_develop.Gateway.Transfers.{apply_wallet_transfer, transfer_key, row_of}
use nyx_dirty_and_develop.Gateway.Transfers.Laws.{apply_wallet_transfer-ok}
use nyx_dirty_and_develop.Gateway.Inserts.{insert_purchase}
use nyx_dirty_and_develop.Gateway.Inserts.Laws.{both, insert_fee_ledger-ok, insert_purchase-ok}
use nyx_dirty_and_develop.Gateway.Store.{
  Db, Conn, FeeLedger, Listing, Purchase, on_accounts, on_accounts-ok, on_working, on_working-ok,
  committing,
}
use nyx_dirty_and_develop.Gateway.Marketplace.Defs.{
  check_caller, require_balance, check_balance, listing_key, load_listing, nyxt_transfer, mark_sold,
  sell_listing, settle_purchase, purchase_listing,
}

abbrev pub fee_key : FeeLedger → String
fee_key r = r.fee_id

abbrev pub purchase_key : Purchase → String
purchase_key r = r.purchase_id

-- What a balance check leaves: rows of balance 0 may be new.
abbrev pub Reads : Conn → Conn → Type 0
Reads c c' =
    (c' ≡ record c { working = record c.working { accounts = c'.working.accounts } })
    × Agrees c'.working.accounts c.working.accounts

pub Reads-from : (c d c' : Conn) → d ≡ c → Reads d c' → Reads c c'
Reads-from c d c' e r = rw e at r

pub require_balance-ok :
    (a s : String) (n : ℕ) (m : String) (c c' : Conn) (u : Unit {0})
    → require_balance a s n m c ≡ (ok u, c')
    → Reads c c' × (n ≤ balance_of a s c.working.accounts)
unfolding require_balance
require_balance-ok a s n m c c' u h =
    let (x, c₁, e₁, h₁) = follow-eq-ok (on_working (on_accounts (get_wallet_balance a s)) c) _ h in
    let (e₂, ec₁) = on_working-ok (on_accounts (get_wallet_balance a s)) c c₁ x e₁ in
    let (e₃, ed) = on_accounts-ok (get_wallet_balance a s) c.working c₁.working x e₂ in
    let (_, ex, er) = get-ok a s c.working.accounts c₁.working.accounts x e₃ in
    let (small, ec') = fail_if-ok (ltb x n) (gateway m) c₁ h₁ in
    (
      (
        ground (arith, ec', ec₁, ed),
        rw (ec', er)
            (Agrees-ensure a s c.working.accounts c.working.accounts ((λ b t. refl), λ t. refl)),
      ),
      ground arith,
    )

pub check_balance-ok :
    (a : String) (n : ℕ) (m : String) (c c' : Conn) (u : Unit {0})
    → check_balance a n m c ≡ (ok u, c')
    → Reads c c'
unfolding check_balance
check_balance-ok a n m c c' u h = elim (Bool-cases (text_eq a "")) [
  | inl e ↦ ground arith
  | inr e ↦ (require_balance-ok a "NYXT" n m c c' u (rw e at h)).0
]

load_listing-ok :
    (id : String) (c c' : Conn) (o : Option Listing)
    → load_listing id c ≡ (ok o, c')
    → (c' ≡ c) × (o ≡ select_one listing_key id c.working.listings)
unfolding load_listing
load_listing-ok id c c' o h = ground arith

pub committing-ok :
    {A : Type 0} (m : M Db A) (c c' : Conn) (a : A)
    → committing m c ≡ (ok a, c')
    → (m c.working ≡ (ok a, c'.working)) × (c' ≡ both c'.working)
committing-ok m c c' a h = ground arith

not-false : (b : Bool) → not b ≡ false → b ≡ true
not-false true h = refl
not-false false h = sym h

sell_listing-ok :
    (id : String) (c c' : Conn) (u : Unit {0})
    → sell_listing id c ≡ (ok u, c')
    → c' ≡ both (mark_sold id c.working)
unfolding sell_listing
sell_listing-ok id c c' u h = ground arith

-- What a purchase of `l`, asked for by `v`, leaves: the price and the fee have been paid, the
-- purchase is recorded, the listing is sold, and all of it is committed.
module _ (make_id : String → String → String) where
  abbrev pub payment : String → PurchaseRequest → Listing → FeeLedger → Transfer
  payment run_id v l fee =
      nyxt_transfer (make_id "purchase-xfer" run_id) v.buyer_id l.publisher_id (l.price * v.qty) fee
        run_id

  abbrev pub purchase_row : String → PurchaseRequest → Purchase
  purchase_row run_id v = record {
    purchase_id = make_id "purchase" run_id;
    listing_id = v.listing_id;
    buyer_id = v.buyer_id;
    qty = v.qty;
    run_id = run_id;
  }

  abbrev pub sold_db : String → PurchaseRequest → Listing → FeeLedger → Accounts → Db → Db
  sold_db run_id v l fee rs db = mark_sold v.listing_id (record db {
    accounts = rs;
    transfers =
        insert_or_replace transfer_key
          (row_of (payment run_id v l fee) (l.price * v.qty) fee.total_paid) db.transfers;
    purchases = insert_or_replace purchase_key (purchase_row run_id v) db.purchases;
    fees = insert_or_replace fee_key fee db.fees;
  })

  pub settle_purchase-ok :
      (str : Value → String) (route_fee : String → String → Payload → String → Checked FeeLedger)
      (run_id : String) (v : PurchaseRequest) (l : Listing) (fee : FeeLedger) (c c' : Conn)
      (u : Unit {0})
      → settle_purchase str route_fee make_id run_id v l fee c ≡ (ok u, c')
      → (b : Balances) × (v.buyer_id ≢ l.publisher_id)
        × (move_funds (payment run_id v l fee) (l.price * v.qty) fee.total_paid c.working.accounts
            ≡ (ok b, c'.working.accounts))
        × (c' ≡ both (sold_db run_id v l fee c'.working.accounts c.working))
  unfolding settle_purchase mark_sold
  settle_purchase-ok str route_fee run_id v l fee c c' u h =
      let t = payment run_id v l fee in
      let (b, c₁, e₁, h₁) = follow-eq-ok (committing (apply_wallet_transfer t) c) _ h in
      let (e₂, ec₁) = committing-ok (apply_wallet_transfer t) c c₁ b e₁ in
      let (amt, f, w) = apply_wallet_transfer-ok t c.working c₁.working b e₂ in
      let (u₂, c₂, e₃, h₂) = follow-eq-ok (insert_purchase (purchase_row run_id v) c₁) _ h₁ in
      let ec₂ = insert_purchase-ok (purchase_row run_id v) c₁ c₂ u₂ e₃ in
      let (u₃, c₃, e₄, h₃) = follow-eq-ok (sell_listing v.listing_id c₂) _ h₂ in
      let ec₃ = sell_listing-ok v.listing_id c₂ c₃ u₃ e₄ in
      let ec₄ = insert_fee_ledger-ok fee c₃ c' u h₃ in
      let price : amt ≡ l.price * v.qty = ground (arith, w.amount) in
      let cost : f ≡ fee.total_paid = ground (arith, w.fee_total) in
      (
        b,
        w.distinct,
        ground (arith, w.moved, ec₂, ec₃, ec₄),
        ground (arith, w.recorded, ec₁, ec₂, ec₃, ec₄),
      )

  -- The balance check has changed the balances alone.
  left_from :
      (run_id : String) (v : PurchaseRequest) (l : Listing) (fee : FeeLedger) (c d c' : Conn)
      → d ≡ record c { working = record c.working { accounts = d.working.accounts } }
      → c' ≡ both (sold_db run_id v l fee c'.working.accounts d.working)
      → c' ≡ both (sold_db run_id v l fee c'.working.accounts c.working)
  unfolding mark_sold
  left_from run_id v l fee c d c' e h = ground arith

  -- A purchase that returned, and the listing, the fee and the balances that it went by.
  pub record IsPurchase (str : Value → String)
      (route_fee : String → String → Payload → String → Checked FeeLedger) (run_id : String)
      (p : Fields) (c c' : Conn) (v : PurchaseRequest) (l : Listing) (fee : FeeLedger)
      (start : Accounts) (b : Balances) : Type 0 where
    pub asked : validate_purchase_payload str p ≡ ok v
    pub priced : route_fee "marketplace" "purchase_listing" (integers v.fields) run_id ≡ ok fee
    pub found : select_one listing_key v.listing_id c.working.listings ≡ some l
    pub active : l.active ≡ true
    pub distinct : v.buyer_id ≢ l.publisher_id
    pub agrees : Agrees start c.working.accounts
    pub moved :
        move_funds (payment run_id v l fee) (l.price * v.qty) fee.total_paid start
        ≡ (ok b, c'.working.accounts)
    pub left : c' ≡ both (sold_db run_id v l fee c'.working.accounts c.working)

  pub purchase_listing-ok :
      (str : Value → String) (route_fee : String → String → Payload → String → Checked FeeLedger)
      (run_id : String) (p : Fields) (caller : String) (c c' : Conn) (u : Unit {0})
      → purchase_listing str route_fee make_id run_id p caller c ≡ (ok u, c')
      → (v : PurchaseRequest) × (l : Listing) × (fee : FeeLedger) × (start : Accounts)
        × (b : Balances) × IsPurchase str route_fee run_id p c c' v l fee start b
  unfolding purchase_listing
  purchase_listing-ok str route_fee run_id p caller c c' u h =
      let (v, e₁, h₁) = follow-check (validate_purchase_payload str p) c _ h in
      let (u₂, e₂, h₂) = follow-check (check_caller caller v.buyer_id "buyer_id mismatch") c _ h₁ in
      let (o, c₃, e₃, h₃) = follow-eq-ok (load_listing v.listing_id c) _ h₂ in
      let (ec₃, eo) = load_listing-ok v.listing_id c c₃ o e₃ in
      let (l, e₄, h₄) = follow-check (or_raise o (gateway "listing_id not found")) c₃ _ h₃ in
      let (u₅, e₅, h₅) =
        follow-check (raise_if (not l.active) (gateway "listing not available")) c₃ _ h₄ in
      let (fee, e₆, h₆) =
        follow-check (route_fee "marketplace" "purchase_listing" (integers v.fields) run_id) c₃ _
          h₅ in
      let (u₇, c₇, e₇, h₇) =
        follow-eq-ok
          (check_balance caller (l.price * v.qty + fee.total_paid)
            "insufficient NYXT balance for amount + fee" c₃)
          _ h₆ in
      let (ec₇, same) = Reads-from c c₃ c₇ ec₃ (check_balance-ok caller _ _ c₃ c₇ u₇ e₇) in
      let (b, ne, moved, left) = settle_purchase-ok str route_fee run_id v l fee c₇ c' u h₇ in
      (
        v,
        l,
        fee,
        c₇.working.accounts,
        b,
        record {
          asked = e₁;
          priced = e₆;
          found = sym eo ∙ or_raise-ok o _ l e₄;
          active = not-false l.active (raise_if-ok _ _ u₅ e₅);
          distinct = ne;
          agrees = same;
          moved = moved;
          left = left_from run_id v l fee c c₇ c' ec₇ left;
        },
      )
