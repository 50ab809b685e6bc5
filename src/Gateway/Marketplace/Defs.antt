-- ===== src/Gateway/Marketplace/Defs.antt =====
-- `publish_listing` and `purchase_listing`. The fee of an action is that of fees.py, whose settings
-- and digests are fixed; `make_id` is `deterministic_id`. No caller is the empty text.
use nyx_dirty_and_develop.Base.{
  List, [], ◌∷◌, ℕ, ◌+◌, ◌*◌, ◌&&◌, true, false, not, ltb, Option, String, text_eq, raise_if,
  if◌then◌else◌, or_raise,
}
use nyx_dirty_and_develop.Base.Int.{pos}
use nyx_dirty_and_develop.Fees.{Payload}
use nyx_dirty_and_develop.Gateway.Monad.{
  M, gateway, pure, check, gets, modify, fail_if, ◌>>=◌, ◌>>◌,
}
use nyx_dirty_and_develop.Gateway.Validate.{Checked, validate_text}
use nyx_dirty_and_develop.Gateway.Fields.{
  Value, Fields, integers, PurchaseRequest, validate_listing_payload, validate_purchase_payload,
}
use nyx_dirty_and_develop.Gateway.Tables.{select_one, update_where}
use nyx_dirty_and_develop.Gateway.Wallet.{Transfer, get_wallet_balance}
use nyx_dirty_and_develop.Gateway.Transfers.{apply_wallet_transfer}
use nyx_dirty_and_develop.Gateway.Inserts.{insert_fee_ledger, insert_listing, insert_purchase}
use nyx_dirty_and_develop.Gateway.Store.{
  Db, Conn, FeeLedger, Listing, on_accounts, on_working, committing, request,
}

-- `if caller and payload[key] != caller: raise …`
abbrev pub check_caller : String → String → String → Checked (Unit {0})
check_caller caller value message =
    raise_if (not (text_eq caller "") && not (text_eq value caller)) (gateway message)

-- `if get_wallet_balance(…) < required: raise …`
unfoldable pub require_balance : String → String → ℕ → String → M Conn (Unit {0})
require_balance address asset required message = do
  balance ← on_working (on_accounts (get_wallet_balance address asset))
  fail_if (ltb balance required) (gateway message)

-- The check of the caller's balance, if there is a caller
unfoldable pub check_balance : String → ℕ → String → M Conn (Unit {0})
check_balance caller required message =
    if text_eq caller "" then pure tt else require_balance caller "NYXT" required message

abbrev pub listing_key : Listing → String
listing_key r = r.listing_id

-- `load_by_id(conn, "listings", "listing_id", value)`
unfoldable pub load_listing : String → M Conn (Option Listing)
load_listing value = do
  check (validate_text value "value")
  gets (λ c. select_one listing_key value c.working.listings)

-- A transfer of NYXT with the fee of an action.
abbrev pub nyxt_transfer : String → String → String → ℕ → FeeLedger → String → Transfer
nyxt_transfer id from to amount fee run_id = record {
  transfer_id = id;
  from_address = from;
  to_address = to;
  asset_id = "NYXT";
  amount = pos amount;
  fee_total = pos fee.total_paid;
  treasury_address = fee.fee_address;
  run_id = run_id;
}

-- `UPDATE listings SET status = 'sold' WHERE listing_id = ?`
unfoldable pub mark_sold : String → Db → Db
mark_sold id db = record db {
  listings = update_where listing_key id (λ r. record r { active = false }) db.listings;
}

unfoldable pub sell_listing : String → M Conn (Unit {0})
sell_listing id = committing (modify (mark_sold id))

-- A request to the marketplace: its run id, its payload, and the address of its caller.
pub data Request : Type 0 where
  publish purchase : String → Fields → String → Request

module _ (str : Value → String) (route_fee : String → String → Payload → String → Checked FeeLedger)
    (make_id : String → String → String) where
  -- The fee of an action is a transfer of 0 to the treasury, with the fee.
  unfoldable pub charge_fee : String → FeeLedger → String → M Conn (Unit {0})
  charge_fee caller fee run_id = if text_eq caller "" then pure tt else (do
    committing (
        apply_wallet_transfer
          (nyxt_transfer (make_id "fee" run_id) caller fee.fee_address 0 fee run_id))
    insert_fee_ledger fee)

  unfoldable pub publish_listing : String → Fields → String → M Conn (Unit {0})
  publish_listing run_id payload caller = do
    v ← check (validate_listing_payload str payload)
    check (check_caller caller v.publisher_id "publisher_id mismatch")
    fee ← check (route_fee "marketplace" "listing_publish" (integers v.fields) run_id)
    check_balance caller fee.total_paid "insufficient NYXT balance for fee"
    insert_listing (record {
      listing_id = make_id "listing" run_id;
      publisher_id = v.publisher_id;
      sku = v.sku;
      title = v.title;
      price = v.price;
      active = true;
      run_id = run_id;
    })
    charge_fee caller fee run_id

  -- `purchase_listing`, from the payment on
  unfoldable pub settle_purchase :
      String → PurchaseRequest → Listing → FeeLedger → M Conn (Unit {0})
  settle_purchase run_id v l fee = do
    committing (
        apply_wallet_transfer (
          nyxt_transfer (make_id "purchase-xfer" run_id) v.buyer_id l.publisher_id (l.price * v.qty)
            fee run_id))
    insert_purchase (record {
      purchase_id = make_id "purchase" run_id;
      listing_id = v.listing_id;
      buyer_id = v.buyer_id;
      qty = v.qty;
      run_id = run_id;
    })
    sell_listing v.listing_id
    insert_fee_ledger fee

  unfoldable pub purchase_listing : String → Fields → String → M Conn (Unit {0})
  purchase_listing run_id payload caller = do
    v ← check (validate_purchase_payload str payload)
    check (check_caller caller v.buyer_id "buyer_id mismatch")
    found ← load_listing v.listing_id
    l ← check (or_raise found (gateway "listing_id not found"))
    check (raise_if (not l.active) (gateway "listing not available"))
    fee ← check (route_fee "marketplace" "purchase_listing" (integers v.fields) run_id)
    check_balance caller (l.price * v.qty + fee.total_paid)
        "insufficient NYXT balance for amount + fee"
    settle_purchase run_id v l fee

  -- The database after a request, and after several.
  unfoldable pub serve : Request → Db → Db
  serve (publish run_id p caller) db = (request (publish_listing run_id p caller) db).1
  serve (purchase run_id p caller) db = (request (purchase_listing run_id p caller) db).1

  unfoldable pub serve_all : List Request → Db → Db
  serve_all [] db = db
  serve_all (q ∷ qs) db = serve_all qs (serve q db)
