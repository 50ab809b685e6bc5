-- ===== src/Gateway/Dispatch/Tests.antt =====
-- The theorems on the requests of the exchange at concrete orders.
use nyx_dirty_and_develop.Base.{
  ℕ, ◌+◌, ◌<◌, ◌≡◌, ◌≢◌, refl, arith, true, [], ◌∷◌, String, text_eq, text_ne, text_append,
  text_discrete, fullmatch, strip, none, some, Result, ok, err, if◌then◌else◌,
}
use nyx_dirty_and_develop.Base.Int.{pos}
use nyx_dirty_and_develop.Fees.{Payload}
use nyx_dirty_and_develop.Gateway.Monad.{Error, gateway}
use nyx_dirty_and_develop.Gateway.Validate.{
  Checked, validate_text, validate_wallet_address, validate_asset, validate_int,
}
use nyx_dirty_and_develop.Gateway.Fields.{
  Value, text, number, Fields, is_supported_asset, validate_address_text, require_int,
}
use nyx_dirty_and_develop.Gateway.Tables.{select_one, delete, insert_or_replace, update_where}
use nyx_dirty_and_develop.Gateway.Wallet.{
  validate_account, ensure_wallet_account, get_wallet_balance, set_wallet_balance, exists_row,
  balance_of, insert_or_ignore, update, supply, validate_transfer, take_from, settle, move_funds,
}
use nyx_dirty_and_develop.Gateway.Transfers.{
  validate_transfer_row, insert_wallet_transfer, apply_wallet_transfer,
}
use nyx_dirty_and_develop.Gateway.Orders.{order_key, update_order_status}
use nyx_dirty_and_develop.Gateway.Exchange.{cancel_order}
use nyx_dirty_and_develop.Gateway.Inserts.{insert_fee_ledger, insert_evidence_run, insert_receipt}
use nyx_dirty_and_develop.Gateway.Inserts.Laws.{both}
use nyx_dirty_and_develop.Gateway.Evidence.{EvidenceOutcome, run_and_record}
use nyx_dirty_and_develop.Gateway.Marketplace.Sales.{fee_key}
use nyx_dirty_and_develop.Gateway.Store.{
  Db, empty_db, Conn, FeeLedger, buy, is_open, cancelled, OrderRow, request,
}
use nyx_dirty_and_develop.Gateway.Dispatch.Defs.{
  OrderRequest, require_asset, side_of, validate_exchange_payload, validate_cancel, load_order,
  check_owner, check_cancel, pay_fee, cancel_and_pay, execute_place_order, execute_cancel_order,
}
use nyx_dirty_and_develop.Gateway.Dispatch.Orders.{
  execute_place_order_short, execute_cancel_order-cancels,
}

abbrev name_of : Value → String
name_of v = "value"

abbrev same_case : String → String
same_case s = s

abbrev trade_name : String → String → ℕ → String
trade_name a b n = text_append a b

abbrev the_fee : String → String → String → FeeLedger
the_fee module_name action run_id = record {
  fee_id = text_append "fee-" run_id;
  module_name = module_name;
  action = action;
  protocol_fee_total = 1;
  platform_fee_amount = 1;
  total_paid = 2;
  fee_address = "treasury";
  run_id = run_id;
}

abbrev flat_fee : String → String → Payload → String → Checked FeeLedger
flat_fee module_name action p run_id = ok (the_fee module_name action run_id)

abbrev id_of : String → String → String
id_of prefix run_id = text_append prefix (text_append "-" run_id)

abbrev outcome : EvidenceOutcome
outcome = record { state_hash = "0123456789abcdef"; receipt_hashes = "00" ∷ []; replay_ok = true }

abbrev resting : OrderRow
resting = record {
  order_id = "order-r0";
  owner_address = "alice";
  side = buy;
  amount = 4;
  price = 1;
  asset_in = "NYXT";
  asset_out = "ECHO";
  status = is_open;
  run_id = "r0";
}

abbrev floor : Db
floor = record empty_db {
  accounts = record { address = "alice"; asset_id = "NYXT"; balance = 5 } ∷ [];
  orders = resting ∷ [];
}

-- A payload, from its fields in a list.
abbrev fields : Fields
fields k =
    if text_eq k "side"
    then some (text "BUY")
    else if text_eq k "amount"
    then some (number (pos 4))
    else if text_eq k "price"
    then some (number (pos 1))
    else if text_eq k "asset_in"
    then some (text "NYXT")
    else if text_eq k "asset_out"
    then some (text "ECHO")
    else if text_eq k "owner_address"
    then some (text "alice")
    else none

abbrev bid : OrderRequest
bid = record {
  side = buy;
  amount = 4;
  price = 1;
  asset_in = "NYXT";
  asset_out = "ECHO";
  owner_address = "alice";
  fields = fields;
}

abbrev recorded : Result Error EvidenceOutcome × Conn
recorded = run_and_record id_of 1 "r1" "exchange" "place_order" (ok outcome) (both floor)

abbrev charged : Result Error (Unit {0}) × Conn
charged = insert_fee_ledger (the_fee "exchange" "place_order" "r1") recorded.1

bid_ok : validate_exchange_payload name_of same_case fields ≡ ok bid
unfolding validate_exchange_payload require_asset side_of require_int validate_address_text
    is_supported_asset text_discrete fullmatch strip
bid_ok = refl

recorded_ok : recorded ≡ (ok outcome, recorded.1)
unfolding run_and_record insert_evidence_run insert_receipt insert_or_replace delete validate_text
    validate_int text_discrete fullmatch
recorded_ok = refl

charged_ok : charged ≡ (ok tt, charged.1)
unfolding run_and_record insert_evidence_run insert_receipt insert_fee_ledger insert_or_replace
    delete validate_text validate_int text_discrete fullmatch
charged_ok = refl

named : ◌≢◌ {A = String} "alice" ""
unfolding text_discrete
named = text_ne _ _ refl

alice_valid : validate_account "alice" "NYXT" ≡ ok tt
unfolding validate_account validate_wallet_address validate_asset text_discrete fullmatch
alice_valid = refl

short : balance_of "alice" "NYXT" floor.accounts < 2 + (if text_eq "NYXT" "NYXT" then 4 else 0)
unfolding balance_of text_discrete
short = omega arith

execute_place_order_short_example :
    (db' : Db) × (request
        (execute_place_order name_of same_case flat_fee id_of "treasury" trade_name 1 "r1" fields
          "alice"
          (ok tt)
          (ok outcome))
        floor
      ≡ (err (gateway "insufficient NYXT balance for amount + fee"), db'))
    × (db'.accounts ≡ floor.accounts)
    × (db'.transfers ≡ floor.transfers)
    × (db'.orders ≡ floor.orders)
    × (db'.fees ≡ insert_or_replace fee_key (the_fee "exchange" "place_order" "r1") floor.fees)
unfolding text_discrete
execute_place_order_short_example =
    execute_place_order_short name_of same_case flat_fee id_of "treasury" trade_name 1 "r1" fields
      "alice" (ok outcome) floor bid outcome (the_fee "exchange" "place_order" "r1") recorded.1
      charged.1 bid_ok refl recorded_ok refl charged_ok named alice_valid short

abbrev withdraw : Fields
withdraw k = if text_eq k "order_id" then some (text "order-r0") else none

abbrev withdrawn : Result Error EvidenceOutcome × Db
withdrawn =
    request
      (execute_cancel_order name_of same_case flat_fee id_of "treasury" trade_name 1 "r1" withdraw
        "alice" (ok tt) (ok outcome))
      floor

withdrawn_ok : withdrawn ≡ (ok outcome, withdrawn.1)
unfolding run_and_record insert_evidence_run insert_receipt insert_fee_ledger insert_or_replace
    delete update_where select_one validate_text validate_int validate_wallet_address validate_asset
    text_discrete fullmatch strip validate_cancel load_order check_owner check_cancel pay_fee
    cancel_and_pay execute_cancel_order cancel_order update_order_status validate_transfer_row
    insert_wallet_transfer apply_wallet_transfer validate_account ensure_wallet_account
    get_wallet_balance set_wallet_balance exists_row balance_of insert_or_ignore update
    validate_transfer take_from settle move_funds
withdrawn_ok = refl

execute_cancel_order-cancels_example :
    (id : String) × (r : OrderRow) × (validate_cancel withdraw ≡ ok id)
    × (select_one order_key id floor.orders ≡ some r)
    × (r.owner_address ≡ "alice")
    × (r.status ≡ is_open)
    × ((j : String)
        → select_one order_key j withdrawn.1.orders ≡ (
            if text_eq id j
            then some (record r { status = cancelled })
            else select_one order_key j floor.orders))
    × (supply "NYXT" withdrawn.1.accounts ≡ supply "NYXT" floor.accounts)
execute_cancel_order-cancels_example =
    execute_cancel_order-cancels name_of same_case flat_fee id_of "treasury" trade_name 1 "r1"
      withdraw "alice" (ok tt) (ok outcome) floor withdrawn.1 outcome named withdrawn_ok
