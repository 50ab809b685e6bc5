-- ===== src/Gateway/Exchange/Tests.antt =====
-- The theorems of the exchange at concrete orders.
use nyx_dirty_and_develop.Base.{
  ℕ, ◌≤◌, ◌≡◌, refl, ◌≢◌, List, [], ◌∷◌, String, text_append, text_ne, text_discrete, fullmatch,
  arith, All, Result, ok,
}
use nyx_dirty_and_develop.Gateway.Monad.{Error}
use nyx_dirty_and_develop.Gateway.Validate.{
  validate_text, validate_wallet_address, validate_asset, validate_int,
}
use nyx_dirty_and_develop.Gateway.Wallet.{
  validate_account, ensure_wallet_account, get_wallet_balance, set_wallet_balance, exists_row,
  balance_of, insert_or_ignore, update, supply, validate_transfer, take_from, settle, move_funds,
}
use nyx_dirty_and_develop.Gateway.Tables.{delete, insert_or_replace, update_where}
use nyx_dirty_and_develop.Gateway.Store.{
  empty_db, Db, Conn, buy, sell, is_open, Order, OrderRow, Trade,
}
use nyx_dirty_and_develop.Gateway.Transfers.{
  validate_transfer_row, insert_wallet_transfer, apply_wallet_transfer,
}
use nyx_dirty_and_develop.Gateway.Orders.{
  validate_order, insert_order, update_order_amount, update_order_status, insert_trade, select,
  list_orders,
}
use nyx_dirty_and_develop.Gateway.Orders.Sorting
use nyx_dirty_and_develop.Gateway.Exchange.Book.{fetch_opposites, crosses, trade_base}
use nyx_dirty_and_develop.Gateway.Exchange.Matching.{execute_trade, match_rows, fill_order}
use nyx_dirty_and_develop.Gateway.Exchange.Place.{
  ExchangeResult, check_funds, try_fill, place_order, cancel_order,
}
use nyx_dirty_and_develop.Gateway.Exchange.Fills.{paid, IsFill, place_order-fills}
use nyx_dirty_and_develop.Gateway.Exchange.Money.{match_rows-supply}
use nyx_dirty_and_develop.Gateway.Exchange.Atomic.{IsAtomic, place_order-IsAtomic}
use nyx_dirty_and_develop.Gateway.Exchange.Blocked.{match_rows_remnant, cancel_order_unlisted}

abbrev fee : String
fee = "fee_wallet"

abbrev trade_name : String → String → ℕ → String
trade_name order counter amount = text_append order counter

-- An ask of 5 at 2, and a bid of 10 at 3.
abbrev ask : OrderRow
ask = record {
  order_id = "ask1";
  owner_address = "alice_wallet";
  side = sell;
  amount = 5;
  price = 2;
  asset_in = "ECHO";
  asset_out = "NYXT";
  status = is_open;
  run_id = "run1";
}

abbrev bid : Order
bid = record {
  order_id = "bid1";
  owner_address = "bob_wallet";
  side = buy;
  amount = 10;
  price = 3;
  asset_in = "NYXT";
  asset_out = "ECHO";
  run_id = "run2";
}

abbrev market : Db
market = record empty_db {
  accounts =
      record { address = "alice_wallet"; asset_id = "ECHO"; balance = 8 }
      ∷ record { address = "bob_wallet"; asset_id = "NYXT"; balance = 12 }
      ∷ [];
  orders = ask ∷ [];
}

abbrev open_market : Conn
open_market = record { committed = market; working = market }

abbrev placed : Result Error ExchangeResult × Conn
placed = place_order fee trade_name bid open_market

abbrev fill : Trade
fill = record { trade_id = "bid1ask1-t"; order_id = "bid1"; amount = 5; price = 2; run_id = "run2" }

placed_ok : placed ≡ (ok (record { order = bid; trades = fill ∷ [] }), placed.1)
unfolding Sorting.sort place_order check_funds try_fill fill_order fetch_opposites crosses
    trade_base execute_trade match_rows validate_order insert_order update_order_amount
    update_order_status insert_trade select list_orders validate_transfer_row insert_wallet_transfer
    apply_wallet_transfer delete insert_or_replace update_where validate_account
    ensure_wallet_account get_wallet_balance set_wallet_balance exists_row balance_of
    insert_or_ignore update validate_transfer take_from settle move_funds validate_text
    validate_wallet_address validate_asset validate_int text_discrete fullmatch
placed_ok = refl

place_order-fills_example : (bid ≡ bid) × (paid buy (fill ∷ []) ≤ 10) × All (IsFill bid) (fill ∷ [])
place_order-fills_example =
    place_order-fills fee trade_name bid open_market placed.1
      (record { order = bid; trades = fill ∷ [] }) placed_ok

place_order-IsAtomic_example :
    IsAtomic fee trade_name bid open_market placed.1
      (ok (record { order = bid; trades = fill ∷ [] }))
place_order-IsAtomic_example =
    place_order-IsAtomic fee trade_name bid open_market placed.1
      (ok (record { order = bid; trades = fill ∷ [] })) placed_ok

abbrev matched : Result Error (ℕ × List Trade) × Db
matched = match_rows fee trade_name bid (ask ∷ []) 10 market

matched_ok : matched ≡ (ok (0, fill ∷ []), matched.1)
unfolding crosses trade_base execute_trade match_rows update_order_amount update_order_status
    insert_trade validate_transfer_row insert_wallet_transfer apply_wallet_transfer delete
    insert_or_replace update_where validate_account ensure_wallet_account get_wallet_balance
    set_wallet_balance exists_row balance_of insert_or_ignore update validate_transfer take_from
    settle move_funds validate_text validate_wallet_address validate_asset validate_int
    text_discrete fullmatch
matched_ok = refl

bob_pays_no_fees : bid.owner_address ≢ fee
unfolding text_discrete
bob_pays_no_fees = text_ne _ _ refl

alice_pays_no_fees : ask.owner_address ≢ fee
unfolding text_discrete
alice_pays_no_fees = text_ne _ _ refl

match_rows-supply_example : supply "NYXT" matched.1.accounts ≡ supply "NYXT" market.accounts
match_rows-supply_example =
    match_rows-supply fee trade_name bid (ask ∷ []) 10 0 (fill ∷ []) "NYXT" market matched.1
      bob_pays_no_fees (alice_pays_no_fees, tt) matched_ok

abbrev traded : Result Error (Unit {0}) × Db
traded = execute_trade fee trade_name bid ask 5 market

traded_ok : traded ≡ (ok tt, traded.1)
unfolding execute_trade update_order_amount update_order_status insert_trade validate_transfer_row
    insert_wallet_transfer apply_wallet_transfer delete insert_or_replace update_where
    validate_account ensure_wallet_account get_wallet_balance set_wallet_balance exists_row
    balance_of insert_or_ignore update validate_transfer take_from settle move_funds validate_text
    validate_wallet_address validate_asset validate_int text_discrete fullmatch
traded_ok = refl

-- A bid with 1 left of its NYXT, at 3, stops an ask of 4 at 2.
abbrev remnant : OrderRow
remnant = record {
  order_id = "bid2";
  owner_address = "carol_wallet";
  side = buy;
  amount = 1;
  price = 3;
  asset_in = "NYXT";
  asset_out = "ECHO";
  status = is_open;
  run_id = "run3";
}

abbrev seller : Order
seller = record {
  order_id = "ask2";
  owner_address = "alice_wallet";
  side = sell;
  amount = 4;
  price = 2;
  asset_in = "ECHO";
  asset_out = "NYXT";
  run_id = "run4";
}

match_rows_remnant_example :
    match_rows fee trade_name seller (remnant ∷ []) 4 market ≡ (ok (4, []), market)
match_rows_remnant_example =
    match_rows_remnant fee trade_name seller remnant [] 4 market refl (omega arith)

abbrev withdrawn : Result Error (Unit {0}) × Conn
withdrawn = cancel_order "ask1" open_market

withdrawn_ok : withdrawn ≡ (ok tt, withdrawn.1)
unfolding cancel_order update_order_status update_where validate_text text_discrete fullmatch
withdrawn_ok = refl

cancel_order_unlisted_example :
    (withdrawn.1.committed ≡ withdrawn.1.working)
    × All
        (λ (r : OrderRow). r.order_id ≢ "ask1")
        (select sell "ECHO" "NYXT" withdrawn.1.working.orders)
cancel_order_unlisted_example =
    cancel_order_unlisted "ask1" "ECHO" "NYXT" sell open_market withdrawn.1 tt withdrawn_ok
