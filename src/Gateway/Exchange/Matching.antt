-- ===== src/Gateway/Exchange/Matching.antt =====
-- The loop of `place_order`. The address of the treasury (a setting) and `_trade_id` (a SHA-256
-- digest) are parameters.
use nyx_dirty_and_develop.Base.{
  ℕ, ◌-◌, not, List, [], ◌∷◌, String, text_append, ◌==◌, if◌then◌else◌,
}
use nyx_dirty_and_develop.Base.Int.{pos}
use nyx_dirty_and_develop.Gateway.Monad.{M, pure, ◌>>=◌, ◌>>◌}
use nyx_dirty_and_develop.Gateway.Wallet.{Transfer}
use nyx_dirty_and_develop.Gateway.Store.{Db, filled, Order, OrderRow, Trade}
use nyx_dirty_and_develop.Gateway.Transfers.{apply_wallet_transfer}
use nyx_dirty_and_develop.Gateway.Orders.{
  insert_order, update_order_amount, update_order_status, insert_trade,
}
use nyx_dirty_and_develop.Gateway.Exchange.Book.{
  fetch_opposites, crosses, trade_base, taker_pays, maker_pays,
}

module _ (fee_address : String) (trade_id : String → String → ℕ → String) where
  abbrev pub trade_of : Order → OrderRow → ℕ → Trade
  trade_of o row base = record {
    trade_id = text_append (trade_id o.order_id row.order_id base) "-t";
    order_id = o.order_id;
    amount = base;
    price = row.price;
    run_id = o.run_id;
  }

  abbrev pub maker_trade : Order → OrderRow → ℕ → Trade
  maker_trade o row base = record {
    trade_id = text_append (trade_id o.order_id row.order_id base) "-m";
    order_id = row.order_id;
    amount = base;
    price = row.price;
    run_id = o.run_id;
  }

  abbrev pub to_maker : Order → OrderRow → ℕ → Transfer
  to_maker o row base = record {
    transfer_id = text_append (trade_id o.order_id row.order_id base) "-taker-to-maker";
    from_address = o.owner_address;
    to_address = row.owner_address;
    asset_id = o.asset_in;
    amount = pos (taker_pays o.side base row.price);
    fee_total = pos 0;
    treasury_address = fee_address;
    run_id = o.run_id;
  }

  abbrev pub to_taker : Order → OrderRow → ℕ → Transfer
  to_taker o row base = record {
    transfer_id = text_append (trade_id o.order_id row.order_id base) "-maker-to-taker";
    from_address = row.owner_address;
    to_address = o.owner_address;
    asset_id = o.asset_out;
    amount = pos (maker_pays o.side base row.price);
    fee_total = pos 0;
    treasury_address = fee_address;
    run_id = o.run_id;
  }

  -- One trade of `base` units with the maker of `row`: the money, the records, the maker's order.
  unfoldable pub execute_trade : Order → OrderRow → ℕ → M Db (Unit {0})
  execute_trade o row base = do
    _ ← apply_wallet_transfer (to_maker o row base)
    _ ← apply_wallet_transfer (to_taker o row base)
    insert_trade (trade_of o row base)
    insert_trade (maker_trade o row base)
    let left = row.amount - maker_pays o.side base row.price
    update_order_amount row.order_id left
    if left == 0 then update_order_status row.order_id filled else pure tt

  -- The loop, on the rows that are left: what remains of the order, and the trades.
  unfoldable pub match_rows : Order → List OrderRow → ℕ → M Db (ℕ × List Trade)
  match_rows o [] remaining = pure (remaining, [])
  match_rows o (row ∷ rows) remaining =
      let base = trade_base o.side remaining row.amount row.price in
      let left = remaining - taker_pays o.side base row.price in
      let next = match_rows o rows left in
      let skip = match_rows o rows remaining in
      if not (crosses o.side o.price row.price)
      then pure (remaining, [])
      else if row.price == 0
      then skip
      else if base == 0
      then pure (remaining, [])
      else (do
        execute_trade o row base
        (rest, trades) ← (if left == 0 then pure (left, []) else next)
        pure (rest, trade_of o row base ∷ trades))

  -- The body of the `try`, up to its commit
  unfoldable pub fill_order : Order → M Db (List Trade)
  fill_order o = do
    insert_order o
    rows ← fetch_opposites o
    (remaining, trades) ← match_rows o rows o.amount
    update_order_amount o.order_id remaining
    (if remaining == 0 then update_order_status o.order_id filled else pure tt)
    pure trades
