-- ===== src/Gateway/Exchange/Book.antt =====
-- The arithmetic of a match, for the two branches of `place_order`.
use nyx_dirty_and_develop.Base.{ℕ, ◌*◌, ◌/◌, min, Bool, not, List, ltb}
use nyx_dirty_and_develop.Gateway.Monad.{M}
use nyx_dirty_and_develop.Gateway.Store.{Db, Side, buy, sell, Order, OrderRow}
use nyx_dirty_and_develop.Gateway.Orders.{asc, desc, list_orders}

-- `_fetch_opposites`
unfoldable pub fetch_opposites : Order → M Db (List OrderRow)
fetch_opposites o = elim o.side [
  | buy ↦ list_orders sell o.asset_out o.asset_in asc
  | sell ↦ list_orders buy o.asset_out o.asset_in desc
]

-- The two tests on the limit price: does the loop go on?
unfoldable pub crosses : Side → ℕ → ℕ → Bool
crosses buy limit opposite_price = not (ltb limit opposite_price)
crosses sell limit opposite_price = not (ltb opposite_price limit)

-- `trade_base`: a buyer's amounts are in quote, a seller's in base.
unfoldable pub trade_base : Side → ℕ → ℕ → ℕ → ℕ
trade_base buy remaining opposite_amount price = min opposite_amount (remaining / price)
trade_base sell remaining opposite_amount price = min remaining (opposite_amount / price)

-- What the taker pays, in its `asset_in`, and what the maker pays, in the taker's `asset_out`.
abbrev pub taker_pays : Side → ℕ → ℕ → ℕ
taker_pays buy base price = base * price
taker_pays sell base price = base

abbrev pub maker_pays : Side → ℕ → ℕ → ℕ
maker_pays buy base price = base
maker_pays sell base price = base * price
