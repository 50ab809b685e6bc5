-- ===== src/Gateway/Orders.antt =====
-- The tables `orders` and `trades` of storage.py.
use nyx_dirty_and_develop.Base
use nyx_dirty_and_develop.Base.{
  ℕ, Bool, true, false, not, ◌&&◌, ◌||◌, List, [], ◌∷◌, String, text_eq, text_append, ltb, ◌==◌,
  take, if◌then◌else◌,
}
use nyx_dirty_and_develop.Base.Int.{pos}
use nyx_dirty_and_develop.Gateway.Monad.{M, check, gets, modify, ◌>>=◌, ◌>>◌}
use nyx_dirty_and_develop.Gateway.Validate.{
  Checked, validate_text, validate_wallet_address, validate_int,
}
use nyx_dirty_and_develop.Gateway.Wallet.{bind_integer}
use nyx_dirty_and_develop.Gateway.Tables.{insert_or_replace, update_where}
use nyx_dirty_and_develop.Gateway.Store.{
  Db, Side, buy, sell, Status, is_open, filled, cancelled, Order, OrderRow, Trade,
}
use Prim.Native.Nat.{Ordering}
use Prim.Native.String.{compare}
pub mod Sorting

abbrev pub order_key : OrderRow → String
order_key r = r.order_id

abbrev pub trade_key : Trade → String
trade_key r = r.trade_id

-- The checks of `insert_order`; those of the side cannot fail.
unfoldable pub validate_order : Order → Checked (Unit {0})
validate_order o = Base.◌>>◌ (validate_text o.order_id "order_id") (
    Base.◌>>◌ (validate_wallet_address o.owner_address "owner_address") (
      Base.◌>>=◌ (validate_int (pos o.amount) "amount" 1) λ _.
        Base.◌>>=◌ (validate_int (pos o.price) "price" 1) λ _.
          Base.◌>>◌ (validate_text o.asset_in "asset_in")
            (Base.◌>>◌ (validate_text o.asset_out "asset_out") (validate_text o.run_id "run_id"))))

-- The row of a new order: the column `status` has the default 'open'.
abbrev pub open_row : Order → OrderRow
open_row o = record {
  order_id = o.order_id;
  owner_address = o.owner_address;
  side = o.side;
  amount = o.amount;
  price = o.price;
  asset_in = o.asset_in;
  asset_out = o.asset_out;
  status = is_open;
  run_id = o.run_id;
}

unfoldable pub insert_order : Order → M Db (Unit {0})
insert_order o = do
  check (validate_order o)
  bind_integer o.amount
  bind_integer o.price
  modify (λ db. record db { orders = insert_or_replace order_key (open_row o) db.orders })

-- `_validate_int(new_amount, "amount", 0)` passes: the callers' differences are natural numbers.
unfoldable pub update_order_amount : String → ℕ → M Db (Unit {0})
update_order_amount id amount = do
  check (validate_text id "order_id")
  bind_integer amount
  modify (λ db. record db {
    orders = update_where order_key id (λ r. record r { amount = amount }) db.orders;
  })

unfoldable pub update_order_status : String → Status → M Db (Unit {0})
update_order_status id status = do
  check (validate_text id "order_id")
  modify (λ db. record db {
    orders = update_where order_key id (λ r. record r { status = status }) db.orders;
  })

abbrev pub validate_trade : Trade → Checked (Unit {0})
validate_trade t = Base.◌>>◌ (validate_text t.trade_id "trade_id") (
    Base.◌>>◌ (validate_text t.order_id "order_id") (
      Base.◌>>=◌ (validate_int (pos t.amount) "amount" 1) λ _.
        Base.◌>>=◌ (validate_int (pos t.price) "price" 1) λ _. (validate_text t.run_id "run_id")))

unfoldable pub insert_trade : Trade → M Db (Unit {0})
insert_trade t = do
  check (validate_trade t)
  bind_integer t.amount
  bind_integer t.price
  modify (λ db. record db { trades = insert_or_replace trade_key t db.trades })

abbrev pub same_side : Side → Side → Bool
same_side buy buy = true
same_side sell sell = true
same_side _ _ = false

abbrev pub is_live : Status → Bool
is_live is_open = true
is_live _ = false

-- SQLite's order of texts, and `ORDER BY price ASC | DESC, order_id ASC`
abbrev pub text_before : String → String → Bool
text_before s t = elim (compare s t) [ Ordering.gt ↦ false | _ ↦ true ]

abbrev pub asc : OrderRow → OrderRow → Bool
asc r q = ltb r.price q.price || (r.price == q.price && text_before r.order_id q.order_id)

abbrev pub desc : OrderRow → OrderRow → Bool
desc r q = ltb q.price r.price || (r.price == q.price && text_before r.order_id q.order_id)

-- `WHERE side = … AND asset_in = … AND asset_out = … AND status = 'open'`
unfoldable pub select : Side → String → String → List OrderRow → List OrderRow
select side asset_in asset_out [] = []
select side asset_in asset_out (r ∷ rs) =
    if same_side r.side side
      && text_eq r.asset_in asset_in
      && text_eq r.asset_out asset_out
      && is_live r.status
    then r ∷ select side asset_in asset_out rs
    else select side asset_in asset_out rs

-- `list_orders`, as the exchange calls it: open orders, the limit at its default of 100
unfoldable pub list_orders :
    Side → String → String → (OrderRow → OrderRow → Bool) → M Db (List OrderRow)
list_orders side asset_in asset_out before = do
  check (validate_text asset_in "asset_in")
  check (validate_text asset_out "asset_out")
  gets (λ db. take 100 (Sorting.sort before (select side asset_in asset_out db.orders)))
