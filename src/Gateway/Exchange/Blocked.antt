-- ===== src/Gateway/Exchange/Blocked.antt =====
-- Orders that stop the matching: an order of the taker's own, the remnant of a bid, and, as they
-- should not be seen at all, cancelled orders.
use nyx_dirty_and_develop.Base.{
  ℕ, ◌/◌, ◌<◌, ◌≡◌, ◌≢◌, List, [], ◌∷◌, arith, String, text_discrete, All, ok,
}
use nyx_dirty_and_develop.Gateway.Monad.{follow-eq-ok}
use nyx_dirty_and_develop.Gateway.Store.{Db, Conn, Side, sell, cancelled, Order, OrderRow}
use nyx_dirty_and_develop.Gateway.Transfers.{apply_wallet_transfer}
use nyx_dirty_and_develop.Gateway.Transfers.Laws.{apply_wallet_transfer-ok}
use nyx_dirty_and_develop.Gateway.Tables.{update_where}
use nyx_dirty_and_develop.Gateway.Orders.{order_key, select, update_order_status}
use nyx_dirty_and_develop.Gateway.Exchange.Book.{trade_base}
use nyx_dirty_and_develop.Gateway.Exchange.Matching.{to_maker, execute_trade, match_rows}
use nyx_dirty_and_develop.Gateway.Exchange.Place.{cancel_order}
use native.Mathlib.Nat.{div-lt_iff_lt-mul}

div_small : (n k : ℕ) → n < k → n / k ≡ 0
div_small n k h =
    omega (arith, (div-lt_iff_lt-mul {k = k} {x = n} {y = 1} (omega arith)).1 (omega arith))

module _ (fee_address : String) (trade_id : String → String → ℕ → String) where
  -- Nobody trades with an order of their own: such a trade raises.
  pub execute_trade_distinct :
      (o : Order) (row : OrderRow) (base : ℕ) (db db' : Db) (u : Unit {0})
      → execute_trade fee_address trade_id o row base db ≡ (ok u, db')
      → o.owner_address ≢ row.owner_address
  unfolding execute_trade
  execute_trade_distinct o row base db db' u h =
      let first = to_maker fee_address trade_id o row base in
      let (b, d, e, _) = follow-eq-ok (apply_wallet_transfer first db) _ h in
      let (_, _, w) = apply_wallet_transfer-ok first db d b e in w.distinct

  -- A seller's order ends at the first bid within its limit whose amount is below its price, with
  -- nothing traded, whatever bids come after it.
  pub match_rows_remnant :
      (o : Order) (row : OrderRow) (rows : List OrderRow) (remaining : ℕ) (db : Db)
      → o.side ≡ sell
      → row.amount < row.price
      → match_rows fee_address trade_id o (row ∷ rows) remaining db ≡ (ok (remaining, []), db)
  unfolding match_rows trade_base
  match_rows_remnant o row rows remaining db side small =
      let none_left : trade_base o.side remaining row.amount row.price ≡ 0 =
        rw side (omega (arith, div_small row.amount row.price small)) in
      ground (arith, none_left)

cancelled_rows :
    (id asset_in asset_out : String) (side : Side) (rs : List OrderRow)
    → All
        (λ (r : OrderRow). r.order_id ≢ id)
        (select side asset_in asset_out
          (update_where order_key id (λ r. record r { status = cancelled }) rs))
unfolding select update_where
cancelled_rows id asset_in asset_out side [] = tt
cancelled_rows id asset_in asset_out side (r ∷ rs) =
    let rest = cancelled_rows id asset_in asset_out side rs in
    elim (text_discrete r.order_id id) [
      | yes e ↦ ground (arith, rest)
      | no ne ↦ ground (arith, rest)
    ]

-- After a `cancel_order` that returns, no search of the book finds the order, in what is
-- committed and in what the connection sees.
pub cancel_order_unlisted :
    (id asset_in asset_out : String) (side : Side) (c c' : Conn) (u : Unit {0})
    → cancel_order id c ≡ (ok u, c')
    → (c'.committed ≡ c'.working)
      × All (λ (r : OrderRow). r.order_id ≢ id) (select side asset_in asset_out c'.working.orders)
unfolding cancel_order update_order_status
cancel_order_unlisted id asset_in asset_out side c c' u h =
    let e : c'.working.orders
        ≡ update_where order_key id (λ r. record r { status = cancelled }) c.working.orders =
      ground arith in
    (ground arith, rw e (cancelled_rows id asset_in asset_out side c.working.orders))
