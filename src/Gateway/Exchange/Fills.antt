-- ===== src/Gateway/Exchange/Fills.antt =====
-- The quantities of a match: what remains of an order, and the trades it got.
use nyx_dirty_and_develop.Base.{
  ℕ, ◌+◌, ◌-◌, ◌*◌, ◌/◌, ◌≤◌, ◌≡◌, refl, inl, inr, true, List, [], ◌∷◌, arith, String, All, ◌==◌,
  if◌then◌else◌, ok, min,
}
use nyx_dirty_and_develop.Gateway.Monad.{pure, follow-eq-ok}
use nyx_dirty_and_develop.Gateway.Store.{
  Db, Conn, on_working, filled, Side, buy, sell, Order, OrderRow, Trade,
}
use nyx_dirty_and_develop.Gateway.Exchange.Book.{
  fetch_opposites, crosses, trade_base, taker_pays, maker_pays,
}
use nyx_dirty_and_develop.Gateway.Exchange.Matching.{trade_of, match_rows, fill_order}
use nyx_dirty_and_develop.Gateway.Exchange.Place.{
  ExchangeResult, check_funds, try_fill, place_order,
}
use nyx_dirty_and_develop.Gateway.Exchange.Atomic.{try_fill-ok}
use nyx_dirty_and_develop.Gateway.Orders.{insert_order, update_order_amount, update_order_status}
use nyx_dirty_and_develop.Gateway.Exchange.Loop.{match_rows-cases}
use native.Mathlib.Nat.{div-mul-le_self}

min_mul : (a b p : ℕ) → min a b * p ≤ b * p
min_mul a b p = grind arith

-- A trade never takes more than remains of the order, nor more than the maker's order holds.
pub trade_base_bounds :
    (side : Side) (remaining opposite_amount price : ℕ)
    → (taker_pays side (trade_base side remaining opposite_amount price) price ≤ remaining)
      × (maker_pays side (trade_base side remaining opposite_amount price) price ≤ opposite_amount)
unfolding trade_base
trade_base_bounds buy remaining amount price = (
  omega (arith, min_mul amount (remaining / price) price, div-mul-le_self remaining price),
  omega arith,
)
trade_base_bounds sell remaining amount price = (
  omega arith,
  omega (arith, min_mul remaining (amount / price) price, div-mul-le_self amount price),
)

-- The total that the taker pays for its trades.
abbrev pub paid : Side → List Trade → ℕ
paid side [] = 0
paid side (t ∷ ts) = taker_pays side t.amount t.price + paid side ts

-- A trade of an order: not empty, and at a price within the order's limit.
pub record IsFill (o : Order) (t : Trade) : Type 0 where
  pub order_id : t.order_id ≡ o.order_id
  pub amount : 1 ≤ t.amount
  pub price : 1 ≤ t.price
  pub within : crosses o.side o.price t.price ≡ true

-- What a run of the loop returns is right for `remaining`.
abbrev pub AreFills : Order → ℕ → ℕ → List Trade → Type 0
AreFills o remaining rest trades = (paid o.side trades + rest ≡ remaining) × All (IsFill o) trades

module _ (fee_address : String) (trade_id : String → String → ℕ → String) where
  -- When the loop returns, what the trades cost and what remains add up to what there was, and
  -- every trade is a fill within the limit.
  pub match_rows-fills :
      (o : Order) (rows : List OrderRow) (remaining rest : ℕ) (trades : List Trade) (db db' : Db)
      → match_rows fee_address trade_id o rows remaining db ≡ (ok (rest, trades), db')
      → AreFills o remaining rest trades
  unfolding match_rows
  match_rows-fills o [] remaining rest trades db db' h = ground arith
  match_rows-fills o (row ∷ rows) remaining rest trades db db' h =
      let base = trade_base o.side remaining row.amount row.price in
      let left = remaining - taker_pays o.side base row.price in
      let (fits, _) = trade_base_bounds o.side remaining row.amount row.price in
      elim (match_rows-cases fee_address trade_id o row rows remaining rest trades db db' h) [
        | inl stop ↦ ground arith
        | inr (inl skip) ↦ match_rows-fills o rows remaining rest trades db db' skip
        | inr (inr trade) ↦
            let fill : IsFill o (trade_of fee_address trade_id o row base) = record {
              order_id = refl;
              amount = ground (arith, trade.some_base);
              price = ground (arith, trade.priced);
              within = trade.within;
            } in
            elim trade.last [
              | inl (_, e, none_later, _) ↦
                  rw (trade.both, none_later) (omega (arith, fits, e), (fill, tt))
              | inr more ↦
                  let (sum, later) =
                    match_rows-fills o rows left rest trade.later trade.after db' more in
                  rw trade.both (omega (arith, fits, sum), (fill, later))
            ]
      ]

  -- A `place_order` that returns gives back its order, with trades that are all within the limit
  -- and that together cost the taker no more than the amount of the order.
  pub place_order-fills :
      (o : Order) (c c' : Conn) (res : ExchangeResult)
      → place_order fee_address trade_id o c ≡ (ok res, c')
      → (res.order ≡ o) × (paid o.side res.trades ≤ o.amount) × All (IsFill o) res.trades
  unfolding place_order try_fill fill_order
  place_order-fills o c c' res h =
      let (_, c₁, _, h₁) = follow-eq-ok (on_working (check_funds o) c) _ h in
      let (trades, e₂, e₃, _) = try_fill-ok fee_address trade_id o c₁ c' res h₁ in
      let (_, d₃, _, h₃) = follow-eq-ok (insert_order o c₁.working) _ e₂ in
      let (rows, d₄, _, h₄) = follow-eq-ok (fetch_opposites o d₃) _ h₃ in
      let ((rest, ts), d₅, e₅, h₅) =
        follow-eq-ok (match_rows fee_address trade_id o rows o.amount d₄) _ h₄ in
      let (_, d₆, _, h₆) = follow-eq-ok (update_order_amount o.order_id rest d₅) _ h₅ in
      let (_, d₇, _, h₇) =
        follow-eq-ok ((if rest == 0 then update_order_status o.order_id filled else pure tt) d₆) _
          h₆ in
      let (sum, fills) = match_rows-fills o rows o.amount rest ts d₄ d₅ e₅ in
      let same : ts ≡ trades = ground arith in rw (e₃, ← same) (refl, omega (arith, sum), fills)
