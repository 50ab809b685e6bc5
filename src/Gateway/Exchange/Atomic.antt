-- ===== src/Gateway/Exchange/Atomic.antt =====
-- What `place_order` and `cancel_order` leave in the database when they raise.
use nyx_dirty_and_develop.Base.{ℕ, ◌≡◌, ◌⊎◌, arith, List, String, Result, ok, err}
use nyx_dirty_and_develop.Gateway.Monad.{Error, follow-eq-ok}
use nyx_dirty_and_develop.Gateway.Store.{
  Conn, Order, Trade, on_working, on_working-ok, or_rollback-ok,
}
use nyx_dirty_and_develop.Gateway.Exchange.Matching.{fill_order}
use nyx_dirty_and_develop.Gateway.Exchange.Place.{
  ExchangeResult, check_funds, try_fill, place_order,
}

module _ (fee_address : String) (trade_id : String → String → ℕ → String) where
  -- What a call of `place_order` from `c` leaves in `c'`, by its outcome.
  abbrev pub IsAtomic : Order → Conn → Conn → Result Error ExchangeResult → Type 0
  IsAtomic o c c' (ok _) =
      (c'.working ≡ (fill_order fee_address trade_id o (check_funds o c.working).1).1)
      × (c'.committed ≡ c'.working)
  IsAtomic o c c' (err _) =
      (c'.committed ≡ c.committed)
      × ((c'.working ≡ c.committed) ⊎ (c'.working ≡ (check_funds o c.working).1))

  -- A `place_order` that returns has committed exactly what the balance check and the matching
  -- wrote. One that raises has committed nothing, and what the connection sees is the last
  -- commit, or what the balance check left.
  pub place_order-IsAtomic :
      (o : Order) (c c' : Conn) (r : Result Error ExchangeResult)
      → place_order fee_address trade_id o c ≡ (r, c')
      → IsAtomic o c c' r
  unfolding place_order try_fill
  place_order-IsAtomic o c c' r h = ground arith

  -- Inversion of the `try` statement.
  pub try_fill-ok :
      (o : Order) (c c' : Conn) (res : ExchangeResult)
      → try_fill fee_address trade_id o c ≡ (ok res, c')
      → (trades : List Trade) × (fill_order fee_address trade_id o c.working
          ≡ (ok trades, c'.working))
        × (res ≡ record { order = o; trades = trades })
        × (c'.committed ≡ c'.working)
  unfolding try_fill
  try_fill-ok o c c' res h =
      let (trades, c₁, e₁, h₁) =
        follow-eq-ok (on_working (fill_order fee_address trade_id o) c) _
          (or_rollback-ok _ res c' h) in
      let (e, ec) = on_working-ok (fill_order fee_address trade_id o) c c₁ trades e₁ in
      (trades, ground arith, ground arith, ground arith)
