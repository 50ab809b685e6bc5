-- ===== src/Gateway/Exchange/Place.antt =====
-- `place_order` and `cancel_order`.
use nyx_dirty_and_develop.Base.{ℕ, List, String, ltb}
use nyx_dirty_and_develop.Gateway.Monad.{M, exchange, pure, fail_if, ◌>>=◌, ◌>>◌}
use nyx_dirty_and_develop.Gateway.Wallet.{get_wallet_balance, insufficient}
use nyx_dirty_and_develop.Gateway.Store.{
  Db, Conn, cancelled, Order, Trade, on_accounts, on_working, commit, committing, or_rollback,
}
use nyx_dirty_and_develop.Gateway.Orders.{update_order_status}
use nyx_dirty_and_develop.Gateway.Exchange.Matching.{fill_order}

pub record ExchangeResult : Type 0 where
  pub order : Order
  pub trades : List Trade

-- The balance check before the `try`
unfoldable pub check_funds : Order → M Db (Unit {0})
check_funds o = do
  current_balance ← on_accounts (get_wallet_balance o.owner_address o.asset_in)
  fail_if (ltb current_balance o.amount) (exchange (insufficient o.asset_in))

module _ (fee_address : String) (trade_id : String → String → ℕ → String) where
  -- The `try` statement
  unfoldable pub try_fill : Order → M Conn ExchangeResult
  try_fill o c = or_rollback (
      (do
        trades ← on_working (fill_order fee_address trade_id o)
        commit
        pure (record { order = o; trades = trades }))
        c)

  unfoldable pub place_order : Order → M Conn ExchangeResult
  place_order o = do on_working (check_funds o); try_fill o

unfoldable pub cancel_order : String → M Conn (Unit {0})
cancel_order id = committing (update_order_status id cancelled)
