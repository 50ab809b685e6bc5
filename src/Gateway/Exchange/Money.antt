-- ===== src/Gateway/Exchange/Money.antt =====
-- What the matching of an order does to the supply of each asset.
use nyx_dirty_and_develop.Base.{
  ℕ, ◌-◌, ◌==◌, ◌≡◌, refl, ◌∙◌, ◌≢◌, inl, inr, List, [], ◌∷◌, arith, String, All, if◌then◌else◌, ok,
}
use nyx_dirty_and_develop.Gateway.Monad.{pure, follow-eq-ok}
use nyx_dirty_and_develop.Gateway.Wallet.{supply}
use nyx_dirty_and_develop.Gateway.Store.{Db, Order, OrderRow, Trade, filled}
use nyx_dirty_and_develop.Gateway.Transfers.{apply_wallet_transfer}
use nyx_dirty_and_develop.Gateway.Transfers.Laws.{apply_wallet_transfer-supply}
use nyx_dirty_and_develop.Gateway.Orders.{insert_trade, update_order_amount, update_order_status}
use nyx_dirty_and_develop.Gateway.Exchange.Book.{trade_base, taker_pays, maker_pays}
use nyx_dirty_and_develop.Gateway.Exchange.Matching.{
  trade_of, maker_trade, to_maker, to_taker, execute_trade, match_rows,
}
use nyx_dirty_and_develop.Gateway.Exchange.Loop.{match_rows-cases}

-- The calls that write orders and trades leave the balances alone, and return only `tt`.
insert_trade-accounts :
    (t : Trade) (db db' : Db) (u : Unit {0})
    → insert_trade t db ≡ (ok u, db')
    → db'.accounts ≡ db.accounts
unfolding insert_trade
insert_trade-accounts t db db' u h = ground arith

update_order_amount-accounts :
    (id : String) (n : ℕ) (db db' : Db) (u : Unit {0})
    → update_order_amount id n db ≡ (ok u, db')
    → db'.accounts ≡ db.accounts
unfolding update_order_amount
update_order_amount-accounts id n db db' u h = ground arith

fill_status-accounts :
    (id : String) (n : ℕ) (db db' : Db) (u : Unit {0})
    → (if n == 0 then update_order_status id filled else pure tt) db ≡ (ok u, db')
    → db'.accounts ≡ db.accounts
unfolding update_order_status
fill_status-accounts id n db db' u h = ground arith

module _ (fee_address : String) (trade_id : String → String → ℕ → String) where
  execute_trade-supply :
      (o : Order) (row : OrderRow) (base : ℕ) (s : String) (db db' : Db) (u : Unit {0})
      → o.owner_address ≢ fee_address
      → row.owner_address ≢ fee_address
      → execute_trade fee_address trade_id o row base db ≡ (ok u, db')
      → supply s db'.accounts ≡ supply s db.accounts
  unfolding execute_trade
  execute_trade-supply o row base s db db' u taker maker h =
      let first = to_maker fee_address trade_id o row base in
      let second = to_taker fee_address trade_id o row base in
      let (b₁, d₁, e₁, h₁) = follow-eq-ok (apply_wallet_transfer first db) _ h in
      let (b₂, d₂, e₂, h₂) = follow-eq-ok (apply_wallet_transfer second d₁) _ h₁ in
      let t₁ = trade_of fee_address trade_id o row base in
      let t₂ = maker_trade fee_address trade_id o row base in
      let (u₃, d₃, e₃, h₃) = follow-eq-ok (insert_trade t₁ d₂) _ h₂ in
      let (u₄, d₄, e₄, h₄) = follow-eq-ok (insert_trade t₂ d₃) _ h₃ in
      let left = row.amount - maker_pays o.side base row.price in
      let (u₅, d₅, e₅, h₅) = follow-eq-ok (update_order_amount row.order_id left d₄) _ h₄ in
      let (s₁, _) = apply_wallet_transfer-supply first db d₁ b₁ s (λ _. taker) (λ _. maker) e₁ in
      let (s₂, _) = apply_wallet_transfer-supply second d₁ d₂ b₂ s (λ _. maker) (λ _. taker) e₂ in
      rw (
        fill_status-accounts row.order_id left d₅ db' u h₅,
        update_order_amount-accounts row.order_id left d₄ d₅ u₅ e₅,
        insert_trade-accounts t₂ d₃ d₄ u₄ e₄,
        insert_trade-accounts t₁ d₂ d₃ u₃ e₃,
        s₂,
        s₁,
      )

  -- The loop conserves the supply of every asset, if neither the taker nor the owner of a resting
  -- order is the fee address.
  pub match_rows-supply :
      (o : Order) (rows : List OrderRow) (remaining rest : ℕ) (trades : List Trade) (s : String)
      (db db' : Db)
      → o.owner_address ≢ fee_address
      → All (λ (row : OrderRow). row.owner_address ≢ fee_address) rows
      → match_rows fee_address trade_id o rows remaining db ≡ (ok (rest, trades), db')
      → supply s db'.accounts ≡ supply s db.accounts
  unfolding match_rows
  match_rows-supply o [] remaining rest trades s db db' taker makers h = ground arith
  match_rows-supply o (row ∷ rows) remaining rest trades s db db' taker makers h =
      let base = trade_base o.side remaining row.amount row.price in
      let left = remaining - taker_pays o.side base row.price in
      elim (match_rows-cases fee_address trade_id o row rows remaining rest trades db db' h) [
        | inl (_, _, e) ↦ rw e refl
        | inr (inl skip) ↦
            match_rows-supply o rows remaining rest trades s db db' taker makers.1 skip
        | inr (inr trade) ↦
            let first =
              execute_trade-supply o row base s db trade.after tt taker makers.0 trade.traded in
            elim trade.last [
              | inl (_, _, _, e) ↦ rw (e, first) refl
              | inr more ↦
                  match_rows-supply o rows left rest trade.later s trade.after db' taker makers.1
                    more
                  ∙ first
            ]
      ]
