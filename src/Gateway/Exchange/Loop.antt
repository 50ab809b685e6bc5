-- ===== src/Gateway/Exchange/Loop.antt =====
-- Inversion of one round of the loop of `place_order`.
use nyx_dirty_and_develop.Base.{
  ℕ, ◌-◌, ◌≡◌, refl, ◌⊎◌, inl, inr, Bool, true, false, not, List, [], ◌∷◌, arith, String, ◌==◌,
  if◌then◌else◌, ok,
}
use nyx_dirty_and_develop.Gateway.Monad.{M, pure, follow-eq-ok, ◌>>=◌, ◌>>◌}
use nyx_dirty_and_develop.Gateway.Store.{Db, Order, OrderRow, Trade}
use nyx_dirty_and_develop.Gateway.Exchange.Book.{crosses, trade_base, taker_pays}
use nyx_dirty_and_develop.Gateway.Exchange.Matching.{trade_of, execute_trade, match_rows}

-- A round that trades: the tests it passed, the trade, and how the loop ended.
pub record IsTrade (crossed zero_price zero_base : Bool) (trade : M Db (Unit {0})) (first : Trade)
    (filled_up : Bool) (left : ℕ) (next : M Db (ℕ × List Trade)) (rest : ℕ) (trades : List Trade)
    (db db' : Db) : Type 0 where
  pub within : crossed ≡ true
  pub priced : zero_price ≡ false
  pub some_base : zero_base ≡ false
  pub after : Db
  pub later : List Trade
  pub traded : trade db ≡ (ok tt, after)
  pub both : trades ≡ first ∷ later
  pub last :
      ((filled_up ≡ true) × (rest ≡ left) × (later ≡ []) × (db' ≡ after))
      ⊎ (next after ≡ (ok (rest, later), db'))

round-cases :
    (crossed zero_price zero_base : Bool) (trade : M Db (Unit {0})) (first : Trade)
    (filled_up : Bool) (left : ℕ) (skip next : M Db (ℕ × List Trade)) (remaining rest : ℕ)
    (trades : List Trade) (db db' : Db)
    → (if not crossed
          then pure (remaining, [])
          else if zero_price
          then skip
          else if zero_base
          then pure (remaining, [])
          else (do
            trade
            (r, ts) ← (if filled_up then pure (left, []) else next)
            pure (r, first ∷ ts)))
        db
      ≡ (ok (rest, trades), db')
    → ((rest ≡ remaining) × (trades ≡ []) × (db' ≡ db))
      ⊎ ((skip db ≡ (ok (rest, trades), db'))
          ⊎ IsTrade crossed zero_price zero_base trade first filled_up left next rest trades db db')
round-cases false z b trade first f left skip next remaining rest trades db db' h =
    inl (ground arith)
round-cases true true b trade first f left skip next remaining rest trades db db' h = inr (inl h)
round-cases true false true trade first f left skip next remaining rest trades db db' h =
    inl (ground arith)
round-cases true false false trade first true left skip next remaining rest trades db db' h =
    let (u, d₁, e₁, h₁) = follow-eq-ok (trade db) _ h in
    inr (
      inr (record {
        within = refl;
        priced = refl;
        some_base = refl;
        after = d₁;
        later = [];
        traded = e₁;
        both = ground arith;
        last = inl (ground arith);
      }))
round-cases true false false trade first false left skip next remaining rest trades db db' h =
    let (u, d₁, e₁, h₁) = follow-eq-ok (trade db) _ h in
    let ((r, ts), d₂, e₂, h₂) = follow-eq-ok (next d₁) _ h₁ in
    inr (
      inr (record {
        within = refl;
        priced = refl;
        some_base = refl;
        after = d₁;
        later = ts;
        traded = e₁;
        both = ground arith;
        last = inr (ground arith);
      }))

module _ (fee_address : String) (trade_id : String → String → ℕ → String) where
  pub match_rows-cases :
      (o : Order) (row : OrderRow) (rows : List OrderRow) (remaining rest : ℕ) (trades : List Trade)
      (db db' : Db)
      → match_rows fee_address trade_id o (row ∷ rows) remaining db ≡ (ok (rest, trades), db')
      → ((rest ≡ remaining) × (trades ≡ []) × (db' ≡ db))
        ⊎ ((match_rows fee_address trade_id o rows remaining db ≡ (ok (rest, trades), db'))
            ⊎ (let base = trade_base o.side remaining row.amount row.price in
                let left = remaining - taker_pays o.side base row.price in
                IsTrade
                  (crosses o.side o.price row.price)
                  (row.price == 0)
                  (base == 0)
                  (execute_trade fee_address trade_id o row base)
                  (trade_of fee_address trade_id o row base)
                  (left == 0)
                  left
                  (match_rows fee_address trade_id o rows left)
                  rest
                  trades
                  db
                  db'))
  unfolding match_rows
  match_rows-cases o row rows remaining rest trades db db' h =
      round-cases _ _ _ _ _ _ _ _ _ remaining rest trades db db' h
