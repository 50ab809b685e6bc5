-- ===== src/Gateway/Wallet/Supply.antt =====
-- Balances and supplies after an insertion or an update of a row.
use nyx_dirty_and_develop.Base.{ℕ, ◌+◌, ◌≡◌, ◌&&◌, [], ◌∷◌, arith, String, text_eq, if◌then◌else◌}
use nyx_dirty_and_develop.Gateway.Wallet.Rows.{
  Accounts, balance_of, insert_or_ignore, update, supply,
}

-- The row for a key is there, with a given balance.
abbrev pub put : String → String → ℕ → Accounts → Accounts
put addr asset v rs = update addr asset v (insert_or_ignore addr asset rs)

pub balance_of-insert_or_ignore :
    (a s b t : String) (rs : Accounts)
    → balance_of a s (insert_or_ignore b t rs) ≡ balance_of a s rs
unfolding balance_of insert_or_ignore
balance_of-insert_or_ignore a s b t [] = ground arith
balance_of-insert_or_ignore a s b t (r ∷ rs) =
    ground (arith, balance_of-insert_or_ignore a s b t rs)

pub supply-insert_or_ignore :
    (s b t : String) (rs : Accounts) → supply s (insert_or_ignore b t rs) ≡ supply s rs
unfolding supply insert_or_ignore
supply-insert_or_ignore s b t [] = ground arith
supply-insert_or_ignore s b t (r ∷ rs) = ground (arith, supply-insert_or_ignore s b t rs)

pub balance_of-put :
    (a s b t : String) (v : ℕ) (rs : Accounts)
    → balance_of a s (put b t v rs) ≡ (if text_eq b a && text_eq t s then v else balance_of a s rs)
unfolding balance_of insert_or_ignore update
balance_of-put a s b t v [] = ground arith
balance_of-put a s b t v (r ∷ rs) = ground (arith, balance_of-put a s b t v rs)

-- A row that is set takes its old balance out of the supply of its asset and puts the new one in.
pub supply-put :
    (s b t : String) (v : ℕ) (rs : Accounts)
    → supply s (put b t v rs) + (if text_eq t s then balance_of b t rs else 0)
      ≡ supply s rs + (if text_eq t s then v else 0)
unfolding supply balance_of insert_or_ignore update
supply-put s b t v [] = ground arith
supply-put s b t v (r ∷ rs) = ground (arith, supply-put s b t v rs)
