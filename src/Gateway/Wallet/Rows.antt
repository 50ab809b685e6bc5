-- ===== src/Gateway/Wallet/Rows.antt =====
-- The rows of `wallet_accounts`. (address, asset_id) is the primary key, so at most one row has a
-- given key, and reads and updates go to the first.
use nyx_dirty_and_develop.Base.{
  ℕ, ◌+◌, Bool, true, false, ◌&&◌, List, [], ◌∷◌, String, text_eq, if◌then◌else◌,
}

pub record Account : Type 0 where
  pub address : String
  pub asset_id : String
  pub balance : ℕ

abbrev pub Accounts : Type 0
Accounts = List Account

abbrev pub has_key : String → String → Account → Bool
has_key addr asset r = text_eq r.address addr && text_eq r.asset_id asset

unfoldable pub exists_row : String → String → Accounts → Bool
exists_row addr asset [] = false
exists_row addr asset (r ∷ rs) = if has_key addr asset r then true else exists_row addr asset rs

-- `SELECT balance …`, 0 if there is no row
unfoldable pub balance_of : String → String → Accounts → ℕ
balance_of addr asset [] = 0
balance_of addr asset (r ∷ rs) =
    if has_key addr asset r then r.balance else balance_of addr asset rs

-- `INSERT OR IGNORE INTO wallet_accounts … VALUES (addr, asset, 0)`
unfoldable pub insert_or_ignore : String → String → Accounts → Accounts
insert_or_ignore addr asset [] = record { address = addr; asset_id = asset; balance = 0 } ∷ []
insert_or_ignore addr asset (r ∷ rs) =
    if has_key addr asset r then r ∷ rs else r ∷ insert_or_ignore addr asset rs

-- `UPDATE wallet_accounts SET balance = v WHERE …`
unfoldable pub update : String → String → ℕ → Accounts → Accounts
update addr asset v [] = []
update addr asset v (r ∷ rs) =
    if has_key addr asset r then (record r { balance = v }) ∷ rs else r ∷ update addr asset v rs

-- The balances of an asset, added up.
unfoldable pub supply : String → Accounts → ℕ
supply asset [] = 0
supply asset (r ∷ rs) = (if text_eq r.asset_id asset then r.balance else 0) + supply asset rs
