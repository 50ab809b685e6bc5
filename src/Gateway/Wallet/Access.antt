-- ===== src/Gateway/Wallet/Access.antt =====
-- Reading and writing one balance: `_ensure_wallet_account`, `get_wallet_balance`,
-- `set_wallet_balance`.
use nyx_dirty_and_develop.Base
use nyx_dirty_and_develop.Base.{ℕ, ◌^◌, ◌-◌, ltb, String}
use nyx_dirty_and_develop.Base.Int.{pos}
use nyx_dirty_and_develop.Gateway.Monad.{M, overflow, check, gets, modify, fail_if, ◌>>=◌, ◌>>◌}
use nyx_dirty_and_develop.Gateway.Validate.{
  Checked, validate_wallet_address, validate_asset, validate_int,
}
use nyx_dirty_and_develop.Gateway.Wallet.Rows.{Accounts, balance_of, insert_or_ignore, update}

-- The first two checks of each of the three functions.
unfoldable pub validate_account : String → String → Checked (Unit {0})
validate_account addr asset =
    Base.◌>>◌ (validate_wallet_address addr "address") (validate_asset asset)

abbrev pub integer_limit : ℕ
integer_limit = 2 ^ 63

-- Binding a number to a statement: SQLite's integers have 64 bits with the sign.
abbrev pub bind_integer : {S : Type 0} → ℕ → M S (Unit {0})
bind_integer n = fail_if (ltb (integer_limit - 1) n) overflow

unfoldable pub ensure_wallet_account : String → String → M Accounts (Unit {0})
ensure_wallet_account addr asset = do
  check (validate_account addr asset)
  modify (insert_or_ignore addr asset)

unfoldable pub get_wallet_balance : String → String → M Accounts ℕ
get_wallet_balance addr asset = do
  check (validate_account addr asset)
  ensure_wallet_account addr asset
  gets (balance_of addr asset)

-- `_validate_int(balance, "balance", 0)` passes, since the callers' sums and differences are
-- natural numbers.
unfoldable pub set_wallet_balance : String → ℕ → String → M Accounts (Unit {0})
set_wallet_balance addr balance asset = do
  check (validate_account addr asset)
  amount ← check (validate_int (pos balance) "balance" 0)
  ensure_wallet_account addr asset
  bind_integer amount
  modify (update addr asset amount)
