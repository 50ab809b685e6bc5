-- ===== src/Gateway/Transfers/Defs.antt =====
-- The arguments of the transfers and grants of storage.py, their checks, and the calls.
use nyx_dirty_and_develop.Base
use nyx_dirty_and_develop.Base.{ℕ, ◌+◌, String, text_append}
use nyx_dirty_and_develop.Base.Int.{ℤ, pos}
use nyx_dirty_and_develop.Gateway.Monad.{M, pure, check, modify, ◌>>=◌, ◌>>◌}
use nyx_dirty_and_develop.Gateway.Validate.{
  Checked, validate_text, validate_wallet_address, validate_asset, validate_int,
}
use nyx_dirty_and_develop.Gateway.Wallet.{
  Accounts, Transfer, TransferRow, Balances, validate_transfer, move_funds, ensure_wallet_account,
  get_wallet_balance, set_wallet_balance, bind_integer,
}
use nyx_dirty_and_develop.Gateway.Store.{Db, on_accounts}
use nyx_dirty_and_develop.Gateway.Tables.{insert_or_replace}

abbrev pub transfer_key : TransferRow → String
transfer_key r = r.transfer_id

-- The checks of `insert_wallet_transfer`: the amounts are numbers, bounded below by 0.
unfoldable pub validate_transfer_row : TransferRow → Checked (Unit {0})
validate_transfer_row r = Base.◌>>◌ (validate_text r.transfer_id "transfer_id") (
    Base.◌>>◌ (validate_wallet_address r.from_address "from_address") (
      Base.◌>>◌ (validate_wallet_address r.to_address "to_address") (
        Base.◌>>◌ (validate_asset r.asset_id) (
          Base.◌>>=◌ (validate_int (pos r.amount) "amount" 0) λ _.
            Base.◌>>=◌ (validate_int (pos r.fee_total) "fee_total" 0) λ _.
              Base.◌>>◌ (validate_wallet_address r.treasury_address "treasury_address")
                (validate_text r.run_id "run_id")))))

unfoldable pub insert_wallet_transfer : TransferRow → M Db (Unit {0})
insert_wallet_transfer r = do
  check (validate_transfer_row r)
  bind_integer r.amount
  bind_integer r.fee_total
  modify (λ db. record db { transfers = insert_or_replace transfer_key r db.transfers })

abbrev pub row_of : Transfer → ℕ → ℕ → TransferRow
row_of t amt fee = record {
  transfer_id = t.transfer_id;
  from_address = t.from_address;
  to_address = t.to_address;
  asset_id = t.asset_id;
  amount = amt;
  fee_total = fee;
  treasury_address = t.treasury_address;
  run_id = t.run_id;
}

-- `apply_wallet_transfer`, up to its `if commit`
unfoldable pub apply_wallet_transfer : Transfer → M Db Balances
apply_wallet_transfer t = do
  (amt, fee) ← check (validate_transfer t)
  balances ← on_accounts (move_funds t amt fee)
  insert_wallet_transfer (row_of t amt fee)
  pure balances

-- `apply_wallet_faucet`, up to its commit
unfoldable pub apply_wallet_faucet : String → ℤ → String → M Db ℕ
apply_wallet_faucet address amount asset = do
  check (validate_wallet_address address "address")
  amt ← check (validate_int amount "amount" 1)
  check (validate_asset asset)
  on_accounts (do
    ensure_wallet_account address asset
    current ← get_wallet_balance address asset
    set_wallet_balance address (current + amt) asset
    pure (current + amt))

-- The arguments of `apply_wallet_faucet_with_fee`, before they are checked.
pub record Grant : Type 0 where
  pub address : String
  pub amount : ℤ
  pub fee_total : ℤ
  pub treasury_address : String
  pub run_id : String
  pub asset_id : String

unfoldable pub validate_grant : Grant → Checked (ℕ × ℕ)
validate_grant g = Base.◌>>◌ (validate_wallet_address g.address "address") (
    Base.◌>>=◌ (validate_int g.amount "amount" 1) λ amt.
      Base.◌>>=◌ (validate_int g.fee_total "fee_total" 0) λ fee.
        Base.◌>>◌ (validate_asset g.asset_id) (
          Base.◌>>◌ (validate_wallet_address g.treasury_address "treasury_address")
            (Base.ok (amt, fee))))

-- The balances of the grant: the new one, and the treasury's.
unfoldable pub grant_funds : Grant → ℕ → ℕ → M Accounts (ℕ × ℕ)
grant_funds g amt fee = do
  ensure_wallet_account g.address g.asset_id
  ensure_wallet_account g.treasury_address "NYXT"
  current ← get_wallet_balance g.address g.asset_id
  treasury_current ← get_wallet_balance g.treasury_address "NYXT"
  set_wallet_balance g.address (current + amt) g.asset_id
  set_wallet_balance g.treasury_address (treasury_current + fee) "NYXT"
  pure (current + amt, treasury_current + fee)

-- `apply_wallet_faucet_with_fee`, up to its commit
unfoldable pub apply_wallet_faucet_with_fee : Grant → M Db (ℕ × ℕ)
apply_wallet_faucet_with_fee g = do
  (amt, fee) ← check (validate_grant g)
  balances ← on_accounts (grant_funds g amt fee)
  let id = text_append "faucet-" g.run_id
  check (validate_text id "transfer_id")
  insert_wallet_transfer (record {
    transfer_id = id;
    from_address = "faucet";
    to_address = g.address;
    asset_id = g.asset_id;
    amount = amt;
    fee_total = fee;
    treasury_address = g.treasury_address;
    run_id = g.run_id;
  })
  pure balances
