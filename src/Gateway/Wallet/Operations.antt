-- ===== src/Gateway/Wallet/Operations.antt =====
-- `apply_wallet_transfer`, `apply_wallet_faucet` and `apply_wallet_faucet_with_fee`.
use nyx_dirty_and_develop.Base
use nyx_dirty_and_develop.Base.{
  ℕ, ◌+◌, ◌-◌, Bool, true, false, List, [], ◌∷◌, ltb, String, text_eq, text_append, if◌then◌else◌,
  ok, err, raise_if,
}
use nyx_dirty_and_develop.Base.Int.{ℤ}
use nyx_dirty_and_develop.Gateway.Monad.{M, storage, pure, fail_if, ◌>>=◌, ◌>>◌}
use nyx_dirty_and_develop.Gateway.Validate.{
  Checked, validate_text, validate_wallet_address, validate_asset, validate_int,
}
use nyx_dirty_and_develop.Gateway.Wallet.Rows.{Accounts}
use nyx_dirty_and_develop.Gateway.Wallet.Access.{
  ensure_wallet_account, get_wallet_balance, set_wallet_balance,
}

-- A row of `wallet_transfers`, as the caller gives it: the amounts are any integers.
pub record Transfer : Type 0 where
  pub transfer_id : String
  pub from_address : String
  pub to_address : String
  pub asset_id : String
  pub amount : ℤ
  pub fee_total : ℤ
  pub treasury_address : String
  pub run_id : String

-- A stored row of `wallet_transfers`.
pub record TransferRow : Type 0 where
  pub transfer_id : String
  pub from_address : String
  pub to_address : String
  pub asset_id : String
  pub amount : ℕ
  pub fee_total : ℕ
  pub treasury_address : String
  pub run_id : String

pub record Balances : Type 0 where
  pub from_balance : ℕ
  pub to_balance : ℕ
  pub treasury_balance : ℕ

-- The validation of the arguments, in the order of the code: the amount and the fee.
unfoldable pub validate_transfer : Transfer → Checked (ℕ × ℕ)
validate_transfer t = Base.◌>>◌ (validate_text t.transfer_id "transfer_id") (
    Base.◌>>◌ (validate_wallet_address t.from_address "from_address") (
      Base.◌>>◌ (validate_wallet_address t.to_address "to_address") (
        Base.◌>>◌ (validate_wallet_address t.treasury_address "treasury_address") (
          Base.◌>>◌ (validate_asset t.asset_id) (
            Base.◌>>=◌ (validate_int t.amount "amount" 0) λ amt.
              Base.◌>>=◌ (validate_int t.fee_total "fee_total" 0) λ fee.
                Base.◌>>◌
                  (raise_if (text_eq t.from_address t.to_address)
                    (storage "from_address must differ"))
                  (ok (amt, fee)))))))

-- What the sender of `amt` is left with; a fee for another asset is taken from its NYXT.
unfoldable pub take_from : String → String → ℕ → ℕ → ℕ → M Accounts ℕ
take_from from asset current amt fee =
    if text_eq asset "NYXT"
    then (do
      fail_if (ltb current (amt + fee)) (storage "insufficient balance for amount + fee")
      pure (current - (amt + fee)))
    else (do
      nyxt ← get_wallet_balance from "NYXT"
      fail_if (ltb nyxt fee) (storage "insufficient NYXT for fee")
      set_wallet_balance from (nyxt - fee) "NYXT"
      pure (current - amt))

-- `apply_wallet_transfer`, from `new_to = …` to the last `set_wallet_balance`
unfoldable pub settle : Transfer → ℕ → ℕ → ℕ → M Accounts Balances
settle t amt fee new_from = do
  to_balance ← get_wallet_balance t.to_address t.asset_id
  treasury_balance ← get_wallet_balance t.treasury_address "NYXT"
  set_wallet_balance t.from_address new_from t.asset_id
  set_wallet_balance t.to_address (to_balance + amt) t.asset_id
  set_wallet_balance t.treasury_address (treasury_balance + fee) "NYXT"
  pure (record {
    from_balance = new_from;
    to_balance = to_balance + amt;
    treasury_balance = treasury_balance + fee;
  })

abbrev pub insufficient : String → String
insufficient asset = text_append "insufficient " (text_append asset " balance")

-- `apply_wallet_transfer`, from the first `_ensure_wallet_account` on
unfoldable pub move_funds : Transfer → ℕ → ℕ → M Accounts Balances
move_funds t amt fee = do
  ensure_wallet_account t.from_address t.asset_id
  ensure_wallet_account t.to_address t.asset_id
  ensure_wallet_account t.treasury_address "NYXT"
  current ← get_wallet_balance t.from_address t.asset_id
  fail_if (ltb current amt) (storage (insufficient t.asset_id))
  new_from ← take_from t.from_address t.asset_id current amt fee
  settle t amt fee new_from
