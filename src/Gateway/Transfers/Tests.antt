-- ===== src/Gateway/Transfers/Tests.antt =====
-- The theorems on transfers and grants at concrete tables.
use nyx_dirty_and_develop.Base.{
  ℕ, ◌+◌, ◌-◌, ◌≤◌, ◌≡◌, refl, ◌≢◌, ◌&&◌, [], ◌∷◌, String, text_eq, text_ne, text_discrete,
  fullmatch, Result, ok, if◌then◌else◌,
}
use nyx_dirty_and_develop.Base.Int.{pos}
use nyx_dirty_and_develop.Gateway.Monad.{Error}
use nyx_dirty_and_develop.Gateway.Validate.{
  validate_text, validate_wallet_address, validate_asset, validate_int,
}
use nyx_dirty_and_develop.Gateway.Wallet.{
  Accounts, Transfer, Balances, validate_account, ensure_wallet_account, get_wallet_balance,
  set_wallet_balance, exists_row, balance_of, insert_or_ignore, update, supply, validate_transfer,
  take_from, settle, move_funds,
}
use nyx_dirty_and_develop.Gateway.Wallet.Conservation.{move_funds_nyxt}
use nyx_dirty_and_develop.Gateway.Tables.{delete, insert_or_replace}
use nyx_dirty_and_develop.Gateway.Store.{Db, empty_db}
use nyx_dirty_and_develop.Gateway.Transfers.Defs.{
  validate_transfer_row, insert_wallet_transfer, apply_wallet_transfer, Grant, grant_funds,
}
use nyx_dirty_and_develop.Gateway.Transfers.Laws.{
  apply_wallet_transfer-supply, apply_wallet_transfer_to_treasury,
  apply_wallet_transfer_from_treasury,
}
use nyx_dirty_and_develop.Gateway.Transfers.Grants.{grant_funds-supply}

abbrev bank : Db
bank = record empty_db {
  accounts =
      record { address = "alice"; asset_id = "NYXT"; balance = 20 }
      ∷ record { address = "treasury"; asset_id = "NYXT"; balance = 50 }
      ∷ [];
}

abbrev send : String → String → Transfer
send from to = record {
  transfer_id = "t1";
  from_address = from;
  to_address = to;
  asset_id = "NYXT";
  amount = pos 7;
  fee_total = pos 2;
  treasury_address = "treasury";
  run_id = "run1";
}

abbrev sent : String → String → Result Error Balances × Db
sent from to = apply_wallet_transfer (send from to) bank

abbrev after : ℕ → ℕ → ℕ → Balances
after from to treasury = record {
  from_balance = from;
  to_balance = to;
  treasury_balance = treasury;
}

sent_ok : sent "alice" "bob" ≡ (ok (after 11 7 52), (sent "alice" "bob").1)
unfolding validate_transfer_row insert_wallet_transfer apply_wallet_transfer delete
    insert_or_replace validate_account ensure_wallet_account get_wallet_balance set_wallet_balance
    exists_row balance_of insert_or_ignore update validate_transfer take_from settle move_funds
    validate_text validate_wallet_address validate_asset validate_int text_discrete fullmatch
sent_ok = refl

apart :
    ((send "alice" "bob").from_address ≢ "treasury")
    × ((send "alice" "bob").to_address ≢ "treasury")
unfolding text_discrete
apart = (text_ne _ _ refl, text_ne _ _ refl)

apply_wallet_transfer-supply_example :
    (supply "NYXT" (sent "alice" "bob").1.accounts ≡ supply "NYXT" bank.accounts)
    × ((sent "alice" "bob").1 ≡ record bank {
      accounts = (sent "alice" "bob").1.accounts;
      transfers = (sent "alice" "bob").1.transfers;
    })
apply_wallet_transfer-supply_example =
    apply_wallet_transfer-supply (send "alice" "bob") bank (sent "alice" "bob").1 (after 11 7 52)
      "NYXT" (λ _. apart.0) (λ _. apart.1) sent_ok

to_treasury_ok : sent "alice" "treasury" ≡ (ok (after 11 57 52), (sent "alice" "treasury").1)
unfolding validate_transfer_row insert_wallet_transfer apply_wallet_transfer delete
    insert_or_replace validate_account ensure_wallet_account get_wallet_balance set_wallet_balance
    exists_row balance_of insert_or_ignore update validate_transfer take_from settle move_funds
    validate_text validate_wallet_address validate_asset validate_int text_discrete fullmatch
to_treasury_ok = refl

apply_wallet_transfer_to_treasury_example :
    supply "NYXT" (sent "alice" "treasury").1.accounts + 7 ≡ supply "NYXT" bank.accounts
apply_wallet_transfer_to_treasury_example =
    apply_wallet_transfer_to_treasury (send "alice" "treasury") 7 bank (sent "alice" "treasury").1
      (after 11 57 52) refl refl refl to_treasury_ok

from_treasury_ok : sent "treasury" "alice" ≡ (ok (after 41 27 52), (sent "treasury" "alice").1)
unfolding validate_transfer_row insert_wallet_transfer apply_wallet_transfer delete
    insert_or_replace validate_account ensure_wallet_account get_wallet_balance set_wallet_balance
    exists_row balance_of insert_or_ignore update validate_transfer take_from settle move_funds
    validate_text validate_wallet_address validate_asset validate_int text_discrete fullmatch
from_treasury_ok = refl

apply_wallet_transfer_from_treasury_example :
    supply "NYXT" (sent "treasury" "alice").1.accounts ≡ supply "NYXT" bank.accounts + 7 + 2
apply_wallet_transfer_from_treasury_example =
    apply_wallet_transfer_from_treasury (send "treasury" "alice") 7 2 bank
      (sent "treasury" "alice").1 (after 41 27 52) refl refl refl refl from_treasury_ok

abbrev moved : Result Error Balances × Accounts
moved = move_funds (send "alice" "bob") 7 2 bank.accounts

moved_ok : moved ≡ (ok (after 11 7 52), moved.1)
unfolding validate_account ensure_wallet_account get_wallet_balance set_wallet_balance exists_row
    balance_of insert_or_ignore update take_from settle move_funds validate_text
    validate_wallet_address validate_asset validate_int text_discrete fullmatch
moved_ok = refl

move_funds_nyxt_example :
    (7 + 2 ≤ balance_of "alice" "NYXT" bank.accounts)
    × ((a s : String)
        → balance_of a s moved.1 ≡ (
            if text_eq "treasury" a && text_eq "NYXT" s
            then balance_of "treasury" "NYXT" bank.accounts + 2
            else if text_eq "bob" a && text_eq "NYXT" s
            then balance_of "bob" "NYXT" bank.accounts + 7
            else if text_eq "alice" a && text_eq "NYXT" s
            then balance_of "alice" "NYXT" bank.accounts - (7 + 2)
            else balance_of a s bank.accounts))
move_funds_nyxt_example =
    move_funds_nyxt (send "alice" "bob") 7 2 bank.accounts moved.1 (after 11 7 52) refl moved_ok

abbrev grant : Grant
grant = record {
  address = "bob";
  amount = pos 7;
  fee_total = pos 2;
  treasury_address = "treasury";
  run_id = "run1";
  asset_id = "ECHO";
}

abbrev granted : Result Error (ℕ × ℕ) × Accounts
granted = grant_funds grant 7 2 bank.accounts

granted_ok : granted ≡ (ok (7, 52), granted.1)
unfolding validate_account ensure_wallet_account get_wallet_balance set_wallet_balance exists_row
    balance_of insert_or_ignore update grant_funds validate_text validate_wallet_address
    validate_asset validate_int text_discrete fullmatch
granted_ok = refl

grant_funds-supply_example :
    supply "ECHO" granted.1
    ≡ supply "ECHO" bank.accounts
      + (if text_eq "NYXT" "ECHO" then 2 else 0)
      + (if text_eq "bob" "treasury" && text_eq "ECHO" "NYXT"
          then 0
          else if text_eq "ECHO" "ECHO"
          then 7
          else 0)
grant_funds-supply_example =
    grant_funds-supply grant 7 2 bank.accounts granted.1 (7, 52) "ECHO" granted_ok
