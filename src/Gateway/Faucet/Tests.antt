-- ===== src/Gateway/Faucet/Tests.antt =====
-- The theorems on the faucet at concrete requests.
use nyx_dirty_and_develop.Base.{
  ℕ, ◌≡◌, refl, true, [], ◌∷◌, String, text_append, text_discrete, fullmatch, strip, none, some,
  Result, ok,
}
use nyx_dirty_and_develop.Base.Int.{pos}
use nyx_dirty_and_develop.Fees.{Payload}
use nyx_dirty_and_develop.Gateway.Monad.{Error}
use nyx_dirty_and_develop.Gateway.Validate.{
  Checked, validate_text, validate_wallet_address, validate_asset, validate_int,
}
use nyx_dirty_and_develop.Gateway.Fields.{
  text, number, Fields, WalletFaucet, is_supported_asset, validate_address_text, require_int,
  require_amount, require_asset_id, validate_wallet_faucet,
}
use nyx_dirty_and_develop.Gateway.Tables.{delete, insert_or_replace}
use nyx_dirty_and_develop.Gateway.Wallet.{
  validate_account, ensure_wallet_account, get_wallet_balance, set_wallet_balance, exists_row,
  balance_of, insert_or_ignore, update,
}
use nyx_dirty_and_develop.Gateway.Transfers.{
  validate_transfer_row, insert_wallet_transfer, validate_grant, grant_funds,
  apply_wallet_faucet_with_fee,
}
use nyx_dirty_and_develop.Gateway.Store.{Db, empty_db, FeeLedger, FaucetClaim, request}
use nyx_dirty_and_develop.Gateway.Inserts.{
  insert_fee_ledger, insert_evidence_run, insert_receipt, insert_faucet_claim,
}
use nyx_dirty_and_develop.Gateway.Evidence.{Evidence, run_and_record}
use nyx_dirty_and_develop.Gateway.Faucet.Defs.{
  Limits, Caller, count_claims, sum_claims, last_claim, check_cooldown, check_limits, client_name,
  grant_claim, execute_wallet_faucet_v1,
}
use nyx_dirty_and_develop.Gateway.Faucet.Claims.{claim_row}
use nyx_dirty_and_develop.Gateway.Faucet.Counts.{IsLimited}
use nyx_dirty_and_develop.Gateway.Faucet.Windows.{
  Runs, start, granted, Runs-IsLimited, Runs-table_IsLimited, execute_wallet_faucet_v1_reused,
}

abbrev two_a_day : Limits
two_a_day = record { cooldown = 60; max_amount = 1000; max_claims = 2; ip_max_claims = 5 }

abbrev flat_fee : String → String → Payload → String → Checked FeeLedger
flat_fee module_name action p run_id = ok (record {
  fee_id = text_append "fee-" run_id;
  module_name = module_name;
  action = action;
  protocol_fee_total = 1;
  platform_fee_amount = 1;
  total_paid = 2;
  fee_address = "treasury";
  run_id = run_id;
})

abbrev id_of : String → String → String
id_of prefix run_id = text_append prefix (text_append "-" run_id)

abbrev ask : Fields
ask k = elim (text_discrete k "address") [
  | yes _ ↦ some (text "bob")
  | no _ ↦ elim (text_discrete k "amount") [ yes _ ↦ some (number (pos 400)) | no _ ↦ none ]
]

abbrev bob : Caller
bob = record { account_id = "acct-bob"; wallet_address = "bob"; client_ip = " 10.0.0.1" }

abbrev run : Evidence
run = ok (record { state_hash = "0123456789abcdef"; receipt_hashes = "00" ∷ []; replay_ok = true })

abbrev claimed : ℕ → String → Db → Result Error ℕ × Db
claimed now run_id =
    request (execute_wallet_faucet_v1 two_a_day flat_fee id_of now 1 run_id ask bob (ok tt) run)

abbrev asked : WalletFaucet
asked = record { address = "bob"; amount = 400; asset_id = "NYXT"; fields = ask }

asked_ok : validate_wallet_faucet ask ≡ ok asked
unfolding is_supported_asset validate_address_text require_int require_amount require_asset_id
    validate_wallet_faucet text_discrete fullmatch strip
asked_ok = refl

first_ok : claimed 1000 "r1" empty_db ≡ (ok 400, (claimed 1000 "r1" empty_db).1)
unfolding is_supported_asset validate_address_text require_int require_amount require_asset_id
    validate_wallet_faucet text_discrete fullmatch strip validate_text validate_wallet_address
    validate_asset validate_int delete insert_or_replace validate_account ensure_wallet_account
    get_wallet_balance set_wallet_balance exists_row balance_of insert_or_ignore update
    validate_transfer_row insert_wallet_transfer validate_grant grant_funds
    apply_wallet_faucet_with_fee insert_fee_ledger insert_evidence_run insert_receipt
    insert_faucet_claim run_and_record count_claims sum_claims last_claim check_cooldown
    check_limits client_name grant_claim execute_wallet_faucet_v1
first_ok = refl

abbrev row_at : ℕ → String → FaucetClaim
row_at now run_id = claim_row two_a_day flat_fee id_of now run_id bob asked

one_claim : Runs two_a_day flat_fee id_of (row_at 1000 "r1" ∷ []) (claimed 1000 "r1" empty_db).1
one_claim =
    granted [] empty_db (claimed 1000 "r1" empty_db).1 1000 1 "r1" ask bob (ok tt) run 400 asked
      (start empty_db refl) asked_ok first_ok

Runs-IsLimited_example :
    IsLimited two_a_day (row_at 1000 "r1" ∷ [])
    × ((claimed 1000 "r1" empty_db).1.faucet_claims ≡ row_at 1000 "r1" ∷ [])
Runs-IsLimited_example =
    Runs-IsLimited two_a_day flat_fee id_of (row_at 1000 "r1" ∷ []) (claimed 1000 "r1" empty_db).1
      one_claim (tt, tt)

Runs-table_IsLimited_example : IsLimited two_a_day (claimed 1000 "r1" empty_db).1.faucet_claims
Runs-table_IsLimited_example =
    Runs-table_IsLimited two_a_day flat_fee id_of (row_at 1000 "r1" ∷ [])
      (claimed 1000 "r1" empty_db).1 one_claim

abbrev claimed_once : Db
claimed_once = record empty_db { faucet_claims = row_at 1000 "r1" ∷ [] }

again_ok : claimed 2000 "r1" claimed_once ≡ (ok 400, (claimed 2000 "r1" claimed_once).1)
unfolding is_supported_asset validate_address_text require_int require_amount require_asset_id
    validate_wallet_faucet text_discrete fullmatch strip validate_text validate_wallet_address
    validate_asset validate_int delete insert_or_replace validate_account ensure_wallet_account
    get_wallet_balance set_wallet_balance exists_row balance_of insert_or_ignore update
    validate_transfer_row insert_wallet_transfer validate_grant grant_funds
    apply_wallet_faucet_with_fee insert_fee_ledger insert_evidence_run insert_receipt
    insert_faucet_claim run_and_record count_claims sum_claims last_claim check_cooldown
    check_limits client_name grant_claim execute_wallet_faucet_v1
again_ok = refl

execute_wallet_faucet_v1_reused_example :
    (claimed 2000 "r1" claimed_once).1.faucet_claims ≡ row_at 2000 "r1" ∷ []
execute_wallet_faucet_v1_reused_example =
    execute_wallet_faucet_v1_reused two_a_day flat_fee id_of 2000 1 "r1" ask bob (ok tt) run
      claimed_once (claimed 2000 "r1" claimed_once).1 400 asked (row_at 1000 "r1") [] [] refl refl
      tt tt asked_ok again_ok
