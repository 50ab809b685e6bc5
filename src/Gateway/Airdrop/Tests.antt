-- ===== src/Gateway/Airdrop/Tests.antt =====
-- The theorems on the airdrop at concrete claims.
use nyx_dirty_and_develop.Base.{
  ℕ, ◌≤◌, ◌≡◌, refl, ◌↔◌, true, [], ◌∷◌, String, text_append, text_discrete, fullmatch, strip, none,
  some, Result, ok,
}
use nyx_dirty_and_develop.Fees.{Payload}
use nyx_dirty_and_develop.Gateway.Monad.{Error}
use nyx_dirty_and_develop.Gateway.Validate.{
  Checked, validate_text, validate_wallet_address, validate_asset, validate_int,
}
use nyx_dirty_and_develop.Gateway.Fields.{text, Fields, validate_address_text}
use nyx_dirty_and_develop.Gateway.Tables.{delete, insert_or_replace}
use nyx_dirty_and_develop.Gateway.Orders.Sorting
use nyx_dirty_and_develop.Gateway.Wallet.{
  validate_account, ensure_wallet_account, get_wallet_balance, set_wallet_balance, exists_row,
  balance_of, insert_or_ignore, update,
}
use nyx_dirty_and_develop.Gateway.Transfers.{
  validate_transfer_row, insert_wallet_transfer, validate_grant, grant_funds,
  apply_wallet_faucet_with_fee,
}
use nyx_dirty_and_develop.Gateway.Store.{Db, empty_db, FeeLedger, AirdropClaim, request}
use nyx_dirty_and_develop.Gateway.Inserts.{
  insert_fee_ledger, insert_evidence_run, insert_receipt, insert_airdrop_claim, delete_claim,
  replace_claim,
}
use nyx_dirty_and_develop.Gateway.Evidence.{Evidence, run_and_record}
use nyx_dirty_and_develop.Gateway.Airdrop.Defs.{
  find_task, find_claim, first_run, message_rows, purchase_rows, completion_run_id, validate_task,
  check_task, grant_reward, execute_airdrop_claim_v1,
}
use nyx_dirty_and_develop.Gateway.Airdrop.Claims.{IsClaim, claim_row}
use nyx_dirty_and_develop.Gateway.Airdrop.Rewards.{times, rewards}
use nyx_dirty_and_develop.Gateway.Airdrop.Once.{
  Runs, start, granted, Runs-once, execute_airdrop_claim_v1_reused,
}
use nyx_dirty_and_develop.Gateway.Airdrop.Listing.{task_view}
use nyx_dirty_and_develop.Gateway.Airdrop.Tasks.{task_view_claimable_iff}

abbrev flat_fee : String → String → Payload → String → Checked FeeLedger
flat_fee module_name action p run_id = ok (record {
  fee_id = text_append "fee-" run_id;
  module_name = module_name;
  action = action;
  protocol_fee_total = 1;
  platform_fee_amount = 1;
  total_paid = 2;
  fee_address = "treasury";
  run_id = run_id;
})

abbrev id_of : String → String → String
id_of prefix run_id = text_append prefix (text_append "-" run_id)

abbrev run : Evidence
run = ok (record { state_hash = "0123456789abcdef"; receipt_hashes = "00" ∷ []; replay_ok = true })

-- Bob has bought something and sent a message.
abbrev town : Db
town = record empty_db {
  purchases =
      record { purchase_id = "p1"; listing_id = "l1"; buyer_id = "bob"; qty = 1; run_id = "r0" }
      ∷ [];
  messages =
      record {
        message_id = "m1";
        channel = "dm";
        sender_account_id = "acct-bob";
        body = "{}";
        run_id = "r9";
      }
      ∷ [];
}

abbrev ask : String → Fields
ask task k = elim (text_discrete k "task_id") [ yes _ ↦ some (text task) | no _ ↦ none ]

abbrev claimed : String → String → Db → Result Error ℕ × Db
claimed task run_id =
    request (
      execute_airdrop_claim_v1 flat_fee id_of 1000 1 run_id "acct-bob" "bob" (ask task) (ok tt) run)

abbrev row : String → ℕ → AirdropClaim
row = claim_row flat_fee id_of 1000 "r1" "acct-bob"

asked : IsClaim "acct-bob" "bob" (ask "store_1") town "acct-bob" "bob" "store_1" 200
unfolding validate_address_text validate_task find_task find_claim first_run purchase_rows
    completion_run_id check_task text_discrete fullmatch strip Sorting.sort
asked = record { account_ok = refl; wallet_ok = refl; task_ok = refl; completed = ("r0", refl) }

first_ok : claimed "store_1" "r1" town ≡ (ok 200, (claimed "store_1" "r1" town).1)
unfolding validate_address_text validate_task find_task find_claim first_run purchase_rows
    completion_run_id check_task text_discrete fullmatch strip Sorting.sort validate_text
    validate_wallet_address validate_asset validate_int delete insert_or_replace validate_account
    ensure_wallet_account get_wallet_balance set_wallet_balance exists_row balance_of
    insert_or_ignore update validate_transfer_row insert_wallet_transfer validate_grant grant_funds
    apply_wallet_faucet_with_fee insert_fee_ledger insert_evidence_run insert_receipt
    insert_airdrop_claim delete_claim replace_claim run_and_record grant_reward
    execute_airdrop_claim_v1
first_ok = refl

one_claim : Runs flat_fee id_of (row "store_1" 200 ∷ []) (claimed "store_1" "r1" town).1
one_claim =
    granted [] town (claimed "store_1" "r1" town).1 1000 1 "r1" "acct-bob" "bob" (ask "store_1")
      (ok tt) run 200 "acct-bob" "bob" "store_1" 200 (start town refl) asked first_ok

Runs-once_example :
    ((claimed "store_1" "r1" town).1.airdrop_claims ≡ row "store_1" 200 ∷ [])
    × ((account task : String) → times account task (row "store_1" 200 ∷ []) ≤ 1)
    × ((account : String) → rewards account (row "store_1" 200 ∷ []) ≤ 550)
Runs-once_example =
    Runs-once flat_fee id_of (row "store_1" 200 ∷ []) (claimed "store_1" "r1" town).1 one_claim
      (tt, tt)

abbrev claimed_town : Db
claimed_town = record town { airdrop_claims = row "store_1" 200 ∷ [] }

asked_again : IsClaim "acct-bob" "bob" (ask "chat_1") claimed_town "acct-bob" "bob" "chat_1" 100
unfolding validate_address_text validate_task find_task find_claim first_run message_rows
    completion_run_id check_task text_discrete fullmatch strip Sorting.sort
asked_again = record {
  account_ok = refl;
  wallet_ok = refl;
  task_ok = refl;
  completed = ("r9", refl);
}

again_ok : claimed "chat_1" "r1" claimed_town ≡ (ok 100, (claimed "chat_1" "r1" claimed_town).1)
unfolding validate_address_text validate_task find_task find_claim first_run message_rows
    completion_run_id check_task text_discrete fullmatch strip Sorting.sort validate_text
    validate_wallet_address validate_asset validate_int delete insert_or_replace validate_account
    ensure_wallet_account get_wallet_balance set_wallet_balance exists_row balance_of
    insert_or_ignore update validate_transfer_row insert_wallet_transfer validate_grant grant_funds
    apply_wallet_faucet_with_fee insert_fee_ledger insert_evidence_run insert_receipt
    insert_airdrop_claim delete_claim replace_claim run_and_record grant_reward
    execute_airdrop_claim_v1
again_ok = refl

execute_airdrop_claim_v1_reused_example :
    (claimed "chat_1" "r1" claimed_town).1.airdrop_claims ≡ row "chat_1" 100 ∷ []
execute_airdrop_claim_v1_reused_example =
    execute_airdrop_claim_v1_reused flat_fee id_of 1000 1 "r1" "acct-bob" "bob" (ask "chat_1")
      (ok tt) run claimed_town (claimed "chat_1" "r1" claimed_town).1 100 "acct-bob" "bob" "chat_1"
      100 (row "store_1" 200) [] [] refl refl tt tt asked_again again_ok

task_view_claimable_iff_example :
    ((task_view "acct-bob" "bob" town ("store_1", 200)).claimable ≡ true) ↔ (
      (r : String) × (check_task "acct-bob" "bob" "store_1" town ≡ ok r)
      × ((task_view "acct-bob" "bob" town ("store_1", 200)).completion_run_id ≡ some r))
task_view_claimable_iff_example = task_view_claimable_iff "acct-bob" "bob" "store_1" 200 town
