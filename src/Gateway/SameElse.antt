-- ===== src/Gateway/SameElse.antt =====
-- The calls that change the tables of money and of evidence alone.
use nyx_dirty_and_develop.Base.{ℕ, ◌≡◌, arith, String}
use nyx_dirty_and_develop.Gateway.Keeps.{Keeps, Both, follow-Keeps, check-Keeps}
use nyx_dirty_and_develop.Gateway.Wallet.{Transfer}
use nyx_dirty_and_develop.Gateway.Transfers.{
  Grant, apply_wallet_transfer, apply_wallet_faucet_with_fee, insert_wallet_transfer,
}
use nyx_dirty_and_develop.Gateway.Inserts.{insert_fee_ledger, insert_evidence_run, insert_receipt}
use nyx_dirty_and_develop.Gateway.Evidence.{Evidence, run_and_record, reraise}
use nyx_dirty_and_develop.Gateway.Store.{Db, FeeLedger, EvidenceRun, Receipt}

module _ (d : Db) where
  -- The tables are those of `d`, but for the balances, the transfers, the fees and the evidence.
  abbrev pub SameElse : Db → Type 0
  SameElse db = db ≡ record d {
    accounts = db.accounts;
    transfers = db.transfers;
    fees = db.fees;
    evidence_runs = db.evidence_runs;
    receipts = db.receipts;
  }

  pub transfer-Keeps : (t : Transfer) → Keeps SameElse (apply_wallet_transfer t)
  unfolding apply_wallet_transfer insert_wallet_transfer
  transfer-Keeps t db h = ground arith

  pub grant-Keeps : (g : Grant) → Keeps SameElse (apply_wallet_faucet_with_fee g)
  unfolding apply_wallet_faucet_with_fee insert_wallet_transfer
  grant-Keeps g db h = ground arith

  pub fee-Keeps : (r : FeeLedger) → Keeps (Both SameElse) (insert_fee_ledger r)
  unfolding insert_fee_ledger
  fee-Keeps r c h = ground arith

  evidence_run-Keeps : (r : EvidenceRun) → Keeps (Both SameElse) (insert_evidence_run r)
  unfolding insert_evidence_run
  evidence_run-Keeps r c h = ground arith

  receipt-Keeps : (r : Receipt) → Keeps (Both SameElse) (insert_receipt r)
  unfolding insert_receipt
  receipt-Keeps r c h = ground arith

  pub run_and_record-Keeps :
      (make_id : String → String → String) (seed : ℕ) (run_id module_name action : String)
      (e : Evidence)
      → Keeps (Both SameElse) (run_and_record make_id seed run_id module_name action e)
  unfolding run_and_record
  run_and_record-Keeps make_id seed run_id module_name action e c h =
      check-Keeps (Both SameElse) (reraise e) c _ h λ o.
        let r : EvidenceRun = record {
          run_id = run_id;
          module_name = module_name;
          action = action;
          seed = seed;
          state_hash = o.state_hash;
          receipt_hashes = o.receipt_hashes;
          replay_ok = o.replay_ok;
        } in
        follow-Keeps (Both SameElse) (insert_evidence_run r c) _ (evidence_run-Keeps r c h)
          λ _ c₁ h₁.
            let t : Receipt = record {
              receipt_id = make_id "receipt" run_id;
              module_name = module_name;
              action = action;
              state_hash = o.state_hash;
              receipt_hashes = o.receipt_hashes;
              replay_ok = o.replay_ok;
              run_id = run_id;
            } in
            follow-Keeps (Both SameElse) (insert_receipt t c₁) _ (receipt-Keeps t c₁ h₁)
              λ _ c₂ h₂. h₂
