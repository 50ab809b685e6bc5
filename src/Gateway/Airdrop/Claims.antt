-- ===== src/Gateway/Airdrop/Claims.antt =====
-- What a request to claim a reward leaves in the table of claims, whether it returns or raises.
use nyx_dirty_and_develop.Base.{
  ℕ, ◌≡◌, refl, ap, arith, String, text_append, List, Result, ok, err, some,
}
use nyx_dirty_and_develop.Base.Int.{pos}
use nyx_dirty_and_develop.Fees.{Payload}
use nyx_dirty_and_develop.Gateway.Monad.{Error, M}
use nyx_dirty_and_develop.Gateway.Validate.{Checked}
use nyx_dirty_and_develop.Gateway.Fields.{text, Fields, validate_address_text}
use nyx_dirty_and_develop.Gateway.Keeps.{Both, committing-Keeps, follow-ends, check-ends}
use nyx_dirty_and_develop.Gateway.Transfers.{Grant, apply_wallet_faucet_with_fee}
use nyx_dirty_and_develop.Gateway.Inserts.{insert_fee_ledger, insert_airdrop_claim, replace_claim}
use nyx_dirty_and_develop.Gateway.Inserts.Laws.{both}
use nyx_dirty_and_develop.Gateway.SameElse.{SameElse, grant-Keeps, fee-Keeps, run_and_record-Keeps}
use nyx_dirty_and_develop.Gateway.Evidence.{Evidence, run_and_record}
use nyx_dirty_and_develop.Gateway.Store.{Db, Conn, FeeLedger, AirdropClaim, committing, request}
use nyx_dirty_and_develop.Gateway.Airdrop.Defs.{
  validate_task, check_task, amount_alone, grant_reward, execute_airdrop_claim_v1,
}

abbrev claims_of : Db → List AirdropClaim
claims_of db = db.airdrop_claims

-- The table of claims after a request that adds the row if it returns.
abbrev Claimed : Db → AirdropClaim → Result Error ℕ × Conn → Type 0
Claimed d row (ok _, c) = c.committed.airdrop_claims ≡ replace_claim row d.airdrop_claims
Claimed d row (err _, c) = c.committed.airdrop_claims ≡ d.airdrop_claims

-- What a request that returns was asked and has passed.
pub record IsClaim (account_id wallet_address : String) (p : Fields) (d : Db)
    (account wallet task : String) (reward : ℕ) : Type 0 where
  pub account_ok : validate_address_text (some (text account_id)) "account_id" ≡ ok account
  pub wallet_ok : validate_address_text (some (text wallet_address)) "wallet_address" ≡ ok wallet
  pub task_ok : validate_task (p "task_id") ≡ ok (task, reward)
  pub completed : (run : String) × (check_task account wallet task d ≡ ok run)

module _ (route_fee : String → String → Payload → String → Checked FeeLedger)
    (make_id : String → String → String) where
  abbrev pub claim_row : ℕ → String → String → String → ℕ → AirdropClaim
  claim_row now run_id account task reward = record {
    claim_id = make_id "airdrop-claim" run_id;
    account_id = account;
    task_id = task;
    reward = reward;
    created_at = now;
    run_id = run_id;
  }

  abbrev grant_of : String → String → String → ℕ → FeeLedger → Grant
  grant_of run_id wallet task reward fee = record {
    address = wallet;
    amount = pos reward;
    fee_total = pos fee.total_paid;
    treasury_address = fee.fee_address;
    run_id = text_append "airdrop-" (text_append task (text_append "-" run_id));
    asset_id = "NYXT";
  }

  grant_reward-Claimed :
      (d : Db) (now : ℕ) (run_id account wallet task : String) (reward : ℕ) (fee : FeeLedger)
      (c : Conn)
      → Both (SameElse d) c
      → Claimed d
          (claim_row now run_id account task reward)
          (grant_reward route_fee make_id now run_id account wallet task reward fee c)
  unfolding grant_reward insert_airdrop_claim
  grant_reward-Claimed d now run_id account wallet task reward fee c h =
      let Q = Claimed d (claim_row now run_id account task reward) in
      let g = grant_of run_id wallet task reward fee in
      follow-ends (Both (SameElse d)) Q (committing (apply_wallet_faucet_with_fee g) c) _
        (committing-Keeps (SameElse d) (apply_wallet_faucet_with_fee g) (grant-Keeps d g) c h)
        (λ e s k. ap claims_of k.0)
        λ b c₁ h₁.
          follow-ends (Both (SameElse d)) Q (insert_fee_ledger fee c₁) _ (fee-Keeps d fee c₁ h₁)
            (λ e s k. ap claims_of k.0) λ _ c₂ h₂. ground arith

  module _ (now seed : ℕ) (run_id account_id wallet_address : String) (p : Fields)
      (clearance : Checked (Unit {0})) (evidence : Evidence) (d : Db) where
    -- A request that raises leaves the claims as they were; one that returns has passed the checks
    -- and has added one row.
    abbrev pub Outcome : Result Error ℕ × Conn → Type 0
    Outcome (ok _, c) =
        (account : String) × (wallet : String) × (task : String) × (reward : ℕ) × IsClaim account_id
          wallet_address p d account wallet task reward
        × (c.committed.airdrop_claims
            ≡ replace_claim (claim_row now run_id account task reward) d.airdrop_claims)
    Outcome (err _, c) = c.committed.airdrop_claims ≡ d.airdrop_claims

    outcome-of :
        (account wallet task : String) (reward : ℕ) (o : Result Error ℕ × Conn)
        → IsClaim account_id wallet_address p d account wallet task reward
        → Claimed d (claim_row now run_id account task reward) o
        → Outcome o
    outcome-of account wallet task reward (ok b, c) w h = (account, wallet, task, reward, w, h)
    outcome-of account wallet task reward (err e, c) w h = h

    abbrev pub call : M Conn ℕ
    call =
        execute_airdrop_claim_v1 route_fee make_id now seed run_id account_id wallet_address p
          clearance evidence

    call-Outcome : Outcome (call (both d))
    unfolding execute_airdrop_claim_v1
    call-Outcome =
        check-ends Outcome (validate_address_text (some (text account_id)) "account_id") (both d) _
          (λ e. refl)
          λ account e₁.
            check-ends Outcome (validate_address_text (some (text wallet_address)) "wallet_address")
              (both d) _ (λ e. refl)
              λ wallet e₂.
                check-ends Outcome (validate_task (p "task_id")) (both d) _ (λ e. refl)
                  λ t e₃.
                    check-ends Outcome clearance (both d) _ (λ e. refl)
                      λ _ _.
                        check-ends Outcome (check_task account wallet t.0 d) (both d) _ (λ e. refl)
                          λ run e₄.
                            check-ends Outcome
                              (route_fee "wallet" "airdrop" (amount_alone t.1) run_id) (both d) _
                              (λ e. refl)
                              λ fee _.
                                follow-ends (Both (SameElse d)) Outcome
                                  (run_and_record make_id seed run_id "wallet" "airdrop" evidence
                                    (both d))
                                  _
                                  (run_and_record-Keeps d make_id seed run_id "wallet" "airdrop"
                                    evidence (both d) (refl, refl))
                                  (λ e s k. ap claims_of k.0)
                                  λ _ c h.
                                    outcome-of account wallet t.0 t.1 _
                                      (record {
                                        account_ok = e₁;
                                        wallet_ok = e₂;
                                        task_ok = e₃;
                                        completed = (run, e₄);
                                      })
                                      (grant_reward-Claimed d now run_id account wallet t.0 t.1 fee
                                        c h)

    of-outcome :
        (r : Result Error ℕ) (db' : Db) (o : Result Error ℕ × Conn)
        → Outcome o
        → o.0 ≡ r
        → o.1.committed ≡ db'
        → (c : Conn) × Outcome (r, c) × (c.committed ≡ db')
    of-outcome r db' (s, c) h e t = (c, rw e at h, t)

    -- The same, of a request.
    pub execute_airdrop_claim_v1-Outcome :
        (r : Result Error ℕ) (db' : Db)
        → request call d ≡ (r, db')
        → (c : Conn) × Outcome (r, c) × (c.committed ≡ db')
    execute_airdrop_claim_v1-Outcome r db' h =
        of-outcome r db' (call (both d)) call-Outcome (ap (λ (x : Result Error ℕ × Db). x.0) h)
          (ap (λ (x : Result Error ℕ × Db). x.1) h)
