-- ===== src/Gateway/Faucet/Claims.antt =====
-- What a request to the faucet leaves in the table of claims, whether it returns or raises.
use nyx_dirty_and_develop.Base.{
  ℕ, ◌≡◌, refl, ◌∙◌, sym, ap, not, arith, String, text_eq, Result, ok, err, raise_if, raise_if-ok,
}
use nyx_dirty_and_develop.Base.Int.{pos}
use nyx_dirty_and_develop.Fees.{Payload}
use nyx_dirty_and_develop.Gateway.Monad.{Error, api, M}
use nyx_dirty_and_develop.Gateway.Validate.{Checked}
use nyx_dirty_and_develop.Gateway.Fields.{Fields, integers, WalletFaucet, validate_wallet_faucet}
use nyx_dirty_and_develop.Gateway.Keeps.{Both, committing-Keeps, follow-ends, check-ends}
use nyx_dirty_and_develop.Gateway.Tables.{insert_or_replace}
use nyx_dirty_and_develop.Gateway.Transfers.{Grant, apply_wallet_faucet_with_fee}
use nyx_dirty_and_develop.Gateway.Inserts.{insert_fee_ledger, insert_faucet_claim}
use nyx_dirty_and_develop.Gateway.Inserts.Laws.{both}
use nyx_dirty_and_develop.Gateway.SameElse.{SameElse, grant-Keeps, fee-Keeps, run_and_record-Keeps}
use nyx_dirty_and_develop.Gateway.Evidence.{Evidence, run_and_record}
use nyx_dirty_and_develop.Gateway.Store.{Db, Conn, FeeLedger, FaucetClaim, committing, request}
use nyx_dirty_and_develop.Gateway.Faucet.Defs.{
  Limits, Caller, client_name, check_limits, grant_claim, execute_wallet_faucet_v1,
}

abbrev pub claim_key : FaucetClaim → String
claim_key r = r.claim_id

module _ (d : Db) where
  -- The table of claims after a request that adds the row if it returns.
  abbrev pub Claimed : FaucetClaim → Result Error ℕ × Conn → Type 0
  Claimed row (ok _, c) =
      c.committed.faucet_claims ≡ insert_or_replace claim_key row d.faucet_claims
  Claimed row (err _, c) = c.committed.faucet_claims ≡ d.faucet_claims

module _ (limits : Limits) (route_fee : String → String → Payload → String → Checked FeeLedger)
    (make_id : String → String → String) where
  abbrev pub claim_row : ℕ → String → Caller → WalletFaucet → FaucetClaim
  claim_row now run_id who v = record {
    claim_id = make_id "faucet-claim" run_id;
    account_id = who.account_id;
    address = v.address;
    asset_id = v.asset_id;
    amount = v.amount;
    ip = client_name who.client_ip;
    created_at = now;
    run_id = run_id;
  }

  abbrev grant_of : String → WalletFaucet → FeeLedger → Grant
  grant_of run_id v fee = record {
    address = v.address;
    amount = pos v.amount;
    fee_total = pos fee.total_paid;
    treasury_address = fee.fee_address;
    run_id = run_id;
    asset_id = v.asset_id;
  }

  grant_claim-Claimed :
      (d : Db) (now : ℕ) (run_id : String) (who : Caller) (v : WalletFaucet) (fee : FeeLedger)
      (c : Conn)
      → Both (SameElse d) c
      → Claimed d
          (claim_row now run_id who v)
          (grant_claim limits route_fee make_id now run_id who v fee c)
  unfolding grant_claim insert_faucet_claim
  grant_claim-Claimed d now run_id who v fee c h =
      let Q = Claimed d (claim_row now run_id who v) in
      let g = grant_of run_id v fee in
      follow-ends (Both (SameElse d)) Q (committing (apply_wallet_faucet_with_fee g) c) _
        (committing-Keeps (SameElse d) (apply_wallet_faucet_with_fee g) (grant-Keeps d g) c h)
        (λ e s k. ap (λ (x : Db). x.faucet_claims) k.0)
        λ b c₁ h₁.
          follow-ends (Both (SameElse d)) Q (insert_fee_ledger fee c₁) _ (fee-Keeps d fee c₁ h₁)
            (λ e s k. ap (λ (x : Db). x.faucet_claims) k.0) λ _ c₂ h₂. ground arith

  -- A request, from the tables `d` to an outcome: one that raises leaves the claims as they were;
  -- one that returns has passed the limits on them and has added one row.
  abbrev pub Outcome : ℕ → String → Fields → Caller → Db → Result Error ℕ × Conn → Type 0
  Outcome now run_id p who d (ok _, c) =
      (v : WalletFaucet) × (validate_wallet_faucet p ≡ ok v)
      × (v.address ≡ who.wallet_address)
      × (check_limits limits now who.account_id (client_name who.client_ip) v.amount d.faucet_claims
          ≡ ok tt)
      × (c.committed.faucet_claims
          ≡ insert_or_replace claim_key (claim_row now run_id who v) d.faucet_claims)
  Outcome now run_id p who d (err _, c) = c.committed.faucet_claims ≡ d.faucet_claims

  outcome-of :
      (now : ℕ) (run_id : String) (p : Fields) (who : Caller) (d : Db) (v : WalletFaucet)
      (o : Result Error ℕ × Conn)
      → validate_wallet_faucet p ≡ ok v
      → v.address ≡ who.wallet_address
      → check_limits limits now who.account_id (client_name who.client_ip) v.amount d.faucet_claims
        ≡ ok tt
      → Claimed d (claim_row now run_id who v) o
      → Outcome now run_id p who d o
  outcome-of now run_id p who d v (ok b, c) h₁ h₂ h₃ h₄ = (v, h₁, h₂, h₃, h₄)
  outcome-of now run_id p who d v (err e, c) h₁ h₂ h₃ h₄ = h₄

  pub execute_wallet_faucet_v1-Outcome :
      (now seed : ℕ) (run_id : String) (p : Fields) (who : Caller) (clearance : Checked (Unit {0}))
      (evidence : Evidence) (d : Db)
      → Outcome now run_id p who d (
          execute_wallet_faucet_v1 limits route_fee make_id now seed run_id p who clearance evidence
            (both d))
  unfolding execute_wallet_faucet_v1
  execute_wallet_faucet_v1-Outcome now seed run_id p who clearance evidence d =
      let Q = Outcome now run_id p who d in
      check-ends Q (validate_wallet_faucet p) (both d) _ (λ e. refl)
        λ v e₁.
          check-ends Q
            (raise_if (not (text_eq v.address who.wallet_address)) (api "FAUCET_ADDRESS_MISMATCH"))
            (both d) _ (λ e. refl)
            λ u₂ e₂.
              check-ends Q clearance (both d) _ (λ e. refl)
                λ _ _.
                  check-ends Q
                    (check_limits limits now who.account_id (client_name who.client_ip) v.amount
                      d.faucet_claims)
                    (both d) _ (λ e. refl)
                    λ u₃ e₃.
                      check-ends Q (route_fee "wallet" "faucet" (integers v.fields) run_id) (both d)
                        _ (λ e. refl)
                        λ fee _.
                          follow-ends (Both (SameElse d)) Q
                            (run_and_record make_id seed run_id "wallet" "faucet" evidence (both d))
                            _
                            (run_and_record-Keeps d make_id seed run_id "wallet" "faucet" evidence
                              (both d) (refl, refl))
                            (λ e s k. ap (λ (x : Db). x.faucet_claims) k.0)
                            λ _ c h.
                              outcome-of now run_id p who d v _ e₁
                                (ground (arith, raise_if-ok _ _ u₂ e₂)) e₃
                                (grant_claim-Claimed d now run_id who v fee c h)

  refused-of :
      (now : ℕ) (run_id : String) (p : Fields) (who : Caller) (d db' : Db) (e : Error)
      (o : Result Error ℕ × Conn)
      → Outcome now run_id p who d o
      → (o.0 ≡ err e)
      → (o.1.committed ≡ db')
      → db'.faucet_claims ≡ d.faucet_claims
  refused-of now run_id p who d db' e (ok b, c) h r t = ground arith
  refused-of now run_id p who d db' e (err _, c) h r t = ground arith

  granted-of :
      (now : ℕ) (run_id : String) (p : Fields) (who : Caller) (d db' : Db) (b : ℕ)
      (v : WalletFaucet) (o : Result Error ℕ × Conn)
      → Outcome now run_id p who d o
      → (o.0 ≡ ok b)
      → (o.1.committed ≡ db')
      → validate_wallet_faucet p ≡ ok v
      → (check_limits limits now who.account_id (client_name who.client_ip) v.amount d.faucet_claims
          ≡ ok tt)
        × (db'.faucet_claims
            ≡ insert_or_replace claim_key (claim_row now run_id who v) d.faucet_claims)
  granted-of now run_id p who d db' b v (ok _, c) h r t asked =
      let (w, ew, _, passed, table) = h in
      let same : w ≡ v = ground (arith, ew, asked) in
      rw (← same) (passed, sym (ap (λ (x : Db). x.faucet_claims) t) ∙ table)
  granted-of now run_id p who d db' b v (err _, c) h r t asked = ground arith

  -- A request that raises, and one that returns.
  module _ (now seed : ℕ) (run_id : String) (p : Fields) (who : Caller)
      (clearance : Checked (Unit {0})) (evidence : Evidence) (d db' : Db) where
    abbrev call : M Db ℕ
    call =
        request (
          execute_wallet_faucet_v1 limits route_fee make_id now seed run_id p who clearance
            evidence)

    abbrev outcome : Outcome now run_id p who d (
        execute_wallet_faucet_v1 limits route_fee make_id now seed run_id p who clearance evidence
          (both d))
    outcome = execute_wallet_faucet_v1-Outcome now seed run_id p who clearance evidence d

    pub execute_wallet_faucet_v1-err :
        (e : Error) → call d ≡ (err e, db') → db'.faucet_claims ≡ d.faucet_claims
    execute_wallet_faucet_v1-err e h =
        refused-of now run_id p who d db' e _ outcome (ap (λ (x : Result Error ℕ × Db). x.0) h)
          (ap (λ (x : Result Error ℕ × Db). x.1) h)

    pub execute_wallet_faucet_v1-ok :
        (b : ℕ) (v : WalletFaucet)
        → call d ≡ (ok b, db')
        → validate_wallet_faucet p ≡ ok v
        → (check_limits limits now who.account_id
              (client_name who.client_ip)
              v.amount
              d.faucet_claims
            ≡ ok tt)
          × (db'.faucet_claims
              ≡ insert_or_replace claim_key (claim_row now run_id who v) d.faucet_claims)
    execute_wallet_faucet_v1-ok b v h =
        granted-of now run_id p who d db' b v _ outcome (ap (λ (x : Result Error ℕ × Db). x.0) h)
          (ap (λ (x : Result Error ℕ × Db). x.1) h)
