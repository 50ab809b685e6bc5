-- ===== src/Gateway/Faucet/Windows.antt =====
-- The limits of the faucet over any sequence of requests.
use nyx_dirty_and_develop.Base.{
  ℕ, ◌≡◌, ◌≢◌, ◌∙◌, ap, arith, String, List, [], ◌∷◌, ◌++◌, All, ok, err,
}
use nyx_dirty_and_develop.Fees.{Payload}
use nyx_dirty_and_develop.Gateway.Monad.{Error}
use nyx_dirty_and_develop.Gateway.Validate.{Checked}
use nyx_dirty_and_develop.Gateway.Fields.{Fields, WalletFaucet, validate_wallet_faucet}
use nyx_dirty_and_develop.Gateway.Tables.{insert_or_replace}
use nyx_dirty_and_develop.Gateway.Tables.Keys.{
  HasOwnKeys, HasOwnKeys-append, insert_or_replace-fresh, insert_or_replace-used,
}
use nyx_dirty_and_develop.Gateway.Evidence.{Evidence}
use nyx_dirty_and_develop.Gateway.Store.{Db, FeeLedger, FaucetClaim, request}
use nyx_dirty_and_develop.Gateway.Faucet.Defs.{
  Limits, Caller, count_claims, sum_claims, execute_wallet_faucet_v1,
}
use nyx_dirty_and_develop.Gateway.Faucet.Claims.{
  claim_key, claim_row, execute_wallet_faucet_v1-err, execute_wallet_faucet_v1-ok,
}
use nyx_dirty_and_develop.Gateway.Faucet.Counts.{IsLimited, IsLimited-insert}

module _ (limits : Limits) (route_fee : String → String → Payload → String → Checked FeeLedger)
    (make_id : String → String → String) where
  -- Tables reached by requests to the faucet, with the claims of the requests that returned, in
  -- their order. Other requests leave the claims as they are.
  pub data Runs : List FaucetClaim → Db → Type 0 where
    start : (db : Db) → db.faucet_claims ≡ [] → Runs [] db
    elsewhere :
        (xs : List FaucetClaim) (db db' : Db)
        → Runs xs db
        → db'.faucet_claims ≡ db.faucet_claims
        → Runs xs db'
    refused :
        (xs : List FaucetClaim) (db db' : Db) (now seed : ℕ) (run_id : String) (p : Fields)
        (who : Caller) (clearance : Checked (Unit {0})) (evidence : Evidence) (e : Error)
        → Runs xs db
        → request
            (execute_wallet_faucet_v1 limits route_fee make_id now seed run_id p who clearance
              evidence)
            db
          ≡ (err e, db')
        → Runs xs db'
    granted :
        (xs : List FaucetClaim) (db db' : Db) (now seed : ℕ) (run_id : String) (p : Fields)
        (who : Caller) (clearance : Checked (Unit {0})) (evidence : Evidence) (b : ℕ)
        (v : WalletFaucet)
        → Runs xs db
        → validate_wallet_faucet p ≡ ok v
        → request
            (execute_wallet_faucet_v1 limits route_fee make_id now seed run_id p who clearance
              evidence)
            db
          ≡ (ok b, db')
        → Runs (xs ++ (claim_row limits route_fee make_id now run_id who v ∷ [])) db'

  -- After every sequence of requests, by any callers at any times and under any run ids, returned
  -- or raised, the claims in the table keep to the limits of the settings in every period of 24
  -- hours: the number of an account's claims, the sum of its amounts, and the number of an IP's
  -- claims.
  pub Runs-table_IsLimited :
      (xs : List FaucetClaim) (db : Db) → Runs xs db → IsLimited limits db.faucet_claims
  unfolding count_claims sum_claims
  Runs-table_IsLimited _ _ (start db h) = rw h (record {
    claims = λ on a t. omega arith;
    amount = λ on a t. omega arith;
    ips = λ on a t. omega arith;
  })
  Runs-table_IsLimited _ _ (elsewhere xs db db' r h) = rw h (Runs-table_IsLimited xs db r)
  Runs-table_IsLimited _ _ (refused xs db db' now seed run_id p who clearance evidence e r h) =
      rw
        (execute_wallet_faucet_v1-err limits route_fee make_id now seed run_id p who clearance
          evidence db db' e h)
        (Runs-table_IsLimited xs db r)
  Runs-table_IsLimited _ _
        (granted xs db db' now seed run_id p who clearance evidence b v r asked h) =
      let row = claim_row limits route_fee make_id now run_id who v in
      let (passed, left) =
        execute_wallet_faucet_v1-ok limits route_fee make_id now seed run_id p who clearance
          evidence db db' b v h asked in
      rw left (IsLimited-insert limits db.faucet_claims row (Runs-table_IsLimited xs db r) passed)

  -- The claims of the requests that returned, with ids of their own, are the table.
  Runs-table :
      (xs : List FaucetClaim) (db : Db)
      → Runs xs db
      → HasOwnKeys claim_key xs
      → db.faucet_claims ≡ xs
  Runs-table _ _ (start db h) own = h
  Runs-table _ _ (elsewhere xs db db' r h) own = h ∙ Runs-table xs db r own
  Runs-table _ _ (refused xs db db' now seed run_id p who clearance evidence e r h) own =
      execute_wallet_faucet_v1-err limits route_fee make_id now seed run_id p who clearance evidence
        db db' e h
      ∙ Runs-table xs db r own
  Runs-table _ _ (granted xs db db' now seed run_id p who clearance evidence b v r asked h) own =
      let row = claim_row limits route_fee make_id now run_id who v in
      let (before, fresh) = HasOwnKeys-append claim_key xs row own in
      let (_, left) =
        execute_wallet_faucet_v1-ok limits route_fee make_id now seed run_id p who clearance
          evidence db db' b v h asked in
      left
      ∙ ap (insert_or_replace claim_key row) (Runs-table xs db r before)
      ∙ insert_or_replace-fresh claim_key row xs fresh

  -- After every sequence of requests in which the claims of the requests that returned have ids of
  -- their own, the table holds these claims, in their order, and they keep to the limits of the
  -- settings in every period of 24 hours: the number of an account's claims, the sum of its
  -- amounts, and the number of an IP's claims. The ids come from run ids that the callers choose,
  -- and the code does not check that they differ. A request that raises after its grant is
  -- committed has no claim and is not counted.
  pub Runs-IsLimited :
      (xs : List FaucetClaim) (db : Db)
      → Runs xs db
      → HasOwnKeys claim_key xs
      → IsLimited limits xs × (db.faucet_claims ≡ xs)
  Runs-IsLimited xs db r own =
      let table = Runs-table xs db r own in (rw (← table) (Runs-table_IsLimited xs db r), table)

  -- A request that returns under a run id whose claim stands in the table, wherever, removes that
  -- claim, if no other claim has its id: the table holds the claims before it and after it, and the
  -- new one.
  pub execute_wallet_faucet_v1_reused :
      (now seed : ℕ) (run_id : String) (p : Fields) (who : Caller) (clearance : Checked (Unit {0}))
      (evidence : Evidence) (db db' : Db) (b : ℕ) (v : WalletFaucet) (old : FaucetClaim)
      (before after : List FaucetClaim)
      → db.faucet_claims ≡ before ++ (old ∷ after)
      → old.claim_id ≡ make_id "faucet-claim" run_id
      → All (λ x. claim_key x ≢ make_id "faucet-claim" run_id) before
      → All (λ x. claim_key x ≢ make_id "faucet-claim" run_id) after
      → validate_wallet_faucet p ≡ ok v
      → request
          (execute_wallet_faucet_v1 limits route_fee make_id now seed run_id p who clearance
            evidence)
          db
        ≡ (ok b, db')
      → db'.faucet_claims
        ≡ before ++ after ++ (claim_row limits route_fee make_id now run_id who v ∷ [])
  execute_wallet_faucet_v1_reused now seed run_id p who clearance evidence db db' b v old before
        after table used fresh fresh' asked h =
      let row = claim_row limits route_fee make_id now run_id who v in
      let (_, left) =
        execute_wallet_faucet_v1-ok limits route_fee make_id now seed run_id p who clearance
          evidence db db' b v h asked in
      left
      ∙ ap (insert_or_replace claim_key row) table
      ∙ insert_or_replace-used claim_key row old before after used fresh fresh'
