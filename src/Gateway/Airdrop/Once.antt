-- ===== src/Gateway/Airdrop/Once.antt =====
-- The claims in the table: no task twice for an account, and rewards of 550 NYXT at most.
use nyx_dirty_and_develop.Base.{
  ℕ, ◌≤◌, ◌≡◌, ◌≢◌, sym, ◌∙◌, ap, arith, String, List, [], ◌∷◌, ◌++◌, All, All-append, ok, err,
  none, some,
}
use nyx_dirty_and_develop.Fees.{Payload}
use nyx_dirty_and_develop.Gateway.Monad.{Error}
use nyx_dirty_and_develop.Gateway.Validate.{Checked}
use nyx_dirty_and_develop.Gateway.Fields.{Fields}
use nyx_dirty_and_develop.Gateway.Tables.{delete, insert_or_replace}
use nyx_dirty_and_develop.Gateway.Tables.Keys.{
  HasOwnKeys, HasOwnKeys-append, insert_or_replace-fresh, insert_or_replace-used,
}
use nyx_dirty_and_develop.Gateway.Inserts.{replace_claim}
use nyx_dirty_and_develop.Gateway.Evidence.{Evidence}
use nyx_dirty_and_develop.Gateway.Store.{Db, FeeLedger, AirdropClaim, request}
use nyx_dirty_and_develop.Gateway.Airdrop.Defs.{
  airdrop_tasks, find_task, find_claim, execute_airdrop_claim_v1,
}
use nyx_dirty_and_develop.Gateway.Airdrop.Claims.{
  claim_row, IsClaim, execute_airdrop_claim_v1-Outcome,
}
use nyx_dirty_and_develop.Gateway.Airdrop.Rewards.{
  claim_key, times, rewards, IsTask, times-append, times-none, replace_claim-none, times-delete,
  delete-IsTask, rewards-times, check_task-ok, validate_task-ok,
}

module _ (route_fee : String → String → Payload → String → Checked FeeLedger)
    (make_id : String → String → String) where
  -- Tables reached by requests to claim, with the claims of the requests that returned, in their
  -- order. Other requests leave the claims as they are.
  pub data Runs : List AirdropClaim → Db → Type 0 where
    start : (db : Db) → db.airdrop_claims ≡ [] → Runs [] db
    elsewhere :
        (xs : List AirdropClaim) (db db' : Db)
        → Runs xs db
        → db'.airdrop_claims ≡ db.airdrop_claims
        → Runs xs db'
    refused :
        (xs : List AirdropClaim) (db db' : Db) (now seed : ℕ)
        (run_id account_id wallet_address : String) (p : Fields) (clearance : Checked (Unit {0}))
        (evidence : Evidence) (e : Error)
        → Runs xs db
        → request
            (execute_airdrop_claim_v1 route_fee make_id now seed run_id account_id wallet_address p
              clearance evidence)
            db
          ≡ (err e, db')
        → Runs xs db'
    granted :
        (xs : List AirdropClaim) (db db' : Db) (now seed : ℕ)
        (run_id account_id wallet_address : String) (p : Fields) (clearance : Checked (Unit {0}))
        (evidence : Evidence) (b : ℕ) (account wallet task : String) (reward : ℕ)
        → Runs xs db
        → IsClaim account_id wallet_address p db account wallet task reward
        → request
            (execute_airdrop_claim_v1 route_fee make_id now seed run_id account_id wallet_address p
              clearance evidence)
            db
          ≡ (ok b, db')
        → Runs (xs ++ (claim_row route_fee make_id now run_id account task reward ∷ [])) db'

  same_claim :
      (A W : String) (p : Fields) (d : Db) (now : ℕ) (run_id a w t a' w' t' : String) (n n' : ℕ)
      (xs ys : List AirdropClaim)
      → IsClaim A W p d a w t n
      → IsClaim A W p d a' w' t' n'
      → xs ≡ replace_claim (claim_row route_fee make_id now run_id a' t' n') ys
      → xs ≡ replace_claim (claim_row route_fee make_id now run_id a t n) ys
  same_claim A W p d now run_id a w t a' w' t' n n' xs ys i j h =
      let ea : a' ≡ a = ground (arith, i.account_ok, j.account_ok) in
      let et : t' ≡ t = ground (arith, i.task_ok, j.task_ok) in
      let en : n' ≡ n = ground (arith, i.task_ok, j.task_ok) in rw (← ea, ← et, ← en) h

  -- What a request that returns leaves in the table.
  claim-ok :
      (now seed : ℕ) (run_id account_id wallet_address : String) (p : Fields)
      (clearance : Checked (Unit {0})) (evidence : Evidence) (db db' : Db) (b : ℕ)
      (account wallet task : String) (reward : ℕ)
      → IsClaim account_id wallet_address p db account wallet task reward
      → request
          (execute_airdrop_claim_v1 route_fee make_id now seed run_id account_id wallet_address p
            clearance evidence)
          db
        ≡ (ok b, db')
      → (find_claim account task db.airdrop_claims ≡ none)
        × (find_task task airdrop_tasks ≡ some reward)
        × (db'.airdrop_claims
            ≡ insert_or_replace claim_key
                (claim_row route_fee make_id now run_id account task reward)
                db.airdrop_claims)
  claim-ok now seed run_id account_id wallet_address p clearance evidence db db' b account wallet
        task reward asked h =
      let (c, w, t) =
        execute_airdrop_claim_v1-Outcome route_fee make_id now seed run_id account_id wallet_address
          p clearance evidence db (ok b) db' h in
      let (a', w', t', n, is, left) = w in
      let row = claim_row route_fee make_id now run_id account task reward in
      let added : c.committed.airdrop_claims ≡ replace_claim row db.airdrop_claims =
        same_claim account_id wallet_address p db now run_id account wallet task a' w' t' reward n _
          _ asked is left in
      let (free, _) = check_task-ok account wallet task asked.completed.0 db asked.completed.1 in
      (
        free,
        validate_task-ok (p "task_id") task reward asked.task_ok,
        sym (ap (λ (x : Db). x.airdrop_claims) t)
            ∙ added
            ∙ replace_claim-none row db.airdrop_claims free,
      )

  -- One claim more, of a task that the account had not claimed.
  grant_step :
      (xs : List AirdropClaim) (row : AirdropClaim)
      → find_claim row.account_id row.task_id xs ≡ none
      → IsTask row
      → ((account task : String) → times account task xs ≤ 1)
      → All IsTask xs
      → ((account task : String) → times account task (insert_or_replace claim_key row xs) ≤ 1)
        × All IsTask (insert_or_replace claim_key row xs)
  unfolding insert_or_replace
  grant_step xs row free task once tasks = (
    λ a t. ground (
      arith,
      times-append a t (delete claim_key (claim_key row) xs) row,
      times-delete a t (claim_key row) xs,
      times-none row.account_id row.task_id xs free,
      once a t,
    ),
    All-append IsTask (delete claim_key (claim_key row) xs) (row ∷ [])
        (delete-IsTask (claim_key row) xs tasks) (task, tt),
  )

  -- The claims in the table: no task twice, and the rewards of the tasks.
  Runs-table_once :
      (xs : List AirdropClaim) (db : Db)
      → Runs xs db
      → ((account task : String) → times account task db.airdrop_claims ≤ 1)
        × All IsTask db.airdrop_claims
  unfolding times
  Runs-table_once _ _ (start db h) = rw h ((λ a t. omega arith), tt)
  Runs-table_once _ _ (elsewhere xs db db' r h) = rw h (Runs-table_once xs db r)
  Runs-table_once _ _
        (refused xs db db' now seed run_id account_id wallet_address p clearance evidence e r h) =
      let (c, same, t) =
        execute_airdrop_claim_v1-Outcome route_fee make_id now seed run_id account_id wallet_address
          p clearance evidence db (err e) db' h in
      rw (← t, same) (Runs-table_once xs db r)
  Runs-table_once _ _
        (granted xs db db' now seed run_id account_id wallet_address p clearance evidence b account
          wallet task reward r asked h) =
      let (once, tasks) = Runs-table_once xs db r in
      let (free, is, left) =
        claim-ok now seed run_id account_id wallet_address p clearance evidence db db' b account
          wallet task reward asked h in
      rw left (
        grant_step db.airdrop_claims (claim_row route_fee make_id now run_id account task reward)
          free is once tasks)

  -- The claims of the requests that returned, with ids of their own, are the table.
  Runs-table :
      (xs : List AirdropClaim) (db : Db)
      → Runs xs db
      → HasOwnKeys claim_key xs
      → db.airdrop_claims ≡ xs
  Runs-table _ _ (start db h) own = h
  Runs-table _ _ (elsewhere xs db db' r h) own = h ∙ Runs-table xs db r own
  Runs-table _ _
        (refused xs db db' now seed run_id account_id wallet_address p clearance evidence e r h)
        own =
      let (c, same, t) =
        execute_airdrop_claim_v1-Outcome route_fee make_id now seed run_id account_id wallet_address
          p clearance evidence db (err e) db' h in
      sym (ap (λ (x : Db). x.airdrop_claims) t) ∙ same ∙ Runs-table xs db r own
  Runs-table _ _
        (granted xs db db' now seed run_id account_id wallet_address p clearance evidence b account
          wallet task reward r asked h)
        own =
      let row = claim_row route_fee make_id now run_id account task reward in
      let (before, fresh) = HasOwnKeys-append claim_key xs row own in
      let (_, _, left) =
        claim-ok now seed run_id account_id wallet_address p clearance evidence db db' b account
          wallet task reward asked h in
      left
      ∙ ap (insert_or_replace claim_key row) (Runs-table xs db r before)
      ∙ insert_or_replace-fresh claim_key row xs fresh

  -- After every sequence of requests to claim in which the claims of the requests that returned
  -- have ids of their own, the table holds these claims, in their order; no two of them are of the
  -- same account and task, and the rewards of an account's claims come to 550 NYXT at most. The ids
  -- come from run ids that the callers choose, and the code does not check that they differ. A
  -- request that raises after its grant is committed has paid without a claim and is not counted.
  pub Runs-once :
      (xs : List AirdropClaim) (db : Db)
      → Runs xs db
      → HasOwnKeys claim_key xs
      → (db.airdrop_claims ≡ xs)
        × ((account task : String) → times account task xs ≤ 1)
        × ((account : String) → rewards account xs ≤ 550)
  Runs-once xs db r own =
      let table = Runs-table xs db r own in
      let (once, tasks) : ((account task : String) → times account task xs ≤ 1) × All IsTask xs =
        rw (← table) (Runs-table_once xs db r) in
      (
        table,
        once,
        λ a.
            omega (
              arith,
              rewards-times a xs tasks,
              once a "trade_1",
              once a "chat_1",
              once a "store_1",
            ),
      )

  -- A request that returns under a run id whose claim stands in the table, wherever, removes that
  -- claim, if no other claim has its id: the table holds the claims before it and after it, and the
  -- new one.
  pub execute_airdrop_claim_v1_reused :
      (now seed : ℕ) (run_id account_id wallet_address : String) (p : Fields)
      (clearance : Checked (Unit {0})) (evidence : Evidence) (db db' : Db) (b : ℕ)
      (account wallet task : String) (reward : ℕ) (old : AirdropClaim)
      (before after : List AirdropClaim)
      → db.airdrop_claims ≡ before ++ (old ∷ after)
      → old.claim_id ≡ make_id "airdrop-claim" run_id
      → All (λ x. claim_key x ≢ make_id "airdrop-claim" run_id) before
      → All (λ x. claim_key x ≢ make_id "airdrop-claim" run_id) after
      → IsClaim account_id wallet_address p db account wallet task reward
      → request
          (execute_airdrop_claim_v1 route_fee make_id now seed run_id account_id wallet_address p
            clearance evidence)
          db
        ≡ (ok b, db')
      → db'.airdrop_claims
        ≡ before ++ after ++ (claim_row route_fee make_id now run_id account task reward ∷ [])
  execute_airdrop_claim_v1_reused now seed run_id account_id wallet_address p clearance evidence db
        db' b account wallet task reward old before after table used fresh fresh' asked h =
      let row = claim_row route_fee make_id now run_id account task reward in
      let (_, _, left) =
        claim-ok now seed run_id account_id wallet_address p clearance evidence db db' b account
          wallet task reward asked h in
      left
      ∙ ap (insert_or_replace claim_key row) table
      ∙ insert_or_replace-used claim_key row old before after used fresh fresh'
