-- ===== src/Gateway/Airdrop/Tasks.antt =====
-- What the list of tasks shows is what a claim is checked against.
use nyx_dirty_and_develop.Base
use nyx_dirty_and_develop.Base.{
  ◌↔◌, ◌≡◌, refl, sym, ap, ◌&&◌, ℕ, true, not, arith, String, text_eq, text_discrete, List, [], ◌∷◌,
  Option, none, some, is_some, ok, raise_if, or_raise, if◌then◌else◌,
}
use nyx_dirty_and_develop.Gateway.Monad.{api}
use nyx_dirty_and_develop.Gateway.Store.{Db, AirdropClaim, OrderRow, Trade, MessageEvent, Purchase}
use nyx_dirty_and_develop.Gateway.Airdrop.Defs.{
  find_claim, trade_rows, message_rows, purchase_rows, completion_run_id, check_task,
}
use nyx_dirty_and_develop.Gateway.Airdrop.Listing.{
  claimed_run, listed_trades, listed_messages, listed_purchases, completion_run_ids, get_run,
  task_view,
}

-- A task is in the dictionary of the claims when the query finds a claim of it.
claimed_run-find_claim :
    (account task : String) (xs : List AirdropClaim)
    → is_some (claimed_run account task xs) ≡ is_some (find_claim account task xs)
unfolding claimed_run find_claim
claimed_run-find_claim account task [] = refl
claimed_run-find_claim account task (x ∷ xs) =
    ground (arith, claimed_run-find_claim account task xs)

listed_trades-trade_rows :
    (wallet : String) (orders : List OrderRow) (ts : List Trade)
    → listed_trades wallet orders ts ≡ trade_rows wallet orders ts
unfolding listed_trades trade_rows
listed_trades-trade_rows wallet orders [] = refl
listed_trades-trade_rows wallet orders (t ∷ ts) =
    ground (arith, listed_trades-trade_rows wallet orders ts)

listed_messages-message_rows :
    (account : String) (ms : List MessageEvent)
    → listed_messages account ms ≡ message_rows account ms
unfolding listed_messages message_rows
listed_messages-message_rows account [] = refl
listed_messages-message_rows account (m ∷ ms) =
    ground (arith, listed_messages-message_rows account ms)

listed_purchases-purchase_rows :
    (wallet : String) (ps : List Purchase) → listed_purchases wallet ps ≡ purchase_rows wallet ps
unfolding listed_purchases purchase_rows
listed_purchases-purchase_rows wallet [] = refl
listed_purchases-purchase_rows wallet (p ∷ ps) =
    ground (arith, listed_purchases-purchase_rows wallet ps)

-- The list and the claim ask for the same run of a task.
get_run-completion_run_id :
    (account wallet task : String) (db : Db)
    → get_run task (completion_run_ids account wallet db) ≡ completion_run_id account wallet task db
unfolding get_run completion_run_ids completion_run_id
get_run-completion_run_id account wallet task db = ground (
  arith,
  listed_trades-trade_rows wallet db.orders db.trades,
  listed_messages-message_rows account db.messages,
  listed_purchases-purchase_rows wallet db.purchases,
)

-- For every account, wallet, task and database: the list shows the task as claimable exactly when
-- the checks of a claim pass on the same tables, and then the run that the list shows as its
-- completion is the one that the checks find.
pub task_view_claimable_iff :
    (account wallet task : String) (reward : ℕ) (db : Db)
    → ((task_view account wallet db (task, reward)).claimable ≡ true) ↔ (
        (run : String) × (check_task account wallet task db ≡ ok run)
        × ((task_view account wallet db (task, reward)).completion_run_id ≡ some run))
unfolding task_view check_task
task_view_claimable_iff account wallet task reward db =
    rw
      (
        get_run-completion_run_id account wallet task db,
        claimed_run-find_claim account task db.airdrop_claims,
      )
      (claimable (find_claim account task db.airdrop_claims)
        (completion_run_id account wallet task db))
  where
    claimable :
        (o : Option AirdropClaim) (c : Option String)
        → (is_some c && not (is_some o) ≡ true) ↔ (
            (run : String) × (Base.◌>>◌
                (raise_if (is_some o) (api "TASK_ALREADY_CLAIMED"))
                (or_raise c (api "TASK_INCOMPLETE"))
              ≡ ok run)
            × (c ≡ some run))
    claimable none none = ground arith
    claimable none (some run) = ((λ h. (run, refl, refl)), λ h. refl)
    claimable (some r) none = ground arith
    claimable (some r) (some run) = ground arith
