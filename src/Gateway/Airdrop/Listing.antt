-- ===== src/Gateway/Airdrop/Listing.antt =====
-- `list_airdrop_tasks_v1`, with its own queries on the tables.
use nyx_dirty_and_develop.Base.{
  ℕ, ◌&&◌, Bool, not, Option, none, some, String, text_eq, is_some, if◌then◌else◌, List, [], ◌∷◌,
  map,
}
use nyx_dirty_and_develop.Gateway.Monad.{M, check, gets, ◌>>=◌}
use nyx_dirty_and_develop.Gateway.Fields.{text, validate_address_text}
use nyx_dirty_and_develop.Gateway.Tables.{select_one}
use nyx_dirty_and_develop.Gateway.Store.{
  Db, Conn, AirdropClaim, OrderRow, Trade, MessageEvent, Purchase,
}
use nyx_dirty_and_develop.Gateway.Airdrop.Defs.{airdrop_tasks, first_run}

-- The run id in the dictionary of an account's claims: the last row of a task counts.
unfoldable pub claimed_run : String → String → List AirdropClaim → Option String
claimed_run account task [] = none
claimed_run account task (r ∷ rs) =
    let later = claimed_run account task rs in
    if is_some later
    then later
    else if text_eq r.account_id account && text_eq r.task_id task
    then some r.run_id
    else none

-- The rows of the queries on trades, on messages and on purchases
unfoldable pub listed_trades : String → List OrderRow → List Trade → List (String × String)
listed_trades wallet orders [] = []
listed_trades wallet orders (t ∷ ts) =
    let rest = listed_trades wallet orders ts in
    elim (select_one (λ (o : OrderRow). o.order_id) t.order_id orders) [
      | none ↦ rest
      | some o ↦ if text_eq o.owner_address wallet then (t.trade_id, o.run_id) ∷ rest else rest
    ]

unfoldable pub listed_messages : String → List MessageEvent → List (String × String)
listed_messages account [] = []
listed_messages account (m ∷ ms) =
    let rest = listed_messages account ms in
    if text_eq m.sender_account_id account then (m.message_id, m.run_id) ∷ rest else rest

unfoldable pub listed_purchases : String → List Purchase → List (String × String)
listed_purchases wallet [] = []
listed_purchases wallet (p ∷ ps) =
    let rest = listed_purchases wallet ps in
    if text_eq p.buyer_id wallet then (p.purchase_id, p.run_id) ∷ rest else rest

-- `completion_run_ids`, and its `get`
unfoldable pub completion_run_ids : String → String → Db → List (String × Option String)
completion_run_ids account wallet db =
    ("trade_1", first_run (listed_trades wallet db.orders db.trades))
    ∷ ("chat_1", first_run (listed_messages account db.messages))
    ∷ ("store_1", first_run (listed_purchases wallet db.purchases))
    ∷ []

unfoldable pub get_run : String → List (String × Option String) → Option String
get_run task [] = none
get_run task ((k, run) ∷ rest) = if text_eq k task then run else get_run task rest

-- An entry of the list of tasks; `completed` and `claimed` are whether the two runs are known. The
-- title and the description are left out.
pub record TaskView : Type 0 where
  pub task_id : String
  pub reward : ℕ
  pub completion_run_id : Option String
  pub claim_run_id : Option String
  pub claimable : Bool

unfoldable pub task_view : String → String → Db → String × ℕ → TaskView
task_view account wallet db (task, reward) =
    let run = get_run task (completion_run_ids account wallet db) in
    let claim = claimed_run account task db.airdrop_claims in
    record {
      task_id = task;
      reward = reward;
      completion_run_id = run;
      claim_run_id = claim;
      claimable = is_some run && not (is_some claim);
    }

unfoldable pub list_airdrop_tasks_v1 : String → String → M Conn (List TaskView)
list_airdrop_tasks_v1 account_id wallet_address = do
  account ← check (validate_address_text (some (text account_id)) "account_id")
  wallet ← check (validate_address_text (some (text wallet_address)) "wallet_address")
  gets (λ c. map (task_view account wallet c.working) airdrop_tasks)
