-- ===== src/Gateway/Airdrop/Defs.antt =====
-- `execute_airdrop_claim_v1`, with its own queries on the tables.
use nyx_dirty_and_develop.Base
use nyx_dirty_and_develop.Base.{
  ℕ, ◌&&◌, Bool, true, false, not, ltb, Option, none, some, String, text_eq, text_append, fullmatch,
  raise_if, or_raise, is_some, if◌then◌else◌, List, [], ◌∷◌, map,
}
use nyx_dirty_and_develop.Base.Int.{pos}
use nyx_dirty_and_develop.Fees.{Payload}
use nyx_dirty_and_develop.Gateway.Monad.{M, api, pure, check, gets, ◌>>=◌, ◌>>◌}
use nyx_dirty_and_develop.Gateway.Validate.{Checked, is_name_char}
use nyx_dirty_and_develop.Gateway.Fields.{Value, text, Fields, validate_address_text}
use nyx_dirty_and_develop.Gateway.Tables.{select_one}
use nyx_dirty_and_develop.Gateway.Orders.{text_before}
use nyx_dirty_and_develop.Gateway.Orders.Sorting.{sort}
use nyx_dirty_and_develop.Gateway.Transfers.{apply_wallet_faucet_with_fee}
use nyx_dirty_and_develop.Gateway.Inserts.{insert_fee_ledger, insert_airdrop_claim}
use nyx_dirty_and_develop.Gateway.Evidence.{Evidence, run_and_record}
use nyx_dirty_and_develop.Gateway.Store.{
  Db, Conn, FeeLedger, AirdropClaim, OrderRow, Trade, MessageEvent, Purchase, on_working, commit,
  committing,
}

-- `_AIRDROP_TASKS_V1`: ids and rewards
abbrev pub airdrop_tasks : List (String × ℕ)
airdrop_tasks = ("trade_1", 250) ∷ ("chat_1", 100) ∷ ("store_1", 200) ∷ []

unfoldable pub find_task : String → List (String × ℕ) → Option ℕ
find_task id [] = none
find_task id ((k, reward) ∷ ts) = if text_eq k id then some reward else find_task id ts

-- `SELECT … FROM airdrop_claims WHERE account_id = ? AND task_id = ?`
unfoldable pub find_claim : String → String → List AirdropClaim → Option AirdropClaim
find_claim account task [] = none
find_claim account task (r ∷ rs) =
    if text_eq r.account_id account && text_eq r.task_id task
    then some r
    else find_claim account task rs

-- `ORDER BY key ASC LIMIT 1`, of keys with run ids
unfoldable pub first_run : List (String × String) → Option String
first_run rows = elim (sort (λ x y. text_before x.0 y.0) rows) [ [] ↦ none | r ∷ _ ↦ some r.1 ]

-- `FROM trades t JOIN orders o ON o.order_id = t.order_id WHERE o.owner_address = ?`
unfoldable pub trade_rows : String → List OrderRow → List Trade → List (String × String)
trade_rows wallet orders [] = []
trade_rows wallet orders (t ∷ ts) =
    let rest = trade_rows wallet orders ts in
    elim (select_one (λ (o : OrderRow). o.order_id) t.order_id orders) [
      | none ↦ rest
      | some o ↦ if text_eq o.owner_address wallet then (t.trade_id, o.run_id) ∷ rest else rest
    ]

-- `FROM messages WHERE sender_account_id = ?`
unfoldable pub message_rows : String → List MessageEvent → List (String × String)
message_rows account [] = []
message_rows account (m ∷ ms) =
    if text_eq m.sender_account_id account
    then (m.message_id, m.run_id) ∷ message_rows account ms
    else message_rows account ms

-- `FROM purchases WHERE buyer_id = ?`
unfoldable pub purchase_rows : String → List Purchase → List (String × String)
purchase_rows wallet [] = []
purchase_rows wallet (p ∷ ps) =
    if text_eq p.buyer_id wallet
    then (p.purchase_id, p.run_id) ∷ purchase_rows wallet ps
    else purchase_rows wallet ps

-- The run that completed a task, as `execute_airdrop_claim_v1` asks for it
unfoldable pub completion_run_id : String → String → String → Db → Option String
completion_run_id account wallet task db =
    if text_eq task "trade_1"
    then first_run (trade_rows wallet db.orders db.trades)
    else if text_eq task "chat_1"
    then first_run (message_rows account db.messages)
    else if text_eq task "store_1"
    then first_run (purchase_rows wallet db.purchases)
    else none

-- The task of a payload, and its reward
unfoldable pub validate_task : Option Value → Checked (String × ℕ)
validate_task (some (text task)) = Base.◌>>◌ (raise_if (text_eq task "") (api "TASK_ID_REQUIRED")) (
    Base.◌>>◌ (raise_if (not (fullmatch is_name_char 1 32 task)) (api "TASK_ID_INVALID")) (
      Base.◌>>=◌ (or_raise (find_task task airdrop_tasks) (api "TASK_UNKNOWN"))
        λ reward. Base.ok (task, reward)))
validate_task _ = Base.err (api "TASK_ID_REQUIRED")

-- The two checks on the tables
unfoldable pub check_task : String → String → String → Db → Checked String
check_task account wallet task db =
    Base.◌>>◌
      (raise_if (is_some (find_claim account task db.airdrop_claims)) (api "TASK_ALREADY_CLAIMED"))
      (or_raise (completion_run_id account wallet task db) (api "TASK_INCOMPLETE"))

-- `{"amount": reward}`
abbrev pub amount_alone : ℕ → Payload
amount_alone n k = if text_eq k "amount" then some (pos n) else none

module _ (route_fee : String → String → Payload → String → Checked FeeLedger)
    (make_id : String → String → String) where
  -- `execute_airdrop_claim_v1`, from the grant on: the new balance
  unfoldable pub grant_reward : ℕ → String → String → String → String → ℕ → FeeLedger → M Conn ℕ
  grant_reward now run_id account wallet task reward fee = do
    (balance, treasury) ← committing (
        apply_wallet_faucet_with_fee (record {
          address = wallet;
          amount = pos reward;
          fee_total = pos fee.total_paid;
          treasury_address = fee.fee_address;
          run_id = text_append "airdrop-" (text_append task (text_append "-" run_id));
          asset_id = "NYXT";
        }))
    insert_fee_ledger fee
    on_working (
        insert_airdrop_claim (record {
          claim_id = make_id "airdrop-claim" run_id;
          account_id = account;
          task_id = task;
          reward = reward;
          created_at = now;
          run_id = run_id;
        }))
    commit
    pure balance

  unfoldable pub execute_airdrop_claim_v1 :
      ℕ → ℕ → String → String → String → Fields → Checked (Unit {0}) → Evidence → M Conn ℕ
  execute_airdrop_claim_v1 now seed run_id account_id wallet_address payload clearance evidence = do
    account ← check (validate_address_text (some (text account_id)) "account_id")
    wallet ← check (validate_address_text (some (text wallet_address)) "wallet_address")
    (task, reward) ← check (validate_task (payload "task_id"))
    check clearance
    db ← gets (λ c. c.working)
    completed ← check (check_task account wallet task db)
    fee ← check (route_fee "wallet" "airdrop" (amount_alone reward) run_id)
    outcome ← run_and_record make_id seed run_id "wallet" "airdrop" evidence
    grant_reward now run_id account wallet task reward fee
