-- ===== src/Gateway/Faucet/Defs.antt =====
-- `execute_wallet_faucet_v1`: its checks, its queries on `faucet_claims`, and its writes. The
-- settings are `Limits`; the time is an argument.
use nyx_dirty_and_develop.Base
use nyx_dirty_and_develop.Base.{
  ℕ, ◌+◌, ◌*◌, ◌&&◌, Bool, true, false, not, ltb, leb, ◌==◌, Option, none, some, String, text_eq,
  text_append, strip, raise_if, if◌then◌else◌, List, [], ◌∷◌,
}
use nyx_dirty_and_develop.Base.Int.{pos}
use nyx_dirty_and_develop.Fees.{Payload}
use nyx_dirty_and_develop.Gateway.Monad.{M, api, pure, check, gets, ◌>>=◌, ◌>>◌}
use nyx_dirty_and_develop.Gateway.Validate.{Checked}
use nyx_dirty_and_develop.Gateway.Fields.{Fields, integers, WalletFaucet, validate_wallet_faucet}
use nyx_dirty_and_develop.Gateway.Transfers.{apply_wallet_faucet_with_fee}
use nyx_dirty_and_develop.Gateway.Inserts.{insert_fee_ledger, insert_faucet_claim}
use nyx_dirty_and_develop.Gateway.Evidence.{Evidence, run_and_record}
use nyx_dirty_and_develop.Gateway.Store.{
  Conn, FeeLedger, FaucetClaim, on_working, commit, committing,
}

-- The settings of the faucet; a limit of 0 is no limit.
pub record Limits : Type 0 where
  pub cooldown : ℕ
  pub max_amount : ℕ
  pub max_claims : ℕ
  pub ip_max_claims : ℕ

abbrev pub day : ℕ
day = 24 * 60 * 60

-- `created_at >= now - 24 * 60 * 60`
abbrev pub in_window : ℕ → FaucetClaim → Bool
in_window now r = leb now (r.created_at + day)

abbrev pub of_account : String → FaucetClaim → Bool
of_account account r = text_eq r.account_id account

abbrev pub of_ip : String → FaucetClaim → Bool
of_ip ip r = text_eq r.ip ip

-- `SELECT COUNT(*) … WHERE p`
unfoldable pub count_claims : (FaucetClaim → Bool) → List FaucetClaim → ℕ
count_claims p [] = 0
count_claims p (r ∷ rs) = (if p r then 1 else 0) + count_claims p rs

-- `SELECT COALESCE(SUM(amount), 0) … WHERE p`
unfoldable pub sum_claims : (FaucetClaim → Bool) → List FaucetClaim → ℕ
sum_claims p [] = 0
sum_claims p (r ∷ rs) = (if p r then r.amount else 0) + sum_claims p rs

-- The greater of a time and the last time so far.
abbrev pub later : ℕ → Option ℕ → Option ℕ
later t none = some t
later t (some u) = some (if ltb t u then u else t)

-- `SELECT created_at … WHERE account_id = ? ORDER BY created_at DESC LIMIT 1`
unfoldable pub last_claim : String → List FaucetClaim → Option ℕ
last_claim account [] = none
last_claim account (r ∷ rs) =
    if of_account account r
    then later r.created_at (last_claim account rs)
    else last_claim account rs

-- The cooldown: `cooldown - (now - last_at) > 0`
unfoldable pub check_cooldown : ℕ → ℕ → Option ℕ → Checked (Unit {0})
check_cooldown cooldown now none = Base.ok tt
check_cooldown cooldown now (some last_at) =
    raise_if (not (cooldown == 0) && ltb now (cooldown + last_at)) (api "FAUCET_COOLDOWN")

-- `if limit and used >= limit: raise …`
abbrev pub check_count : ℕ → ℕ → String → Checked (Unit {0})
check_count limit used code = raise_if (not (limit == 0) && leb limit used) (api code)

-- The checks on the table, in the order of the code.
unfoldable pub check_limits :
    Limits → ℕ → String → String → ℕ → List FaucetClaim → Checked (Unit {0})
check_limits limits now account ip amount claims =
    Base.◌>>◌ (check_cooldown limits.cooldown now (last_claim account claims)) (
      Base.◌>>◌
        (check_count limits.max_claims
          (count_claims (λ r. of_account account r && in_window now r) claims)
          "FAUCET_DAILY_CLAIMS_EXCEEDED")
        (Base.◌>>◌
          (raise_if
            (not (limits.max_amount == 0)
              && ltb limits.max_amount
                  (sum_claims (λ r. of_account account r && in_window now r) claims + amount))
            (api "FAUCET_DAILY_AMOUNT_EXCEEDED"))
          (check_count limits.ip_max_claims
            (count_claims (λ r. of_ip ip r && in_window now r) claims) "FAUCET_IP_LIMIT_EXCEEDED")))

-- `(client_ip or "unknown").strip() or "unknown"`; no address is the empty text
unfoldable pub client_name : String → String
client_name ip =
    if text_eq ip "" then "unknown" else if text_eq (strip ip) "" then "unknown" else strip ip

-- The caller of the request: the account and the wallet of its session, and its address.
pub record Caller : Type 0 where
  pub account_id : String
  pub wallet_address : String
  pub client_ip : String

module _ (limits : Limits) (route_fee : String → String → Payload → String → Checked FeeLedger)
    (make_id : String → String → String) where
  -- `execute_wallet_faucet_v1`, from the grant on: the new balance
  unfoldable pub grant_claim : ℕ → String → Caller → WalletFaucet → FeeLedger → M Conn ℕ
  grant_claim now run_id who v fee = do
    (balance, treasury) ← committing (
        apply_wallet_faucet_with_fee (record {
          address = v.address;
          amount = pos v.amount;
          fee_total = pos fee.total_paid;
          treasury_address = fee.fee_address;
          run_id = run_id;
          asset_id = v.asset_id;
        }))
    insert_fee_ledger fee
    on_working (
        insert_faucet_claim (record {
          claim_id = make_id "faucet-claim" run_id;
          account_id = who.account_id;
          address = v.address;
          asset_id = v.asset_id;
          amount = v.amount;
          ip = client_name who.client_ip;
          created_at = now;
          run_id = run_id;
        }))
    commit
    pure balance

  -- `clearance` is the answer of the compliance service.
  unfoldable pub execute_wallet_faucet_v1 :
      ℕ → ℕ → String → Fields → Caller → Checked (Unit {0}) → Evidence → M Conn ℕ
  execute_wallet_faucet_v1 now seed run_id payload who clearance evidence = do
    v ← check (validate_wallet_faucet payload)
    check (raise_if (not (text_eq v.address who.wallet_address)) (api "FAUCET_ADDRESS_MISMATCH"))
    check clearance
    claims ← gets (λ c. c.working.faucet_claims)
    check (check_limits limits now who.account_id (client_name who.client_ip) v.amount claims)
    fee ← check (route_fee "wallet" "faucet" (integers v.fields) run_id)
    outcome ← run_and_record make_id seed run_id "wallet" "faucet" evidence
    grant_claim now run_id who v fee
