-- ===== src/Gateway/Inserts.antt =====
-- The `insert_…` functions of storage.py for the records of the requests: checks, then
-- `INSERT OR REPLACE`. The first six commit; the claims leave that to their caller.
pub mod Laws
use nyx_dirty_and_develop.Base
use nyx_dirty_and_develop.Base.{
  ℕ, ◌≡◌, Bool, true, false, ◌||◌, ◌&&◌, if◌then◌else◌, ◌==◌, List, [], ◌∷◌, String, text_eq, codes,
  fullmatch, is_alnum, is_upper, is_digit, between, length, ltb, raise_if, ok, arith,
}
use nyx_dirty_and_develop.Base.Int.{pos}
use nyx_dirty_and_develop.Gateway.Monad.{M, storage, check, modify, ◌>>=◌, ◌>>◌}
use nyx_dirty_and_develop.Gateway.Validate.{
  Checked, validate_pattern, validate_text, validate_wallet_address, validate_asset, validate_int,
  is_name_char, is_asset_char,
}
use nyx_dirty_and_develop.Gateway.Wallet.{bind_integer}
use nyx_dirty_and_develop.Gateway.Tables.{insert_or_replace}
use nyx_dirty_and_develop.Gateway.Store.{
  Db, Conn, committing, FeeLedger, Listing, Purchase, FaucetClaim, AirdropClaim, MessageEvent,
  EvidenceRun, Receipt,
}

-- `[A-Fa-f0-9]`
abbrev is_hex : ℕ → Bool
is_hex c = is_digit c || between b'A' b'F' c || between b'a' b'f' c

abbrev check_hash : String → String → Checked (Unit {0})
check_hash = validate_pattern (fullmatch is_hex 16 128)

abbrev is_empty : List String → Bool
is_empty [] = true
is_empty (_ ∷ _) = false

unfoldable pub insert_evidence_run : EvidenceRun → M Conn (Unit {0})
insert_evidence_run r = committing (do
  check (validate_text r.run_id "run_id")
  check (validate_text r.module_name "module")
  check (validate_text r.action "action")
  check (validate_int (pos r.seed) "seed" 0)
  check (check_hash r.state_hash "state_hash")
  check (raise_if (is_empty r.receipt_hashes) (storage "receipt_hashes required"))
  bind_integer r.seed
  modify (λ db. record db {
    evidence_runs = insert_or_replace (λ (e : EvidenceRun). e.run_id) r db.evidence_runs;
  }))

unfoldable pub insert_receipt : Receipt → M Conn (Unit {0})
insert_receipt r = committing (do
  check (validate_text r.receipt_id "receipt_id")
  check (validate_text r.module_name "module")
  check (validate_text r.action "action")
  check (check_hash r.state_hash "state_hash")
  check (raise_if (is_empty r.receipt_hashes) (storage "receipt_hashes required"))
  check (validate_text r.run_id "run_id")
  modify (λ db. record db {
    receipts = insert_or_replace (λ (e : Receipt). e.receipt_id) r db.receipts;
  }))

-- `[A-Za-z0-9_:-]`
abbrev is_fee_address_char : ℕ → Bool
is_fee_address_char c = is_name_char c || c == b':'

unfoldable pub insert_fee_ledger : FeeLedger → M Conn (Unit {0})
insert_fee_ledger r = committing (do
  check (validate_text r.fee_id "fee_id")
  check (validate_text r.module_name "module")
  check (validate_text r.action "action")
  check (validate_int (pos r.protocol_fee_total) "protocol_fee_total" 1)
  check (validate_int (pos r.platform_fee_amount) "platform_fee_amount" 0)
  check (validate_int (pos r.total_paid) "total_paid" 1)
  check (validate_pattern (fullmatch is_fee_address_char 8 128) r.fee_address "fee_address")
  check (validate_text r.run_id "run_id")
  bind_integer r.protocol_fee_total
  bind_integer r.platform_fee_amount
  bind_integer r.total_paid
  modify (λ db. record db { fees = insert_or_replace (λ (e : FeeLedger). e.fee_id) r db.fees }))

-- The check of the status, `active` or `sold`, passes.
unfoldable pub insert_listing : Listing → M Conn (Unit {0})
insert_listing r = committing (do
  check (validate_text r.listing_id "listing_id")
  check (validate_text r.publisher_id "publisher_id")
  check (validate_text r.sku "sku")
  check (raise_if (text_eq r.title "") (storage "title required"))
  check (raise_if (ltb 128 (length (codes r.title))) (storage "title too long"))
  check (validate_int (pos r.price) "price" 1)
  check (validate_text r.run_id "run_id")
  bind_integer r.price
  modify (λ db. record db {
    listings = insert_or_replace (λ (e : Listing). e.listing_id) r db.listings;
  }))

unfoldable pub insert_purchase : Purchase → M Conn (Unit {0})
insert_purchase r = committing (do
  check (validate_text r.purchase_id "purchase_id")
  check (validate_text r.listing_id "listing_id")
  check (validate_text r.buyer_id "buyer_id")
  check (validate_int (pos r.qty) "qty" 1)
  check (validate_text r.run_id "run_id")
  bind_integer r.qty
  modify (λ db. record db {
    purchases = insert_or_replace (λ (e : Purchase). e.purchase_id) r db.purchases;
  }))

unfoldable pub insert_message_event : MessageEvent → M Conn (Unit {0})
insert_message_event r = committing (do
  check (validate_text r.message_id "message_id")
  check (validate_text r.channel "channel")
  check (validate_wallet_address r.sender_account_id "sender_account_id")
  check (raise_if (text_eq r.body "") (storage "body required"))
  check (raise_if (ltb 2048 (length (codes r.body))) (storage "body too long"))
  check (validate_text r.run_id "run_id")
  modify (λ db. record db {
    messages = insert_or_replace (λ (e : MessageEvent). e.message_id) r db.messages;
  }))

-- `[A-Za-z0-9_.:-]`
abbrev is_ip_char : ℕ → Bool
is_ip_char c = is_name_char c || c == b'.' || c == b':'

-- An `ip` is never empty here: the caller has put `unknown` in its place.
unfoldable pub insert_faucet_claim : FaucetClaim → M Db (Unit {0})
insert_faucet_claim r = do
  check (validate_text r.claim_id "claim_id")
  check (validate_wallet_address r.account_id "account_id")
  check (validate_wallet_address r.address "address")
  check (validate_asset r.asset_id)
  check (validate_int (pos r.amount) "amount" 1)
  check (validate_pattern (fullmatch is_ip_char 1 64) r.ip "ip")
  check (validate_int (pos r.created_at) "created_at" 1)
  check (validate_text r.run_id "run_id")
  bind_integer r.amount
  bind_integer r.created_at
  modify (λ db. record db {
    faucet_claims = insert_or_replace (λ (e : FaucetClaim). e.claim_id) r db.faucet_claims;
  })

-- `INSERT OR REPLACE INTO airdrop_claims`: the table has two keys, the id of the claim and its
-- account with its task.
unfoldable pub delete_claim : String → String → List AirdropClaim → List AirdropClaim
delete_claim account task [] = []
delete_claim account task (r ∷ rs) =
    if text_eq r.account_id account && text_eq r.task_id task
    then delete_claim account task rs
    else r ∷ delete_claim account task rs

unfoldable pub replace_claim : AirdropClaim → List AirdropClaim → List AirdropClaim
replace_claim r rs =
    insert_or_replace (λ (e : AirdropClaim). e.claim_id) r (delete_claim r.account_id r.task_id rs)

unfoldable pub insert_airdrop_claim : AirdropClaim → M Db (Unit {0})
insert_airdrop_claim r = do
  check (validate_text r.claim_id "claim_id")
  check (validate_wallet_address r.account_id "account_id")
  check (validate_pattern (fullmatch is_name_char 1 32) r.task_id "task_id")
  check (validate_int (pos r.reward) "reward" 1)
  check (validate_int (pos r.created_at) "created_at" 1)
  check (validate_text r.run_id "run_id")
  bind_integer r.reward
  bind_integer r.created_at
  modify (λ db. record db { airdrop_claims = replace_claim r db.airdrop_claims })
