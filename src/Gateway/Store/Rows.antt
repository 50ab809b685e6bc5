-- ===== src/Gateway/Store/Rows.antt =====
-- The rows of the tables of storage.py, as stored. A side and a status are the two and three texts
-- that their checks allow.
use nyx_dirty_and_develop.Base.{ℕ, String, Bool, List}

pub data Side : Type 0 where
  buy sell : Side

pub data Status : Type 0 where
  is_open filled cancelled : Status

-- `Order`, as the gateway builds it from a validated payload.
pub record Order : Type 0 where
  pub order_id : String
  pub owner_address : String
  pub side : Side
  pub amount : ℕ
  pub price : ℕ
  pub asset_in : String
  pub asset_out : String
  pub run_id : String

pub record OrderRow : Type 0 where
  pub order_id : String
  pub owner_address : String
  pub side : Side
  pub amount : ℕ
  pub price : ℕ
  pub asset_in : String
  pub asset_out : String
  pub status : Status
  pub run_id : String

pub record Trade : Type 0 where
  pub trade_id : String
  pub order_id : String
  pub amount : ℕ
  pub price : ℕ
  pub run_id : String

pub record FeeLedger : Type 0 where
  pub fee_id : String
  pub module_name : String
  pub action : String
  pub protocol_fee_total : ℕ
  pub platform_fee_amount : ℕ
  pub total_paid : ℕ
  pub fee_address : String
  pub run_id : String

pub record Listing : Type 0 where
  pub listing_id : String
  pub publisher_id : String
  pub sku : String
  pub title : String
  pub price : ℕ
  pub active : Bool
  pub run_id : String

pub record Purchase : Type 0 where
  pub purchase_id : String
  pub listing_id : String
  pub buyer_id : String
  pub qty : ℕ
  pub run_id : String

pub record FaucetClaim : Type 0 where
  pub claim_id : String
  pub account_id : String
  pub address : String
  pub asset_id : String
  pub amount : ℕ
  pub ip : String
  pub created_at : ℕ
  pub run_id : String

pub record AirdropClaim : Type 0 where
  pub claim_id : String
  pub account_id : String
  pub task_id : String
  pub reward : ℕ
  pub created_at : ℕ
  pub run_id : String

pub record MessageEvent : Type 0 where
  pub message_id : String
  pub channel : String
  pub sender_account_id : String
  pub body : String
  pub run_id : String

pub record EvidenceRun : Type 0 where
  pub run_id : String
  pub module_name : String
  pub action : String
  pub seed : ℕ
  pub state_hash : String
  pub receipt_hashes : List String
  pub replay_ok : Bool

pub record Receipt : Type 0 where
  pub receipt_id : String
  pub module_name : String
  pub action : String
  pub state_hash : String
  pub receipt_hashes : List String
  pub replay_ok : Bool
  pub run_id : String
