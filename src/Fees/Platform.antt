-- ===== src/Fees/Platform.antt =====
-- types.py and fee_hook.py of l2-platform-fee.
use nyx_dirty_and_develop.Base.{
  ℕ, ◌+◌, Bool, true, false, not, ◌&&◌, String, text_eq, leb, ◌==◌, if◌then◌else◌, ok, err, ◌>>=◌,
  ◌>>◌, raise_if, compare_digest, Bytes,
}
use nyx_dirty_and_develop.Base.Int.{ℤ, pos, negsuc}
use nyx_dirty_and_develop.Fees.Vector.{
  Outcome, ActionKind, read_only, state_mutation, FeeVector, total, same_vector,
}
use nyx_dirty_and_develop.Fees.Canonical.{Value}
use nyx_dirty_and_develop.Fees.Action.{ActionDescriptor, require_text, require_bytes32}
use nyx_dirty_and_develop.Fees.Engine.{FeeQuote, FeeReceipt, quote, sponsor, enforce}

pub record PlatformFeeQuote : Type 0 where
  pub protocol_quote : FeeQuote
  pub platform_fee_amount : ℕ
  pub total_due : ℕ
  pub payer : String

pub record PlatformFeeReceipt : Type 0 where
  pub quote_hash : Bytes
  pub protocol_receipt : FeeReceipt
  pub platform_fee_amount : ℕ
  pub total_paid : ℕ
  pub payer : String

abbrev pub is_mutation : ActionKind → Bool
is_mutation read_only = false
is_mutation state_mutation = true

-- `PlatformFeeQuote.__post_init__`, of amounts that are not negative
unfoldable pub check_quote : PlatformFeeQuote → Outcome PlatformFeeQuote
check_quote q = do
  raise_if (not (text_eq q.payer q.protocol_quote.payer)) "payer mismatch"
  raise_if (not (q.total_due == total q.protocol_quote.fee_vector + q.platform_fee_amount))
      "total_due mismatch"
  ok q

-- `PlatformFeeReceipt.__post_init__`
unfoldable pub check_receipt : PlatformFeeReceipt → Outcome PlatformFeeReceipt
check_receipt r = do
  raise_if (not (text_eq r.payer r.protocol_receipt.payer)) "payer mismatch"
  raise_if (not (compare_digest r.quote_hash r.protocol_receipt.quote_hash)) "quote_hash mismatch"
  ok r

-- The check that `platform_fee_amount` is not negative
abbrev pub not_negative : ℤ → Outcome ℕ
not_negative (pos n) = ok n
not_negative (negsuc n) = err "platform_fee_amount must be >= 0"

-- `amount != quote.platform_fee_amount`
abbrev pub exact : ℤ → ℕ → Outcome ℕ
exact (negsuc n) m = err "paid_platform_amount mismatch"
exact (pos n) m = if n == m then ok n else err "paid_platform_amount mismatch"

module _ (sha256 : Bytes → Bytes) (quote_text : Bytes → FeeVector → String → Bytes)
    (receipt_text : Bytes → Bytes → String → FeeVector → Bytes) where
  unfoldable pub quote_platform_fee :
      (String → Bytes) → (Value → Bytes) → ActionDescriptor → String → ℤ → Outcome PlatformFeeQuote
  quote_platform_fee utf8 json_text a payer platform_fee_amount = do
    amount ← not_negative platform_fee_amount
    q ← quote sha256 quote_text receipt_text utf8 json_text a payer
    raise_if (is_mutation a.kind && leb (total q.fee_vector) 0)
        "protocol fee must be > 0 for mutation"
    check_quote (record {
      protocol_quote = q;
      platform_fee_amount = amount;
      total_due = total q.fee_vector + amount;
      payer = q.payer;
    })

  unfoldable pub sponsor_platform_fee : PlatformFeeQuote → String → Outcome PlatformFeeQuote
  sponsor_platform_fee q new_payer = do
    sponsored ← sponsor sha256 quote_text receipt_text q.protocol_quote new_payer
    check_quote (record {
      protocol_quote = sponsored;
      platform_fee_amount = q.platform_fee_amount;
      total_due = total sponsored.fee_vector + q.platform_fee_amount;
      payer = sponsored.payer;
    })

  -- The constructor of the payment checks its payer and its hash.
  unfoldable pub enforce_platform_fee :
      PlatformFeeQuote → FeeVector → ℤ → String → Outcome PlatformFeeReceipt
  enforce_platform_fee q paid_vector paid_amount payer = do
    raise_if (not (text_eq payer q.payer)) "payer mismatch"
    raise_if (not (same_vector paid_vector q.protocol_quote.fee_vector))
        "paid_protocol_vector mismatch"
    amount ← exact paid_amount q.platform_fee_amount
    require_text q.payer "payer"
    require_bytes32 q.protocol_quote.quote_hash "quote_hash"
    receipt ← enforce sha256 quote_text receipt_text q.protocol_quote (record {
      payer = q.payer;
      quote_hash = q.protocol_quote.quote_hash;
      paid_vector = paid_vector;
    })
    raise_if (not (total paid_vector + amount == q.total_due)) "total_paid mismatch"
    check_receipt (record {
      quote_hash = q.protocol_quote.quote_hash;
      protocol_receipt = receipt;
      platform_fee_amount = amount;
      total_paid = total paid_vector + amount;
      payer = q.payer;
    })
