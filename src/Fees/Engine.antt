-- ===== src/Fees/Engine.antt =====
-- quote.py and engine.py. SHA-256 and the JSON texts are parameters: of a quote, of a receipt, and of
-- a value.
use nyx_dirty_and_develop.Base.{
  not, [], ◌∷◌, String, text_eq, length, ok, ◌>>=◌, ◌>>◌, raise_if, compare_digest, Bytes,
}
use nyx_dirty_and_develop.Base.Int.{pos}
use nyx_dirty_and_develop.Fees.Vector.{
  Outcome, read_only, state_mutation, base, bytes, compute, FeeVector, for_action, same_vector,
}
use nyx_dirty_and_develop.Fees.Canonical.{Value}
use nyx_dirty_and_develop.Fees.Action.{
  ActionDescriptor, require_text, require_bytes32, canonical_bytes, framed_preimage,
}

pub record FeeQuote : Type 0 where
  pub action_hash : Bytes
  pub fee_vector : FeeVector
  pub payer : String
  pub quote_hash : Bytes

pub record FeePayment : Type 0 where
  pub payer : String
  pub quote_hash : Bytes
  pub paid_vector : FeeVector

pub record FeeReceipt : Type 0 where
  pub quote_hash : Bytes
  pub action_hash : Bytes
  pub payer : String
  pub paid_vector : FeeVector
  pub receipt_hash : Bytes

-- `_calculate_fee_vector`
unfoldable pub calculate_fee_vector : (Value → Bytes) → ActionDescriptor → Outcome FeeVector
calculate_fee_vector json_text a = do
  canonical ← canonical_bytes json_text a
  elim a.kind [
    | read_only ↦ for_action read_only ((base, pos 0) ∷ (bytes, pos 0) ∷ (compute, pos 0) ∷ [])
    | state_mutation ↦
        for_action state_mutation
          ((base, pos 1) ∷ (bytes, pos (length canonical)) ∷ (compute, pos 0) ∷ [])
  ]

module _ (sha256 : Bytes → Bytes) (quote_text : Bytes → FeeVector → String → Bytes)
    (receipt_text : Bytes → Bytes → String → FeeVector → Bytes) where
  -- `create_quote`, with the checks of `FeeQuote.__post_init__`
  unfoldable pub create_quote : Bytes → FeeVector → String → Outcome FeeQuote
  create_quote action_hash v payer = do
    require_bytes32 action_hash "action_hash"
    let quote_hash = sha256 (quote_text action_hash v payer)
    require_text payer "payer"
    require_bytes32 quote_hash "quote_hash"
    raise_if (not (compare_digest quote_hash (sha256 (quote_text action_hash v payer))))
        "quote_hash mismatch"
    ok (record {
      action_hash = action_hash;
      fee_vector = v;
      payer = payer;
      quote_hash = quote_hash;
    })

  -- `create_receipt`, with the checks of `FeeReceipt.__post_init__`
  unfoldable pub create_receipt : FeeQuote → FeePayment → Outcome FeeReceipt
  create_receipt q p = do
    require_bytes32 q.quote_hash "quote_hash"
    require_bytes32 q.action_hash "action_hash"
    let receipt_hash = sha256 (receipt_text q.quote_hash q.action_hash p.payer p.paid_vector)
    require_text p.payer "payer"
    require_bytes32 receipt_hash "receipt_hash"
    ok (record {
      quote_hash = q.quote_hash;
      action_hash = q.action_hash;
      payer = p.payer;
      paid_vector = p.paid_vector;
      receipt_hash = receipt_hash;
    })

  -- `FeeEngineV0.quote`, with `action_hash`; then `sponsor` and `enforce`
  unfoldable pub quote :
      (String → Bytes) → (Value → Bytes) → ActionDescriptor → String → Outcome FeeQuote
  quote utf8 json_text a payer = do
    require_text payer "payer"
    v ← calculate_fee_vector json_text a
    preimage ← framed_preimage utf8 json_text a
    create_quote (sha256 preimage) v payer

  unfoldable pub sponsor : FeeQuote → String → Outcome FeeQuote
  sponsor q new_payer = do
    require_text new_payer "new_payer"
    create_quote q.action_hash q.fee_vector new_payer

  unfoldable pub enforce : FeeQuote → FeePayment → Outcome FeeReceipt
  enforce q p = do
    raise_if (not (compare_digest p.quote_hash q.quote_hash)) "quote_hash mismatch"
    raise_if (not (text_eq p.payer q.payer)) "payer mismatch"
    raise_if (not (same_vector p.paid_vector q.fee_vector)) "paid_vector mismatch"
    create_receipt q p
