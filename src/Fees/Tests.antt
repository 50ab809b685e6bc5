-- ===== src/Fees/Tests.antt =====
-- The theorems on fees at a concrete action.
use nyx_dirty_and_develop.Base.{
  ◌+◌, ◌≤◌, ◌≡◌, refl, arith, [], ◌∷◌, String, text_eq, text_discrete, some, none, ok,
  if◌then◌else◌, length, replicate, Bytes, compare_digest,
}
use nyx_dirty_and_develop.Base.Int.{pos}
use nyx_dirty_and_develop.Fees.Vector.{FeeVector, base, bytes, compute, same_vector}
use nyx_dirty_and_develop.Fees.Canonical.{
  Value, integer, object, no_entries, entry, normalize, normalize_entries, canonicalize,
}
use nyx_dirty_and_develop.Fees.Action.{
  require_text, require_bytes32, check_action, canonical_bytes, framed_preimage,
  encode_len_prefixed,
}
use nyx_dirty_and_develop.Fees.Engine.{create_receipt, enforce}
use nyx_dirty_and_develop.Fees.Platform.{
  PlatformFeeQuote, PlatformFeeReceipt, check_receipt, enforce_platform_fee,
}
use nyx_dirty_and_develop.Fees.Route.{
  Payload, payload_amount, platform_fee_amount, fields_of, route_fee,
}
use nyx_dirty_and_develop.Fees.Laws.{platform_fee_amount_bounds, IsPaid, enforce_platform_fee-ok}
use nyx_dirty_and_develop.Fees.Charges.{route_fee_lem}

-- A digest of the length, and JSON texts that are empty.
abbrev digest : Bytes → Bytes
digest bs = length bs ∷ replicate 31 0

abbrev quote_text : Bytes → FeeVector → String → Bytes
quote_text hash v payer = []

abbrev receipt_text : Bytes → Bytes → String → FeeVector → Bytes
receipt_text hash action_hash payer v = []

abbrev price_of_500 : Payload
price_of_500 key = if text_eq key "price" then some (pos 500) else none

platform_fee_amount_bounds_example :
    (1 ≤ platform_fee_amount 10 price_of_500)
    × (platform_fee_amount 10 price_of_500 ≤ payload_amount price_of_500)
platform_fee_amount_bounds_example =
    platform_fee_amount_bounds 10 price_of_500 (omega arith) (omega arith)

abbrev vector : FeeVector
vector = record { components = (base, 1) ∷ (bytes, 4) ∷ (compute, 0) ∷ [] }

abbrev quoted : PlatformFeeQuote
quoted = record {
  protocol_quote = record {
    action_hash = digest [];
    fee_vector = vector;
    payer = "payer";
    quote_hash = digest [];
  };
  platform_fee_amount = 2;
  total_due = 7;
  payer = "payer";
}

abbrev receipt : PlatformFeeReceipt
receipt = record {
  quote_hash = digest [];
  protocol_receipt = record {
    quote_hash = digest [];
    action_hash = digest [];
    payer = "payer";
    paid_vector = vector;
    receipt_hash = digest [];
  };
  platform_fee_amount = 2;
  total_paid = 7;
  payer = "payer";
}

paid_ok :
    enforce_platform_fee digest quote_text receipt_text quoted vector (pos 2) "payer" ≡ ok receipt
unfolding enforce_platform_fee check_receipt same_vector enforce create_receipt require_text
    require_bytes32 compare_digest text_discrete
paid_ok = refl

enforce_platform_fee-ok_example : IsPaid quoted vector (pos 2) "payer" receipt
enforce_platform_fee-ok_example =
    enforce_platform_fee-ok digest quote_text receipt_text quoted vector (pos 2) "payer" receipt
      paid_ok

abbrev order_at_500 : Value
order_at_500 = object (entry "price" (integer (pos 500)) no_entries)

route_fee_lem_example :
    route_fee digest quote_text receipt_text
      (λ id. id)
      "treasury"
      10
      (λ s. [])
      (λ v. 1 ∷ 2 ∷ [])
      "market"
      "buy"
      order_at_500
      "run1"
    ≡ ok (record {
      fee_id = "run1";
      module_name = "market";
      action = "buy";
      protocol_fee_total = 1 + 2;
      platform_fee_amount = platform_fee_amount 10 (fields_of order_at_500);
      total_paid = 1 + 2 + platform_fee_amount 10 (fields_of order_at_500);
      fee_address = "treasury";
      run_id = "run1";
    })
unfolding check_action canonical_bytes framed_preimage encode_len_prefixed require_text canonicalize
    normalize normalize_entries text_discrete
route_fee_lem_example =
    route_fee_lem digest quote_text receipt_text (λ bs. refl) (λ s. []) (λ v. 1 ∷ 2 ∷ []) (λ id. id)
      "treasury" 10 "market" "buy" order_at_500 "run1"
