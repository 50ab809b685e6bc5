-- ===== src/Fees/Route.antt =====
-- fees.py of the gateway. The treasury address and the basis points are settings; `_fee_id`, a
-- SHA-256 digest, is a parameter. The amounts of a payload are read from its integer fields.
use nyx_dirty_and_develop.Base.{
  ℕ, suc, ◌*◌, ◌/◌, ◌==◌, Option, none, some, List, [], ◌∷◌, String, text_eq, if◌then◌else◌, ok,
  ◌>>=◌, ◌>>◌, Bytes,
}
use nyx_dirty_and_develop.Base.Int.{ℤ, pos}
use nyx_dirty_and_develop.Gateway.Store.{FeeLedger}
use nyx_dirty_and_develop.Fees.Vector.{Outcome, state_mutation, FeeVector, total}
use nyx_dirty_and_develop.Fees.Canonical.{Value, integer, object, Entries, no_entries, entry}
use nyx_dirty_and_develop.Fees.Action.{ActionDescriptor, check_action}
use nyx_dirty_and_develop.Fees.Platform.{quote_platform_fee, enforce_platform_fee}

abbrev pub Payload : Type 0
Payload = String → Option ℤ

-- The integer fields of a dictionary: `payload.get(key)`, where it is an `int`. Another value has
-- none.
unfoldable pub integer_field : Entries → Payload
integer_field no_entries key = none
integer_field (entry k v es) key =
    if text_eq k key then elim v [ integer n ↦ some n | _ ↦ none ] else integer_field es key

abbrev pub fields_of : Value → Payload
fields_of (object es) = integer_field es
fields_of _ = λ key. none

-- The loop of `_payload_amount`
unfoldable pub first_positive : Payload → List String → ℕ
first_positive p [] = 1
first_positive p (key ∷ keys) = elim (p key) [
  | some (pos (suc n)) ↦ suc n
  | _ ↦ first_positive p keys
]

abbrev pub payload_amount : Payload → ℕ
payload_amount p = first_positive p ("amount" ∷ "price" ∷ "qty" ∷ [])

-- `_platform_fee_amount`
unfoldable pub platform_fee_amount : ℕ → Payload → ℕ
platform_fee_amount bps p =
    if bps == 0
    then 0
    else (let amount = payload_amount p * bps / 10_000 in if amount == 0 then 1 else amount)

-- The action of a call
abbrev pub described : String → String → Value → ActionDescriptor
described module_name action payload = record {
  kind = state_mutation;
  module_name = module_name;
  action = action;
  payload = payload;
  metadata = none;
}

module _ (sha256 : Bytes → Bytes) (quote_text : Bytes → FeeVector → String → Bytes)
    (receipt_text : Bytes → Bytes → String → FeeVector → Bytes) (fee_id : String → String)
    (fee_address : String) (bps : ℕ) where
  unfoldable pub route_fee :
      (String → Bytes) → (Value → Bytes) → String → String → Value → String → Outcome FeeLedger
  route_fee utf8 json_text module_name action payload run_id = do
    let descriptor = described module_name action payload
    check_action json_text descriptor
    q ←
        quote_platform_fee sha256 quote_text receipt_text utf8 json_text descriptor "testnet-payer"
          (pos (platform_fee_amount bps (fields_of payload)))
    r ←
        enforce_platform_fee sha256 quote_text receipt_text q q.protocol_quote.fee_vector
          (pos q.platform_fee_amount) q.payer
    ok (record {
      fee_id = fee_id run_id;
      module_name = module_name;
      action = action;
      protocol_fee_total = total q.protocol_quote.fee_vector;
      platform_fee_amount = q.platform_fee_amount;
      total_paid = r.total_paid;
      fee_address = fee_address;
      run_id = run_id;
    })
