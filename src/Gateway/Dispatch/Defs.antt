-- ===== src/Gateway/Dispatch/Defs.antt =====
-- `execute_run` for `place_order` and `cancel_order`, with the checks of validation.py on their
-- payloads. `upper` is Python's, and `str` is its text of a value that is no text.
use nyx_dirty_and_develop.Base
use nyx_dirty_and_develop.Base.{
  ℕ, ◌+◌, Bool, true, false, not, ltb, Option, none, some, String, text_eq, strip, raise_if,
  or_raise, if◌then◌else◌, Result, ok, err,
}
use nyx_dirty_and_develop.Fees.{Payload}
use nyx_dirty_and_develop.Gateway.Monad.{
  Error, M, gateway, exchange, pure, check, gets, fail_if, ◌>>=◌, ◌>>◌,
}
use nyx_dirty_and_develop.Gateway.Validate.{Checked, validate_text}
use nyx_dirty_and_develop.Gateway.Fields.{
  Value, text, number, other, Fields, integers, max_amount, require_key, require_int,
  validate_address_text, is_supported_asset,
}
use nyx_dirty_and_develop.Gateway.Tables.{select_one}
use nyx_dirty_and_develop.Gateway.Transfers.{apply_wallet_transfer}
use nyx_dirty_and_develop.Gateway.Orders.{order_key}
use nyx_dirty_and_develop.Gateway.Exchange.{place_order, cancel_order}
use nyx_dirty_and_develop.Gateway.Inserts.{insert_fee_ledger}
use nyx_dirty_and_develop.Gateway.Evidence.{Evidence, EvidenceOutcome, run_and_record}
use nyx_dirty_and_develop.Gateway.Marketplace.{check_caller, check_balance, nyxt_transfer}
use nyx_dirty_and_develop.Gateway.Store.{
  Conn, FeeLedger, Side, buy, sell, is_open, Order, OrderRow, committing,
}

-- `require_asset_id`, for any key
unfoldable pub require_asset : Option Value → String → Checked String
require_asset (some (text s)) key =
    Base.◌>>◌ (raise_if (text_eq s "") (gateway (Base.text_append key " required"))) (
      Base.◌>>◌
        (raise_if (not (is_supported_asset (strip s)))
          (gateway (Base.text_append key " unsupported")))
        (ok (strip s)))
require_asset none key = ok "NYXT"
require_asset (some (number _)) key = err (gateway (Base.text_append key " required"))
require_asset (some other) key = err (gateway (Base.text_append key " required"))

-- The side, by its text in upper case
unfoldable pub side_of : String → Checked Side
side_of s =
    if text_eq s "BUY"
    then ok buy
    else if text_eq s "SELL"
    then ok sell
    else err (gateway "side invalid")

pub record OrderRequest : Type 0 where
  pub side : Side
  pub amount : ℕ
  pub price : ℕ
  pub asset_in : String
  pub asset_out : String
  pub owner_address : String
  pub fields : Fields

abbrev text_of : (Value → String) → Value → String
text_of str (text s) = s
text_of str v = str v

unfoldable pub validate_exchange_payload :
    (Value → String) → (String → String) → Fields → Checked OrderRequest
validate_exchange_payload str upper p = Base.◌>>=◌ (require_key p "side") λ side.
    Base.◌>>=◌ (require_key p "amount") λ _. Base.◌>>=◌ (require_key p "price") λ _.
      Base.◌>>=◌ (require_key p "asset_in") λ _. Base.◌>>=◌ (require_key p "asset_out") λ _.
        Base.◌>>=◌ (require_key p "owner_address") λ owner.
          Base.◌>>=◌ (side_of (upper (text_of str side))) λ s.
            Base.◌>>=◌ (require_int p "amount" 1 max_amount) λ amount.
              Base.◌>>=◌ (require_int p "price" 1 max_amount) λ price.
                Base.◌>>=◌ (require_asset (p "asset_in") "asset_in") λ asset_in.
                  Base.◌>>=◌ (require_asset (p "asset_out") "asset_out") λ asset_out.
                    Base.◌>>=◌ (validate_address_text (some owner) "owner_address") λ address.
                      ok (record {
                        side = s;
                        amount = amount;
                        price = price;
                        asset_in = asset_in;
                        asset_out = asset_out;
                        owner_address = address;
                        fields = p;
                      })

-- `validate_cancel`: the id of the order
unfoldable pub validate_cancel : Fields → Checked String
validate_cancel p = elim (p "order_id") [
  | some (text s) ↦ if text_eq s "" then err (gateway "order_id required") else ok (strip s)
  | _ ↦ err (gateway "order_id required")
]

-- `except ExchangeError as exc: raise GatewayError(str(exc))`
abbrev pub as_gateway : {A : Type 0} → Result Error A × Conn → Result Error A × Conn
as_gateway (ok a, c) = (ok a, c)
as_gateway (err (exchange m), c) = (err (gateway m), c)
as_gateway (err e, c) = (err e, c)

abbrev pub is_open_row : OrderRow → Bool
is_open_row r = elim r.status [ is_open ↦ true | _ ↦ false ]

-- `load_by_id(conn, "orders", "order_id", value)`
unfoldable pub load_order : String → M Conn (Option OrderRow)
load_order value = do
  check (validate_text value "value")
  gets (λ c. select_one order_key value c.working.orders)

-- The check that the caller may cancel the order
unfoldable pub check_owner : String → String → M Conn (Unit {0})
check_owner caller id = do
  found ← load_order id
  r ← check (or_raise found (gateway "order_id not found"))
  check (raise_if (not (text_eq r.owner_address caller)) (gateway "order_id ownership mismatch"))
  check (raise_if (not (is_open_row r)) (gateway "order not cancellable"))

-- `if caller_wallet_address: …`
unfoldable pub check_cancel : String → String → M Conn (Unit {0})
check_cancel caller id = if text_eq caller "" then pure tt else check_owner caller id

-- The NYXT that an order needs: the fee, and the amount if it is paid in NYXT.
abbrev pub required_nyxt : OrderRequest → FeeLedger → ℕ
required_nyxt v fee = fee.total_paid + (if text_eq v.asset_in "NYXT" then v.amount else 0)

-- `payload` of a cancellation is `{"order_id": …}`: it has no integers.
abbrev pub no_integers : Payload
no_integers k = none

module _ (str : Value → String) (upper : String → String)
    (route_fee : String → String → Payload → String → Checked FeeLedger)
    (make_id : String → String → String) (fee_address : String)
    (trade_id : String → String → ℕ → String) where
  -- The fee of an order or a cancellation is taken after it.
  unfoldable pub pay_fee : String → String → FeeLedger → M Conn (Unit {0})
  pay_fee run_id caller fee = do
    fail_if (text_eq caller "") (gateway "auth required")
    balances ← committing (
        apply_wallet_transfer
          (nyxt_transfer (make_id "fee" run_id) caller fee.fee_address 0 fee run_id))
    pure tt

  abbrev pub order_of : String → OrderRequest → Order
  order_of run_id v = record {
    order_id = make_id "order" run_id;
    owner_address = v.owner_address;
    side = v.side;
    amount = v.amount;
    price = v.price;
    asset_in = v.asset_in;
    asset_out = v.asset_out;
    run_id = run_id;
  }

  -- `execute_run`, from the check of the balance on
  unfoldable pub fill_and_pay : String → OrderRequest → String → FeeLedger → M Conn (Unit {0})
  fill_and_pay run_id v caller fee = do
    check_balance caller (required_nyxt v fee) "insufficient NYXT balance for amount + fee"
    result ← λ c. as_gateway (place_order fee_address trade_id (order_of run_id v) c)
    pay_fee run_id caller fee

  unfoldable pub execute_place_order :
      ℕ → String → Fields → String → Checked (Unit {0}) → Evidence → M Conn EvidenceOutcome
  execute_place_order seed run_id payload caller clearance evidence = do
    v ← check (validate_exchange_payload str upper payload)
    check (check_caller caller v.owner_address "owner_address mismatch")
    check clearance
    outcome ← run_and_record make_id seed run_id "exchange" "place_order" evidence
    fee ← check (route_fee "exchange" "place_order" (integers v.fields) run_id)
    insert_fee_ledger fee
    fill_and_pay run_id v caller fee
    pure outcome

  -- `execute_run`, from the check of the owner on
  unfoldable pub cancel_and_pay : String → String → String → FeeLedger → M Conn (Unit {0})
  cancel_and_pay run_id id caller fee = do
    check_cancel caller id
    λ c. as_gateway (cancel_order id c)
    pay_fee run_id caller fee

  unfoldable pub execute_cancel_order :
      ℕ → String → Fields → String → Checked (Unit {0}) → Evidence → M Conn EvidenceOutcome
  execute_cancel_order seed run_id payload caller clearance evidence = do
    id ← check (validate_cancel payload)
    check clearance
    outcome ← run_and_record make_id seed run_id "exchange" "cancel_order" evidence
    fee ← check (route_fee "exchange" "cancel_order" no_integers run_id)
    insert_fee_ledger fee
    cancel_and_pay run_id id caller fee
    pure outcome
