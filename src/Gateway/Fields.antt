-- ===== src/Gateway/Fields.antt =====
-- validation.py of the gateway: the checks on the fields of a request, and assets.py. A payload is
-- a JSON object, read by its keys; a field that is neither a text nor an integer is `other`.
use nyx_dirty_and_develop.Base.{
  ℕ, Bool, not, ◌||◌, String, text_eq, codes, text_append, fullmatch, ltb, length, Option, none,
  some, ok, err, ◌>>=◌, ◌>>◌, raise_if, if◌then◌else◌, strip,
}
use nyx_dirty_and_develop.Base.Int.{ℤ, pos, negsuc}
use nyx_dirty_and_develop.Gateway.Monad.{gateway}
use nyx_dirty_and_develop.Gateway.Validate.{Checked, is_name_char}
use nyx_dirty_and_develop.Fees.{Payload}

pub data Value : Type 0 where
  text : String → Value
  number : ℤ → Value
  other : Value

abbrev pub Fields : Type 0
Fields = String → Option Value

-- The fields that `_payload_amount` of fees.py can read.
abbrev pub integers : Fields → Payload
integers p k = elim (p k) [ some (number n) ↦ some n | _ ↦ none ]

unfoldable pub is_supported_asset : String → Bool
is_supported_asset s = text_eq s "NYXT" || text_eq s "ECHO" || text_eq s "USDX"

unfoldable pub validate_address_text : Option Value → String → Checked String
validate_address_text (some (text s)) name = do
  raise_if (text_eq s "") (gateway (text_append name " required"))
  raise_if (not (fullmatch is_name_char 1 64 (strip s))) (gateway (text_append name " invalid"))
  ok (strip s)
validate_address_text _ name = err (gateway (text_append name " required"))

abbrev pub max_amount : ℕ
max_amount = 1_000_000

-- `require_int`, with both bounds
unfoldable pub require_int : Fields → String → ℕ → ℕ → Checked ℕ
require_int p key low high = elim (p key) [
  | some (number (pos n)) ↦
      if ltb n low
      then err (gateway (text_append key " out of bounds"))
      else if ltb high n
      then err (gateway (text_append key " out of bounds"))
      else ok n
  | some (number (negsuc n)) ↦ err (gateway (text_append key " out of bounds"))
  | _ ↦ err (gateway (text_append key " must be int"))
]

-- `require_amount`, whose test `value <= 0` is `value < 1`
unfoldable pub require_amount : Fields → Checked ℕ
require_amount p = require_int p "amount" 1 max_amount

-- `payload.get(key, "NYXT")`
abbrev asset_field : Fields → Option Value
asset_field p = elim (p "asset_id") [ none ↦ some (text "NYXT") | some v ↦ some v ]

-- `require_asset_id`, for the key `asset_id`
unfoldable pub require_asset_id : Fields → Checked String
require_asset_id p = elim (asset_field p) [
  | some (text s) ↦ (do
    raise_if (text_eq s "") (gateway "asset_id required")
    raise_if (not (is_supported_asset (strip s))) (gateway "asset_id unsupported")
    ok (strip s))
  | _ ↦ err (gateway "asset_id required")
]

-- `if key not in payload: raise …`
abbrev pub require_key : Fields → String → Checked Value
require_key p key = elim (p key) [
  | none ↦ err (gateway (text_append key " required"))
  | some v ↦ ok v
]

pub record WalletTransfer : Type 0 where
  pub from_address : String
  pub to_address : String
  pub amount : ℕ
  pub asset_id : String
  pub fields : Fields

unfoldable pub validate_wallet_transfer : Fields → Checked WalletTransfer
validate_wallet_transfer p = do
  from ← validate_address_text (p "from_address") "from_address"
  to ← validate_address_text (p "to_address") "to_address"
  amount ← require_amount p
  asset ← require_asset_id p
  ok (record {
    from_address = from;
    to_address = to;
    amount = amount;
    asset_id = asset;
    fields = p;
  })

pub record WalletFaucet : Type 0 where
  pub address : String
  pub amount : ℕ
  pub asset_id : String
  pub fields : Fields

unfoldable pub validate_wallet_faucet : Fields → Checked WalletFaucet
validate_wallet_faucet p = do
  address ← validate_address_text (p "address") "address"
  amount ← require_amount p
  asset ← require_asset_id p
  ok (record { address = address; amount = amount; asset_id = asset; fields = p })

pub record ListingRequest : Type 0 where
  pub publisher_id : String
  pub sku : String
  pub title : String
  pub price : ℕ
  pub fields : Fields

pub record PurchaseRequest : Type 0 where
  pub listing_id : String
  pub buyer_id : String
  pub qty : ℕ
  pub fields : Fields

-- `str(v)` of a value that is not a text is Python's.
module _ (str : Value → String) where
  abbrev to_text : Value → String
  to_text (text s) = s
  to_text v = str v

  abbrev bad_length : ℕ → String → Bool
  bad_length high s = text_eq s "" || ltb high (length (codes s))

  unfoldable pub validate_listing_payload : Fields → Checked ListingRequest
  validate_listing_payload p = do
    v ← require_key p "publisher_id"
    sku ← require_key p "sku"
    title ← require_key p "title"
    price ← require_key p "price"
    publisher ← validate_address_text (some v) "publisher_id"
    amount ← require_int p "price" 1 max_amount
    raise_if (bad_length 64 (strip (to_text sku))) (gateway "sku invalid")
    raise_if (bad_length 128 (strip (to_text title))) (gateway "title invalid")
    ok (record {
      publisher_id = publisher;
      sku = strip (to_text sku);
      title = strip (to_text title);
      price = amount;
      fields = p;
    })

  unfoldable pub validate_purchase_payload : Fields → Checked PurchaseRequest
  validate_purchase_payload p = do
    listing ← require_key p "listing_id"
    v ← require_key p "buyer_id"
    q ← require_key p "qty"
    buyer ← validate_address_text (some v) "buyer_id"
    qty ← require_int p "qty" 1 100
    raise_if (bad_length 128 (strip (to_text listing))) (gateway "listing_id invalid")
    ok (record { listing_id = strip (to_text listing); buyer_id = buyer; qty = qty; fields = p })
