-- ===== src/Gateway/Validate.antt =====
-- The argument checks of storage.py. A text is returned as it came, so its check returns nothing.
use nyx_dirty_and_develop.Base.{
  ℕ, Bool, not, ◌||◌, String, text_eq, text_append, fullmatch, is_alnum, is_upper, is_digit, Result,
  ok, err, ◌>>=◌, ◌>>◌, raise_if, ltb, ◌==◌, if◌then◌else◌,
}
use nyx_dirty_and_develop.Base.Int.{ℤ, pos, negsuc}
use nyx_dirty_and_develop.Gateway.Monad.{Error, storage}

abbrev pub Checked : Type 0 → Type 0
Checked A = Result Error A

-- `[A-Za-z0-9_./-]`
abbrev is_text_char : ℕ → Bool
is_text_char c = is_alnum c || c == b'_' || c == b'.' || c == b'/' || c == b'-'

-- `[A-Za-z0-9_-]`
abbrev pub is_name_char : ℕ → Bool
is_name_char c = is_alnum c || c == b'_' || c == b'-'

abbrev pub is_asset_char : ℕ → Bool
is_asset_char c = is_upper c || is_digit c

-- `_validate_text` for a given pattern
abbrev pub validate_pattern : (String → Bool) → String → String → Checked (Unit {0})
validate_pattern matches value name = do
  raise_if (text_eq value "") (storage (text_append name " required"))
  raise_if (not (matches value)) (storage (text_append name " invalid"))

unfoldable pub validate_text : String → String → Checked (Unit {0})
validate_text = validate_pattern (fullmatch is_text_char 1 128)

unfoldable pub validate_wallet_address : String → String → Checked (Unit {0})
validate_wallet_address = validate_pattern (fullmatch is_name_char 1 64)

unfoldable pub validate_asset : String → Checked (Unit {0})
validate_asset value = validate_pattern (fullmatch is_asset_char 3 12) value "asset_id"

-- `_validate_int` with a lower bound that is not negative
unfoldable pub validate_int : ℤ → String → ℕ → Checked ℕ
validate_int (negsuc n) name low = err (storage (text_append name " out of bounds"))
validate_int (pos n) name low =
    if ltb n low then err (storage (text_append name " out of bounds")) else ok n

-- `_validate_int` with both bounds
unfoldable pub validate_range : ℤ → String → ℕ → ℕ → Checked ℕ
validate_range v name low high = do
  n ← validate_int v name low
  raise_if (ltb high n) (storage (text_append name " out of bounds"))
  ok n
