-- ===== src/Fees/Canonical.antt =====
-- canonical.py of l2-economics. `json.dumps` with its encoding is a parameter. The texts are of
-- Unicode scalars, so the check on surrogates has nothing to find, and the keys of a dictionary are
-- texts.
use nyx_dirty_and_develop.Base.{ℕ, ◌+◌, Bool, String, ltb, length, ok, err, ◌>>◌, raise_if, Bytes}
use nyx_dirty_and_develop.Base.Int.{ℤ}
use nyx_dirty_and_develop.Fees.Vector.{Outcome}

mutual
  -- A Python value
  pub data Value : Type 0 where
    null float binary set_value other_value : Value
    boolean : Bool → Value
    integer : ℤ → Value
    text : String → Value
    array : Items → Value
    object : Entries → Value

  pub data Items : Type 0 where
    no_items : Items
    item : Value → Items → Items

  pub data Entries : Type 0 where
    no_entries : Entries
    entry : String → Value → Entries → Entries

abbrev pub max_canonical_depth : ℕ
max_canonical_depth = 64

abbrev pub max_canonical_bytes : ℕ
max_canonical_bytes = 1_048_576

-- `depth > max_depth`
abbrev check_depth : ℕ → Outcome (Unit {0})
check_depth depth = raise_if (ltb max_canonical_depth depth) "maximum canonical depth exceeded"

unfoldable mutual
  -- `_normalize`, which returns the value as it is or raises
  pub normalize : ℕ → Value → Outcome (Unit {0})
  normalize depth null = check_depth depth
  normalize depth (boolean b) = check_depth depth
  normalize depth (integer n) = check_depth depth
  normalize depth (text s) = check_depth depth
  normalize depth (array vs) = check_depth depth >> normalize_items (depth + 1) vs
  normalize depth (object es) = check_depth depth >> normalize_entries (depth + 1) es
  normalize depth float = check_depth depth >> err "float values are not permitted"
  normalize depth binary = check_depth depth >> err "byte values are not permitted"
  normalize depth set_value = check_depth depth >> err "set values are not permitted"
  normalize depth other_value = check_depth depth >> err "unsupported type"

  pub normalize_items : ℕ → Items → Outcome (Unit {0})
  normalize_items depth no_items = ok tt
  normalize_items depth (item v vs) = normalize depth v >> normalize_items depth vs

  pub normalize_entries : ℕ → Entries → Outcome (Unit {0})
  normalize_entries depth no_entries = ok tt
  normalize_entries depth (entry k v es) = normalize depth v >> normalize_entries depth es

-- `canonicalize`, with the default limits
unfoldable pub canonicalize : (Value → Bytes) → Value → Outcome Bytes
canonicalize json_text value = do
  normalize 0 value
  raise_if (ltb max_canonical_bytes (length (json_text value))) "canonical output exceeds max bytes"
  ok (json_text value)
