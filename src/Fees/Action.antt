-- ===== src/Fees/Action.antt =====
-- action.py of l2-economics, and the length prefixes of its hashing.py. The encodings of Python,
-- UTF-8 and JSON, are parameters.
use nyx_dirty_and_develop.Base.{
  not, ◌++◌, Option, none, some, String, text_eq, text_append, ltb, ◌==◌, length, ok, ◌>>=◌, ◌>>◌,
  raise_if, Bytes, be32,
}
use nyx_dirty_and_develop.Fees.Vector.{Outcome, ActionKind, read_only, state_mutation}
use nyx_dirty_and_develop.Fees.Canonical.{
  Value, null, text, object, Entries, no_entries, entry, canonicalize,
}

pub record ActionDescriptor : Type 0 where
  pub kind : ActionKind
  pub module_name : String
  pub action : String
  pub payload : Value
  pub metadata : Option Entries

-- `require_text` and `require_bytes32`
unfoldable pub require_text : String → String → Outcome (Unit {0})
require_text value name = raise_if (text_eq value "") (text_append name " must be non-empty")

unfoldable pub require_bytes32 : Bytes → String → Outcome (Unit {0})
require_bytes32 value name =
    raise_if (not (length value == 32)) (text_append name " must be 32 bytes")

-- `kind.value`
abbrev pub kind_text : ActionKind → String
kind_text read_only = "read_only"
kind_text state_mutation = "state_mutation"

-- A dictionary, or None
abbrev pub metadata_value : Option Entries → Value
metadata_value none = null
metadata_value (some es) = object es

-- `encode_len_prefixed_bytes`, and `encode_len_prefixed` on the encoded text
unfoldable pub encode_len_prefixed : String → Bytes → Outcome Bytes
encode_len_prefixed message data_bytes = do
  raise_if (ltb 4294967295 (length data_bytes)) message
  ok (be32 (length data_bytes) ++ data_bytes)

module _ (json_text : Value → Bytes) where
  -- `_validate_payload` of the metadata, where it is given
  abbrev check_metadata : Option Entries → Outcome (Unit {0})
  check_metadata none = ok tt
  check_metadata (some es) = do bytes ← canonicalize json_text (object es); ok tt

  -- `ActionDescriptor.__post_init__`
  unfoldable pub check_action : ActionDescriptor → Outcome (Unit {0})
  check_action a = do
    require_text a.module_name "module"
    require_text a.action "action"
    bytes ← canonicalize json_text a.payload
    check_metadata a.metadata

  unfoldable pub canonical_bytes : ActionDescriptor → Outcome Bytes
  canonical_bytes a = canonicalize json_text (
      object (
        entry "kind" (text (kind_text a.kind)) (
          entry "module" (text a.module_name) (
            entry "action" (text a.action) (
              entry "payload" a.payload
                (entry "metadata" (metadata_value a.metadata) no_entries))))))

unfoldable pub framed_preimage :
    (String → Bytes) → (Value → Bytes) → ActionDescriptor → Outcome Bytes
framed_preimage utf8 json_text a = do
  payload_bytes ← canonicalize json_text a.payload
  metadata_bytes ← canonicalize json_text (metadata_value a.metadata)
  kind ← encode_len_prefixed "text field too large" (utf8 (kind_text a.kind))
  module_name ← encode_len_prefixed "text field too large" (utf8 a.module_name)
  action ← encode_len_prefixed "text field too large" (utf8 a.action)
  payload ← encode_len_prefixed "byte field too large" payload_bytes
  metadata ← encode_len_prefixed "byte field too large" metadata_bytes
  ok (kind ++ (module_name ++ (action ++ (payload ++ metadata))))
