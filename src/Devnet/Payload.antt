-- ===== src/Devnet/Payload.antt =====
-- The payload of a transaction: an operation, a key and a value. A DevnetError is its message; the
-- OverflowError of `to_bytes` is "int too big to convert".
use nyx_dirty_and_develop.Base.{
  ℕ, ◌+◌, not, ◌||◌, [], ◌∷◌, ◌++◌, String, ltb, ◌==◌, length, take, drop, get_or, Option, none,
  some, if◌then◌else◌, Result, ok, err, ◌>>=◌, ◌>>◌, raise_if, Bytes, be32, from_be,
}

abbrev pub Outcome : Type 0 → Type 0
Outcome A = Result String A

abbrev pub op_set : ℕ
op_set = 1

abbrev pub op_del : ℕ
op_del = 2

abbrev pub op_nop : ℕ
op_nop = 16

-- `n.to_bytes(4, "big")`
unfoldable pub to_bytes4 : ℕ → Outcome Bytes
to_bytes4 n = if ltb n 4294967296 then ok (be32 n) else err "int too big to convert"

-- `_encode_payload`
unfoldable pub encode_payload : ℕ → Bytes → Bytes → Outcome Bytes
encode_payload op key value = do
  key_len ← to_bytes4 (length key)
  val_len ← to_bytes4 (length value)
  ok (op ∷ (key_len ++ (key ++ (val_len ++ value))))

abbrev pub encode_payload_set : Bytes → Bytes → Outcome Bytes
encode_payload_set key value = encode_payload op_set key value

abbrev pub encode_payload_del : Bytes → Outcome Bytes
encode_payload_del key = encode_payload op_del key []

abbrev pub encode_payload_nop : Bytes
encode_payload_nop = op_nop ∷ (be32 0 ++ be32 0)

pub record Operation : Type 0 where
  pub op : ℕ
  pub key : Bytes
  pub value : Option Bytes

-- The end of `decode_payload`: which keys and values an operation takes.
unfoldable pub check_operation : ℕ → ℕ → ℕ → Bytes → Bytes → Outcome Operation
check_operation op key_len val_len key value =
    if op == op_nop
    then (do
      raise_if (not (key_len == 0) || not (val_len == 0)) "NOP must have empty key/value"
      ok (record { op = op; key = []; value = none }))
    else if op == op_set
    then (do
      raise_if (key_len == 0) "SET requires key"
      raise_if (val_len == 0) "SET requires value"
      ok (record { op = op; key = key; value = some value }))
    else if op == op_del
    then (do
      raise_if (key_len == 0) "DEL requires key"
      raise_if (not (val_len == 0)) "DEL must have empty value"
      ok (record { op = op; key = key; value = none }))
    else err "unsupported op"

unfoldable pub decode_payload : Bytes → Outcome Operation
decode_payload payload = do
  raise_if (ltb (length payload) 9) "payload too short"
  let op = get_or payload 0 0
  let key_len = from_be 0 (take 4 (drop 1 payload))
  raise_if (ltb (length payload) (5 + key_len + 4)) "payload truncated"
  let key = take key_len (drop 5 payload)
  let val_len = from_be 0 (take 4 (drop (5 + key_len) payload))
  raise_if (not (length payload == 9 + key_len + val_len)) "payload length mismatch"
  let value = take val_len (drop (9 + key_len) payload)
  check_operation op key_len val_len key value
