-- ===== src/Devnet/Tests.antt =====
-- The theorems on the devnet at concrete chains and payloads.
use nyx_dirty_and_develop.Base.{
  ℕ, ◌+◌, ◌≡◌, ◌≢◌, refl, arith, [], ◌∷◌, ◌++◌, Option, some, ok, length, replicate, Bytes,
}
use nyx_dirty_and_develop.Devnet.Payload.{
  op_set, to_bytes4, encode_payload, encode_payload_set, encode_payload_del, decode_payload,
}
use nyx_dirty_and_develop.Devnet.Chain.{
  BlockRef, Items, Adapter, Tx, levels, compute_merkle_root, genesis, new_adapter, submit_tx,
  mine_block, compute_state_root,
}
use nyx_dirty_and_develop.Devnet.Encoding.{decode-encode_set}
use nyx_dirty_and_develop.Devnet.Merkle.{levels_enough, compute_merkle_root_twice}
use nyx_dirty_and_develop.Devnet.Blocks.{IsLinked, start, submitted, mined, Reach-IsLinked}

-- A digest of the length, and JSON texts that are empty.
abbrev digest : Bytes → Bytes
digest bytes = length bytes ∷ replicate 31 0

abbrev state_text : Items → Bytes
state_text items = []

abbrev ref_text : BlockRef → Bytes
ref_text ref = []

abbrev proof_text : Bytes → Bytes → Option Bytes → Bytes → Bytes
proof_text chain_id key value root = key

abbrev first : Adapter
first = record {
  chain_id = 7 ∷ [];
  state = [];
  mempool = [];
  blocks = [];
  tx_index = [];
  state_root = 0 ∷ replicate 31 0;
}

first_ok : new_adapter digest state_text ref_text proof_text (7 ∷ []) ≡ ok first
unfolding new_adapter compute_state_root
first_ok = refl

abbrev tx : Tx
tx = record {
  chain_id = 7 ∷ [];
  sender = [];
  nonce = [];
  payload = 1 ∷ 0 ∷ 0 ∷ 0 ∷ 1 ∷ 5 ∷ 0 ∷ 0 ∷ 0 ∷ 1 ∷ 6 ∷ [];
  signature = 1 ∷ [];
  tx_hash = 33 ∷ replicate 31 0;
}

abbrev filled : Adapter
filled = (submit_tx digest state_text ref_text proof_text tx first).1

Reach-IsLinked_example :
    IsLinked digest state_text ref_text proof_text 0 genesis
      (mine_block digest state_text ref_text proof_text filled).1.blocks
Reach-IsLinked_example =
    Reach-IsLinked digest state_text ref_text proof_text (7 ∷ [])
      (mine_block digest state_text ref_text proof_text filled).1
      (mined filled (submitted first tx (start first first_ok)))

set_ok : encode_payload_set (5 ∷ []) (6 ∷ []) ≡ ok (1 ∷ 0 ∷ 0 ∷ 0 ∷ 1 ∷ 5 ∷ 0 ∷ 0 ∷ 0 ∷ 1 ∷ 6 ∷ [])
unfolding encode_payload to_bytes4
set_ok = refl

some_bytes : (b : ℕ) → ◌≢◌ {A = Bytes} (b ∷ []) []
some_bytes b = λ e. ground (arith, e)

decode-encode_set_example :
    decode_payload (1 ∷ 0 ∷ 0 ∷ 0 ∷ 1 ∷ 5 ∷ 0 ∷ 0 ∷ 0 ∷ 1 ∷ 6 ∷ [])
    ≡ ok (record { op = op_set; key = 5 ∷ []; value = some (6 ∷ []) })
decode-encode_set_example =
    decode-encode_set (5 ∷ []) (6 ∷ []) (1 ∷ 0 ∷ 0 ∷ 0 ∷ 1 ∷ 5 ∷ 0 ∷ 0 ∷ 0 ∷ 1 ∷ 6 ∷ [])
      (some_bytes 5) (some_bytes 6) set_ok

del_ok : encode_payload_del (5 ∷ []) ≡ ok (2 ∷ 0 ∷ 0 ∷ 0 ∷ 1 ∷ 5 ∷ 0 ∷ 0 ∷ 0 ∷ 0 ∷ [])
unfolding encode_payload to_bytes4
del_ok = refl

levels_enough_example :
    levels digest (3 + 4) ((1 ∷ []) ∷ (2 ∷ []) ∷ (3 ∷ []) ∷ [])
    ≡ levels digest 3 ((1 ∷ []) ∷ (2 ∷ []) ∷ (3 ∷ []) ∷ [])
levels_enough_example = levels_enough digest 3 4 ((1 ∷ []) ∷ (2 ∷ []) ∷ (3 ∷ []) ∷ []) (omega arith)

compute_merkle_root_twice_example :
    compute_merkle_root digest (genesis ∷ genesis ∷ ([] ++ (genesis ∷ [])))
    ≡ compute_merkle_root digest (genesis ∷ genesis ∷ ([] ++ (genesis ∷ genesis ∷ [])))
compute_merkle_root_twice_example =
    compute_merkle_root_twice digest genesis genesis [] genesis (omega arith)
