-- ===== src/Devnet/Chain.antt =====
-- The chain: transactions, blocks, and the operations of `DeterministicInMemoryChainAdapter`. The
-- SHA-256 of hashlib and the JSON text of the json module are parameters; a chain id and a sender
-- are the UTF-8 bytes of their texts.
mod Tree
unfoldable pub use Tree.*
use nyx_dirty_and_develop.Base.{
  ℕ, ◌+◌, ◌*◌, ◌/◌, ◌%◌, Bool, true, false, not, ◌&&◌, ◌||◌, List, [], ◌∷◌, ◌++◌, map, String, ltb,
  ◌==◌, length, Option, none, some, if◌then◌else◌, Result, ok, err, ◌>>=◌, ◌>>◌, raise_if,
  compare_digest, replicate, Bytes, be32,
}
use nyx_dirty_and_develop.Devnet.Payload.{
  Outcome, op_set, op_del, op_nop, Operation, decode_payload,
}

pub record Tx : Type 0 where
  pub chain_id : Bytes
  pub sender : Bytes
  pub nonce : Bytes
  pub payload : Bytes
  pub signature : Bytes
  pub tx_hash : Bytes

pub record BlockRef : Type 0 where
  pub height : ℕ
  pub block_hash : Bytes

pub record Block : Type 0 where
  pub height : ℕ
  pub block_hash : Bytes
  pub prev_hash : Bytes
  pub tx_hashes : List Bytes
  pub state_root : Bytes

abbrev pub block_ref : Block → BlockRef
block_ref b = record { height = b.height; block_hash = b.block_hash }

-- The dict `_state`
abbrev pub Items : Type 0
Items = List (Bytes × Bytes)

pub record Adapter : Type 0 where
  pub chain_id : Bytes
  pub state : Items
  pub mempool : List Tx
  pub blocks : List Block
  pub tx_index : List (Bytes × BlockRef)
  pub state_root : Bytes

pub record FinalityProof : Type 0 where
  pub chain_id : Bytes
  pub block_ref : BlockRef
  pub proof_bytes : Bytes

pub record StateProof : Type 0 where
  pub chain_id : Bytes
  pub key : Bytes
  pub value : Option Bytes
  pub state_root : Bytes
  pub proof_bytes : Bytes

-- `encode_len_prefixed_bytes`
unfoldable pub encode_len_prefixed_bytes : Bytes → Outcome Bytes
encode_len_prefixed_bytes bytes =
    if ltb 4294967295 (length bytes)
    then err "byte field too large"
    else ok (be32 (length bytes) ++ bytes)

-- `encode_len_prefixed`, of a text given by its UTF-8 bytes
unfoldable pub encode_len_prefixed : Bytes → Outcome Bytes
encode_len_prefixed bytes =
    if ltb 4294967295 (length bytes)
    then err "text field too large"
    else ok (be32 (length bytes) ++ bytes)

unfoldable pub framed_preimage : Tx → Outcome Bytes
framed_preimage tx = do
  a ← encode_len_prefixed tx.chain_id
  b ← encode_len_prefixed tx.sender
  c ← encode_len_prefixed_bytes tx.nonce
  d ← encode_len_prefixed_bytes tx.payload
  e ← encode_len_prefixed_bytes tx.signature
  ok (a ++ (b ++ (c ++ (d ++ e))))

unfoldable pub get : Bytes → Items → Option Bytes
get key [] = none
get key ((k, v) ∷ rest) = if compare_digest k key then some v else get key rest

unfoldable pub put : Bytes → Bytes → Items → Items
put key value [] = (key, value) ∷ []
put key value ((k, v) ∷ rest) =
    if compare_digest k key then (k, value) ∷ rest else (k, v) ∷ put key value rest

unfoldable pub drop_key : Bytes → Items → Items
drop_key key [] = []
drop_key key ((k, v) ∷ rest) =
    if compare_digest k key then drop_key key rest else (k, v) ∷ drop_key key rest

-- `_apply_payload`; what was written before a raise stays written.
unfoldable pub apply_operation : Operation → Items → Outcome Items
apply_operation o items =
    if o.op == op_nop
    then ok items
    else if o.op == op_set
    then elim o.value [ none ↦ err "SET requires value" | some value ↦ ok (put o.key value items) ]
    else if o.op == op_del
    then ok (drop_key o.key items)
    else err "unsupported op"

-- The loop of `mine_block` over the transactions: the exception, if any, and the state it leaves.
unfoldable pub apply_payloads : List Tx → Items → Outcome (Unit {0}) × Items
apply_payloads [] items = (ok tt, items)
apply_payloads (tx ∷ txs) items = elim (do o ← decode_payload tx.payload; apply_operation o items) [
  | ok next ↦ apply_payloads txs next
  | err e ↦ (err e, items)
]

-- Whether a byte string is not after another in Python's order
abbrev pub not_after : Bytes → Bytes → Bool
not_after [] bs = true
not_after (a ∷ as') [] = false
not_after (a ∷ as') (b ∷ bs) = ltb a b || (a == b && not_after as' bs)

abbrev insert_item : Bytes × Bytes → Items → Items
insert_item i [] = i ∷ []
insert_item i (j ∷ js) = if not_after i.0 j.0 then i ∷ j ∷ js else j ∷ insert_item i js

-- `sorted(self._state.items(), key=…)`
abbrev pub sorted : Items → Items
sorted [] = []
sorted (i ∷ is) = insert_item i (sorted is)

-- `self._blocks[-1].block_hash if self._blocks else b"\x00" * HASH_BYTES`
abbrev pub last_hash : Bytes → List Block → Bytes
last_hash prev [] = prev
last_hash prev (b ∷ bs) = last_hash b.block_hash bs

abbrev pub genesis : Bytes
genesis = replicate 32 0

-- `canonicalize` on values that it does not refuse: texts in lists and dictionaries, whose JSON text
-- is given
abbrev pub canonicalize : Bytes → Outcome Bytes
canonicalize encoded = do
  raise_if (ltb 1_048_576 (length encoded)) "canonical output exceeds max bytes"
  ok encoded

module _ (sha256 : Bytes → Bytes) (canonical_state : Items → Bytes)
    (canonical_ref : BlockRef → Bytes)
    (canonical_proof : Bytes → Bytes → Option Bytes → Bytes → Bytes) where
  unfoldable pub compute_state_root : Items → Outcome Bytes
  compute_state_root items = do
    canonical ← canonicalize (canonical_state (sorted items))
    ok (sha256 canonical)

  -- `__init__`
  unfoldable pub new_adapter : Bytes → Outcome Adapter
  new_adapter chain_id = do
    state_root ← compute_state_root []
    ok (record {
      chain_id = chain_id;
      state = [];
      mempool = [];
      blocks = [];
      tx_index = [];
      state_root = state_root;
    })

  -- The checks of `submit_tx`
  unfoldable pub check_tx : Bytes → Tx → Outcome (Unit {0})
  check_tx chain_id tx = do
    raise_if (not (compare_digest tx.chain_id chain_id)) "chain_id mismatch"
    preimage ← framed_preimage tx
    raise_if (not (compare_digest tx.tx_hash (sha256 preimage))) "tx_hash mismatch"
    raise_if (length tx.signature == 0) "signature invalid"

  unfoldable pub submit_tx : Tx → Adapter → Outcome Bytes × Adapter
  submit_tx tx a = elim (check_tx a.chain_id tx) [
    | ok _ ↦ (ok tx.tx_hash, record a { mempool = a.mempool ++ (tx ∷ []) })
    | err e ↦ (err e, a)
  ]

  -- `height.to_bytes(8, "big")` and the rest of `_compute_block_hash`
  unfoldable pub compute_block_hash : ℕ → Bytes → List Bytes → Outcome Bytes
  compute_block_hash height prev_hash tx_hashes = do
    raise_if (not (length prev_hash == 32)) "prev_hash must be 32 bytes"
    merkle_root ← compute_merkle_root sha256 tx_hashes
    raise_if (not (ltb height 18446744073709551616)) "int too big to convert"
    ok (
        sha256 (
          (be32 (height / 4294967296) ++ be32 (height % 4294967296)) ++ (prev_hash ++ merkle_root)))

  abbrev pub tx_hashes_of : List Tx → List Bytes
  tx_hashes_of txs = map (λ (tx : Tx). tx.tx_hash) txs

  -- The end of `mine_block`, once the block hash is computed or has raised
  unfoldable pub append_block : List Bytes → Adapter → Outcome Bytes → Outcome BlockRef × Adapter
  append_block tx_hashes a (err e) = (err e, a)
  append_block tx_hashes a (ok block_hash) =
      let b : Block = record {
        height = length a.blocks;
        block_hash = block_hash;
        prev_hash = last_hash genesis a.blocks;
        tx_hashes = tx_hashes;
        state_root = a.state_root;
      } in
      (
        ok (block_ref b),
        record a {
          blocks = a.blocks ++ (b ∷ []);
          tx_index = a.tx_index ++ map (λ (h : Bytes). (h, block_ref b)) tx_hashes;
        },
      )

  -- `mine_block` once the payloads are applied, and once the state root is computed or has raised
  abbrev pub seal_block : List Bytes → Adapter → Outcome Bytes → Outcome BlockRef × Adapter
  seal_block tx_hashes a (err e) = (err e, a)
  seal_block tx_hashes a (ok state_root) =
      append_block tx_hashes (record a { state_root = state_root })
        (compute_block_hash (length a.blocks) (last_hash genesis a.blocks) tx_hashes)

  abbrev pub seal_unless_raised : Adapter → Outcome (Unit {0}) → Items → Outcome BlockRef × Adapter
  seal_unless_raised a (err e) state = (err e, record a { mempool = []; state = state })
  seal_unless_raised a (ok _) state =
      seal_block (tx_hashes_of a.mempool) (record a { mempool = []; state = state })
        (compute_state_root state)

  unfoldable pub mine_block : Adapter → Outcome BlockRef × Adapter
  mine_block a = let (r, state) = apply_payloads a.mempool a.state in seal_unless_raised a r state

  unfoldable pub read_state : Bytes → Adapter → Option Bytes × Bytes
  read_state key a = (get key a.state, a.state_root)

  -- The loop of `get_finality`, and `_build_finality`
  unfoldable pub find_block : Bytes → Bytes → List (Bytes × BlockRef) → Option FinalityProof
  find_block chain_id tx_hash [] = none
  find_block chain_id tx_hash ((h, ref) ∷ rest) =
      if compare_digest h tx_hash
      then some (record {
        chain_id = chain_id;
        block_ref = ref;
        proof_bytes = sha256 (canonical_ref ref);
      })
      else find_block chain_id tx_hash rest

  unfoldable pub get_finality : Bytes → Adapter → Option FinalityProof
  get_finality tx_hash a = find_block a.chain_id tx_hash a.tx_index

  unfoldable pub state_proof_bytes : Bytes → Bytes → Option Bytes → Bytes → Outcome Bytes
  state_proof_bytes chain_id key value state_root = do
    canonical ← canonicalize (canonical_proof chain_id key value state_root)
    ok (sha256 canonical)

  unfoldable pub build_state_proof : Bytes → Adapter → Outcome StateProof
  build_state_proof key a = do
    proof_bytes ← state_proof_bytes a.chain_id key (get key a.state) a.state_root
    ok (record {
      chain_id = a.chain_id;
      key = key;
      value = get key a.state;
      state_root = a.state_root;
      proof_bytes = proof_bytes;
    })

  -- The last two tests of `verify_state_proof`
  abbrev matches : StateProof → Adapter → Bytes → Bool
  matches p a expected =
      if not (compare_digest p.proof_bytes expected)
      then false
      else compare_digest p.state_root a.state_root

  unfoldable pub verify_state_proof : StateProof → Adapter → Outcome Bool
  verify_state_proof p a =
      if not (compare_digest p.chain_id a.chain_id)
      then ok false
      else state_proof_bytes p.chain_id p.key p.value p.state_root >>= λ expected.
          ok (matches p a expected)
