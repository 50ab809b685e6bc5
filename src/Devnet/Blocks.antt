-- ===== src/Devnet/Blocks.antt =====
-- The chain that mining builds, and the proofs of its state.
use nyx_dirty_and_develop.Base.{
  ℕ, suc, ◌+◌, ◌≡◌, refl, true, arith, List, [], ◌∷◌, ◌++◌, length, Option, ok, err, compare_digest,
  compare_digest_iff, >>=-eq-ok, Bytes,
}
use nyx_dirty_and_develop.Devnet.Payload.{Outcome}
use nyx_dirty_and_develop.Devnet.Chain.{
  Tx, BlockRef, Block, Items, Adapter, apply_payloads, last_hash, compute_state_root, genesis,
  compute_block_hash, submit_tx, append_block, seal_block, seal_unless_raised, mine_block,
  new_adapter, state_proof_bytes, StateProof, build_state_proof, verify_state_proof,
}

module _ (sha256 : Bytes → Bytes) (canonical_state : Items → Bytes)
    (canonical_ref : BlockRef → Bytes)
    (canonical_proof : Bytes → Bytes → Option Bytes → Bytes → Bytes) where
  abbrev hash_of : ℕ → Bytes → List Bytes → Outcome Bytes
  hash_of = compute_block_hash sha256 canonical_state canonical_ref canonical_proof

  -- A chain of blocks from a height and a hash on: consecutive heights, each block naming the hash
  -- of the one before, and each hash that of its contents.
  abbrev pub IsLinked : ℕ → Bytes → List Block → Type 0
  IsLinked height prev [] = Unit
  IsLinked height prev (b ∷ bs) =
      (b.height ≡ height)
      × (b.prev_hash ≡ prev)
      × (hash_of b.height b.prev_hash b.tx_hashes ≡ ok b.block_hash)
      × IsLinked (suc height) b.block_hash bs

  IsLinked-append :
      (height : ℕ) (prev : Bytes) (bs : List Block) (b : Block)
      → IsLinked height prev bs
      → b.height ≡ height + length bs
      → b.prev_hash ≡ last_hash prev bs
      → hash_of b.height b.prev_hash b.tx_hashes ≡ ok b.block_hash
      → IsLinked height prev (bs ++ (b ∷ []))
  IsLinked-append height prev [] b h e₁ e₂ e₃ = (omega (arith, e₁), e₂, e₃, tt)
  IsLinked-append height prev (x ∷ bs) b (h₁, h₂, h₃, h) e₁ e₂ e₃ =
      (h₁, h₂, h₃, IsLinked-append (suc height) x.block_hash bs b h (omega (arith, e₁)) e₂ e₃)

  -- The adapters that submitting and mining reach; a call that raises leaves one too.
  pub data Reach (chain_id : Bytes) : Adapter → Type 0 where
    start :
        (a : Adapter)
        → new_adapter sha256 canonical_state canonical_ref canonical_proof chain_id ≡ ok a
        → Reach chain_id a
    submitted :
        (a : Adapter) (tx : Tx)
        → Reach chain_id a
        → Reach chain_id (submit_tx sha256 canonical_state canonical_ref canonical_proof tx a).1
    mined :
        (a : Adapter)
        → Reach chain_id a
        → Reach chain_id (mine_block sha256 canonical_state canonical_ref canonical_proof a).1

  submit_tx-blocks :
      (tx : Tx) (a : Adapter)
      → (submit_tx sha256 canonical_state canonical_ref canonical_proof tx a).1.blocks ≡ a.blocks
  unfolding submit_tx
  submit_tx-blocks tx a = ground arith

  append_block-IsLinked :
      (hs : List Bytes) (a : Adapter) (r : Outcome Bytes)
      → hash_of (length a.blocks) (last_hash genesis a.blocks) hs ≡ r
      → IsLinked 0 genesis a.blocks
      → IsLinked 0 genesis
          (append_block sha256 canonical_state canonical_ref canonical_proof hs a r).1.blocks
  unfolding append_block
  append_block-IsLinked hs a (err e) eq h = h
  append_block-IsLinked hs a (ok block_hash) eq h =
      IsLinked-append 0 genesis a.blocks _ h (omega arith) refl eq

  seal_block-IsLinked :
      (hs : List Bytes) (a : Adapter) (r : Outcome Bytes)
      → IsLinked 0 genesis a.blocks
      → IsLinked 0 genesis
          (seal_block sha256 canonical_state canonical_ref canonical_proof hs a r).1.blocks
  seal_block-IsLinked hs a (err e) h = h
  seal_block-IsLinked hs a (ok root) h =
      append_block-IsLinked hs (record a { state_root = root }) _ refl h

  mine_block-IsLinked :
      (a : Adapter)
      → IsLinked 0 genesis a.blocks
      → IsLinked 0 genesis
          (mine_block sha256 canonical_state canonical_ref canonical_proof a).1.blocks
  unfolding mine_block
  mine_block-IsLinked a h =
      mined_with (apply_payloads a.mempool a.state).0 (apply_payloads a.mempool a.state).1
    where
      mined_with :
          (r : Outcome (Unit {0})) (state : Items)
          → IsLinked 0 genesis
              (seal_unless_raised sha256 canonical_state canonical_ref canonical_proof a r
                state).1.blocks
      mined_with (ok _) state = seal_block-IsLinked _ (record a { mempool = []; state = state }) _ h
      mined_with (err e) state = h

  -- The blocks of every adapter that calls of `submit_tx` and `mine_block` reach, also calls that
  -- raise, are a chain from the genesis hash: consecutive heights from 0, each block naming the hash
  -- of the one before, and each hash that of its block.
  pub Reach-IsLinked :
      (chain_id : Bytes) (a : Adapter) → Reach chain_id a → IsLinked 0 genesis a.blocks
  unfolding new_adapter
  Reach-IsLinked chain_id _ (start a h) =
      let (root, _, made) =
        >>=-eq-ok (compute_state_root sha256 canonical_state canonical_ref canonical_proof []) _
          h in
      let none_yet : a.blocks ≡ [] = ground (arith, made) in rw none_yet tt
  Reach-IsLinked chain_id _ (submitted a tx r) =
      rw (submit_tx-blocks tx a) (Reach-IsLinked chain_id a r)
  Reach-IsLinked chain_id _ (mined a r) = mine_block-IsLinked a (Reach-IsLinked chain_id a r)

  -- A proof that the adapter builds is verified by it, as long as its state root is the same.
  pub verify-build_state_proof :
      (key : Bytes) (a : Adapter) (p : StateProof)
      → build_state_proof sha256 canonical_state canonical_ref canonical_proof key a ≡ ok p
      → verify_state_proof sha256 canonical_state canonical_ref canonical_proof p a ≡ ok true
  unfolding verify_state_proof build_state_proof
  verify-build_state_proof key a p h =
      let refl_digest : (xs : Bytes) → compare_digest xs xs ≡ true =
        λ xs. (compare_digest_iff xs xs).1 refl in
      let (bytes, e, made) =
        >>=-eq-ok
          (state_proof_bytes sha256 canonical_state canonical_ref canonical_proof a.chain_id key _
            a.state_root)
          _ h in
      ground (arith, e, made, refl_digest a.chain_id, refl_digest a.state_root, refl_digest bytes)
