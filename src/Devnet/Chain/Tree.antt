-- ===== src/Devnet/Chain/Tree.antt =====
-- `compute_merkle_root`. Its loop runs on fuel; each round at least halves the level, so that the
-- length of the level is enough.
use nyx_dirty_and_develop.Base.{
  ℕ, zero, suc, not, List, [], ◌∷◌, ◌++◌, ◌==◌, length, ok, ◌>>◌, raise_if, Bytes,
}
use nyx_dirty_and_develop.Devnet.Payload.{Outcome}

-- `if len(level) % 2 == 1: level.append(level[-1])`
unfoldable pub make_even : List Bytes → List Bytes
make_even [] = []
make_even (x ∷ []) = x ∷ x ∷ []
make_even (x ∷ y ∷ rest) = x ∷ y ∷ make_even rest

-- `require_bytes32` on every entry
unfoldable pub require_all : List Bytes → Outcome (Unit {0})
require_all [] = ok tt
require_all (x ∷ xs) = do raise_if (not (length x == 32)) "tx_hash must be 32 bytes"; require_all xs

module _ (sha256 : Bytes → Bytes) where
  unfoldable pub pair_up : List Bytes → List Bytes
  pair_up [] = []
  pair_up (x ∷ []) = []
  pair_up (x ∷ y ∷ rest) = sha256 (x ++ y) ∷ pair_up rest

  -- The `while` loop
  unfoldable pub levels : ℕ → List Bytes → Bytes
  levels fuel [] = []
  levels fuel (x ∷ []) = x
  levels zero (x ∷ y ∷ rest) = []
  levels (suc fuel) (x ∷ y ∷ rest) = levels fuel (pair_up (make_even (x ∷ y ∷ rest)))

  unfoldable pub compute_merkle_root : List Bytes → Outcome Bytes
  compute_merkle_root [] = ok (sha256 [])
  compute_merkle_root (x ∷ xs) = do require_all (x ∷ xs); ok (levels (length (x ∷ xs)) (x ∷ xs))
