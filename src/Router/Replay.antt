-- ===== src/Router/Replay.antt =====
-- packages/l3-router: replay.py and invariants.py. A ReplayError is its message, as is a
-- ValidationError.
use nyx_dirty_and_develop.Base.{
  Bool, true, false, not, List, ◌∷◌, ◌==◌, length, text_eq, compare_digest, ok, ◌>>=◌, ◌>>◌,
  raise_if,
}
use nyx_dirty_and_develop.Dex.{DexState, Outcome, check_invariants}
use nyx_dirty_and_develop.Router.State.{
  Bytes, ActionKind, create_pool_kind, add_liquidity_kind, remove_liquidity_kind, swap_kind,
  DexReceipt, RouterState, RouterReceipt,
}
use nyx_dirty_and_develop.Router.Kernel.{apply_route}

abbrev pub same_kind : ActionKind → ActionKind → Bool
same_kind create_pool_kind create_pool_kind = true
same_kind add_liquidity_kind add_liquidity_kind = true
same_kind remove_liquidity_kind remove_liquidity_kind = true
same_kind swap_kind swap_kind = true
same_kind _ _ = false

-- the body of the loop of `replay_route`
unfoldable pub check_receipt : DexReceipt → DexReceipt → Outcome (Unit {0})
check_receipt expected actual = do
  raise_if (not (same_kind expected.action actual.action)) "step action mismatch"
  raise_if (not (text_eq expected.pool_id actual.pool_id)) "step pool mismatch"
  raise_if (not (compare_digest expected.state_hash actual.state_hash)) "step hash mismatch"

-- the loop, over the two lists in step; their lengths have been compared
unfoldable pub check_receipts : List DexReceipt → List DexReceipt → Outcome (Unit {0})
check_receipts (e ∷ es) (a ∷ as') = do check_receipt e a; check_receipts es as'
check_receipts _ _ = ok tt

unfoldable pub replay_route :
    (DexState → Outcome Bytes) → RouterState → RouterReceipt → Outcome RouterState
replay_route hash_of s receipt = do
  (next, computed) ←
      apply_route hash_of s
        (record { kind = receipt.action; payload = record { steps = receipt.steps } })
  raise_if (not (compare_digest computed.state_hash receipt.state_hash)) "state hash mismatch"
  raise_if (not (length computed.step_receipts == length receipt.step_receipts))
      "step receipt length mismatch"
  check_receipts receipt.step_receipts computed.step_receipts
  ok next

-- `check_invariants` of the router
unfoldable pub check_router : RouterState → Outcome (Unit {0})
check_router s = check_invariants s.dex_state
