-- ===== src/Private/Tests.antt =====
-- The theorems on the private ledger at a concrete run.
use nyx_dirty_and_develop.Base.{
  ◌≡◌, refl, true, List, [], ◌∷◌, length, ok, replicate, compare_digest, Bytes,
}
use nyx_dirty_and_develop.Private.Ledger.{
  LedgerState, empty_state, LedgerAction, private_mint, private_spend, LedgerTraceEntry,
  LedgerTrace, ensure_bytes32, framed, is_in, apply_action, recompute_root, run_actions,
  run_actions_with_trace, replay_and_verify,
}
use nyx_dirty_and_develop.Private.Spends.{IsExtended, run_actions-IsExtended}
use nyx_dirty_and_develop.Private.Replay.{actions_of, replay-run_actions, run_actions-replay}

-- A digest of the length
abbrev digest : Bytes → Bytes
digest bytes = length bytes ∷ replicate 31 0

abbrev coin : Bytes
coin = replicate 32 1

abbrev mark : Bytes
mark = replicate 32 2

abbrev actions : List LedgerAction
actions = private_mint coin ∷ private_spend mark ∷ []

abbrev final : LedgerState
final = record { commitments = coin ∷ []; nullifiers = mark ∷ [] }

abbrev entries : List LedgerTraceEntry
entries =
    record { action = private_mint coin; after_root = 90 ∷ replicate 31 0 }
    ∷ record { action = private_spend mark; after_root = 90 ∷ replicate 31 0 }
    ∷ []

abbrev trace : LedgerTrace
trace = record { entries = entries; final_state = final }

run_ok : run_actions digest empty_state actions ≡ ok (final, entries)
unfolding run_actions apply_action is_in ensure_bytes32 recompute_root framed compare_digest
run_ok = refl

run_actions-IsExtended_example : IsExtended empty_state final actions
run_actions-IsExtended_example =
    run_actions-IsExtended digest empty_state final actions entries tt tt run_ok

trace_ok : run_actions_with_trace digest empty_state actions ≡ ok (final, trace)
unfolding run_actions_with_trace run_actions apply_action is_in ensure_bytes32 recompute_root framed
    compare_digest
trace_ok = refl

replay-run_actions_example :
    (replay_and_verify digest empty_state trace ≡ ok true) × (actions_of entries ≡ actions)
replay-run_actions_example = replay-run_actions digest empty_state final actions trace trace_ok

run_actions-replay_example :
    (after : LedgerState) × (run_actions_with_trace digest empty_state actions
      ≡ ok (after, record { entries = entries; final_state = after }))
run_actions-replay_example =
    run_actions-replay digest empty_state trace (refl, (refl, tt)) replay-run_actions_example.0
