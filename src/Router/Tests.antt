-- ===== src/Router/Tests.antt =====
-- The theorems on routes at a concrete pool.
use nyx_dirty_and_develop.Base.{
  ◌-◌, ◌+◌, ◌≤◌, ◌≡◌, refl, ◌↔◌, List, [], ◌∷◌, ◌++◌, length, text_discrete, ok, arith,
}
use nyx_dirty_and_develop.Base.Int.{pos}
use nyx_dirty_and_develop.Dex.{
  PoolState, DexState, Swap, Outcome, find_pool, without, replace_pool, check_from, contains,
  check_invariants,
}
use nyx_dirty_and_develop.Router.State.{
  Bytes, RouterState, RouterAction, RouterReceipt, DexReceipt, route_swap, swap_kind,
}
use nyx_dirty_and_develop.Router.Price.{price, price_round_trip}
use nyx_dirty_and_develop.Router.Kernel.{
  state_hash, side, quote, swap_pool, apply_swap, run_steps, apply_route,
}
use nyx_dirty_and_develop.Router.Replay.{replay_route, check_router}
use nyx_dirty_and_develop.Router.Routes.{Grows, apply_route-Grows, apply_route-check_router}
use nyx_dirty_and_develop.Router.Receipts.{RunsTo, action_of, replay_route_iff}

-- A digest of the number of pools
abbrev hash : DexState → Outcome Bytes
hash = state_hash (λ text. text) (λ s. length s.pools ∷ [])

abbrev pool : PoolState
pool = record {
  pool_id = "p1";
  asset_a = "NYXT";
  asset_b = "ECHO";
  reserve_a = pos 100;
  reserve_b = pos 200;
  total_lp = pos 300;
}

abbrev before : RouterState
before = record { dex_state = record { pools = pool ∷ [] } }

abbrev there : Swap
there = record { pool_id = "p1"; amount_in = pos 10; min_out = pos 5; asset_in = "NYXT" }

abbrev back : Swap
back = record { pool_id = "p1"; amount_in = pos 18; min_out = pos 1; asset_in = "ECHO" }

abbrev route : RouterAction
route = record { kind = route_swap; payload = record { steps = there ∷ back ∷ [] } }

abbrev routed : RouterState
routed = record {
  dex_state = record { pools = record pool { reserve_a = pos 101; reserve_b = pos 200 } ∷ [] };
}

abbrev receipts : List DexReceipt
receipts =
    record { action = swap_kind; pool_id = "p1"; state_hash = 1 ∷ [] }
    ∷ record { action = swap_kind; pool_id = "p1"; state_hash = 1 ∷ [] }
    ∷ []

abbrev receipt : RouterReceipt
receipt = record {
  action = route_swap;
  state_hash = 1 ∷ [];
  steps = there ∷ back ∷ [];
  step_receipts = receipts;
}

route_ok : apply_route hash before route ≡ ok (routed, receipt)
unfolding state_hash apply_route run_steps apply_swap find_pool swap_pool side quote replace_pool
    without text_discrete
route_ok = refl

apply_route-Grows_example : Grows before.dex_state routed.dex_state
apply_route-Grows_example = apply_route-Grows hash before routed route receipt route_ok

sound : check_router before ≡ ok tt
unfolding check_router check_invariants check_from contains text_discrete
sound = refl

apply_route-check_router_example : check_router routed ≡ ok tt
apply_route-check_router_example =
    apply_route-check_router hash before routed route receipt sound route_ok

replay_route_iff_example :
    (replay_route hash before receipt ≡ ok routed)
    ↔ (apply_route hash before (action_of hash receipt) ≡ ok (routed, receipt))
replay_route_iff_example = replay_route_iff hash before routed receipt

steps_ok : RunsTo hash before.dex_state ((there ∷ []) ++ (back ∷ [])) routed.dex_state receipts
unfolding state_hash run_steps apply_swap find_pool swap_pool side quote replace_pool without
    text_discrete
steps_ok = refl

price_round_trip_example : price (200 - price 100 200 10) (100 + 10) (price 100 200 10) ≤ 10
price_round_trip_example = price_round_trip 100 200 10 (omega arith) (omega arith)
