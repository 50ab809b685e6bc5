-- ===== src/Router/Kernel.antt =====
-- packages/l3-router: kernel.py, and `state_hash` of state.py, whose JSON text and SHA-256 are
-- parameters. A ValidationError is its message.
use nyx_dirty_and_develop.Base.{
  ℕ, ◌+◌, ◌-◌, Bool, true, false, not, ◌||◌, List, [], ◌∷◌, ltb, ◌==◌, length, String, text_eq,
  text_append, if◌then◌else◌, ok, err, ◌>>=◌, ◌>>◌, raise_if, or_raise,
}
use nyx_dirty_and_develop.Base.Int.{ℤ, pos, negsuc, leb_ℤ}
use nyx_dirty_and_develop.Dex.{PoolState, DexState, Swap, Outcome, find_pool, replace_pool}
use nyx_dirty_and_develop.Router.State.{
  Bytes, swap_kind, DexReceipt, RouterState, RouterActionKind, route_swap, unsupported,
  RouterAction, RouterReceipt,
}
use nyx_dirty_and_develop.Router.Price.{price}

abbrev pub max_steps : ℕ
max_steps = 8

abbrev pub max_amount : ℕ
max_amount = 1_000_000_000_000

abbrev pub max_reserve : ℕ
max_reserve = 1_000_000_000_000_000_000

-- The checks return the number that they have found not to be negative.
abbrev pub check_below : ℕ → ℤ → String → Outcome ℕ
check_below bound (negsuc n) name = err (text_append name " must be non-negative")
check_below bound (pos n) name = if ltb bound n then err (text_append name " exceeds max") else ok n

abbrev pub check_amount : ℤ → String → Outcome ℕ
check_amount = check_below max_amount

abbrev pub check_reserve : ℤ → String → Outcome ℕ
check_reserve = check_below max_reserve

-- Which side of the pool is paid in: `in_is_a`.
unfoldable pub side : PoolState → String → Outcome Bool
side p asset =
    if text_eq asset p.asset_a
    then ok true
    else if text_eq asset p.asset_b
    then ok false
    else err "asset_in mismatch"

-- The amount that leaves the pool, with the guards on it.
unfoldable pub quote : ℕ → ℕ → ℕ → ℕ → Outcome ℕ
quote reserve_in reserve_out amount_in min_out = do
  raise_if (reserve_in == 0 || reserve_out == 0) "reserves must be positive"
  raise_if (ltb max_reserve (reserve_in + amount_in)) "reserve_in exceeds max"
  let amount_out = price reserve_in reserve_out amount_in
  raise_if (amount_out == 0) "amount_out is zero"
  raise_if (ltb amount_out min_out) "min_out not met"
  raise_if (ltb reserve_out amount_out) "amount_out exceeds reserve"
  ok amount_out

-- `replace(pool, reserve_a=…, reserve_b=…)`; the guards make the subtraction exact.
abbrev pub moved : PoolState → Bool → ℕ → ℕ → ℕ → ℕ → PoolState
moved p true a b paid out = record p { reserve_a = pos (a + paid); reserve_b = pos (b - out) }
moved p false a b paid out = record p { reserve_a = pos (a - out); reserve_b = pos (b + paid) }

-- `_apply_swap`, from the checks of the pool to the checks of the new pool
unfoldable pub swap_pool : PoolState → String → ℕ → ℕ → Outcome PoolState
swap_pool p asset amount_in min_out = do
  a ← check_reserve p.reserve_a "reserve_a"
  b ← check_reserve p.reserve_b "reserve_b"
  _ ← check_reserve p.total_lp "total_lp"
  in_is_a ← side p asset
  out ← quote (if in_is_a then a else b) (if in_is_a then b else a) amount_in min_out
  let q = moved p in_is_a a b amount_in out
  _ ← check_reserve q.reserve_a "reserve_a"
  _ ← check_reserve q.reserve_b "reserve_b"
  ok q

-- `_apply_swap`
unfoldable pub apply_swap : DexState → Swap → Outcome DexState
apply_swap s step = do
  raise_if (leb_ℤ step.amount_in (pos 0)) "amount_in must be positive"
  amount_in ← check_amount step.amount_in "amount_in"
  min_out ← check_amount step.min_out "min_out"
  p ← or_raise (find_pool s.pools step.pool_id) "pool missing"
  q ← swap_pool p step.asset_in amount_in min_out
  ok (replace_pool s q)

abbrev pub is_route_swap : RouterActionKind → Bool
is_route_swap route_swap = true
is_route_swap unsupported = false

abbrev pub step_receipt : Swap → Bytes → DexReceipt
step_receipt step hash = record { action = swap_kind; pool_id = step.pool_id; state_hash = hash }

abbrev max_bytes : ℕ
max_bytes = 65_536

-- `state_hash` of state.py, of the JSON text of a state
unfoldable pub state_hash : (Bytes → Bytes) → (DexState → Bytes) → DexState → Outcome Bytes
state_hash sha256 json_text s = do
  raise_if (ltb max_bytes (length (json_text s))) "max bytes exceeded"
  ok (sha256 (json_text s))

-- The hash of a state is that of `state_hash`, with its parameters given, or raises.
module _ (hash_of : DexState → Outcome Bytes) where
  -- the loop of `apply_route`: the last state, and the receipts of the steps
  unfoldable pub run_steps : DexState → List Swap → Outcome (DexState × List DexReceipt)
  run_steps s [] = ok (s, [])
  run_steps s (step ∷ steps) = do
    t ← apply_swap s step
    hash ← hash_of t
    (u, receipts) ← run_steps t steps
    ok (u, step_receipt step hash ∷ receipts)

  unfoldable pub apply_route : RouterState → RouterAction → Outcome (RouterState × RouterReceipt)
  apply_route s action = do
    raise_if (not (is_route_swap action.kind)) "unsupported action"
    let steps = action.payload.steps
    raise_if (length steps == 0) "route steps empty"
    raise_if (ltb max_steps (length steps)) "route steps exceed max"
    (t, receipts) ← run_steps s.dex_state steps
    final_hash ← hash_of t
    ok (
      record { dex_state = t },
      record {
        action = route_swap;
        state_hash = final_hash;
        steps = steps;
        step_receipts = receipts;
      },
    )

  unfoldable pub route_state_hash : RouterState → Outcome Bytes
  route_state_hash s = hash_of s.dex_state
