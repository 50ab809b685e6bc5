-- ===== src/Dex/Kernel.antt =====
-- packages/l3-dex: kernel.py and invariants.py. A ValidationError is its message.
use nyx_dirty_and_develop.Base.{
  Bool, false, ◌||◌, Option, none, some, List, [], ◌∷◌, ◌++◌, String, text_eq, if◌then◌else◌,
  Result, ok, err, ◌>>=◌, ◌>>◌, raise_if, or_raise, is_some,
}
use nyx_dirty_and_develop.Base.Int.{pos, ◌+ℤ◌, ltb_ℤ, leb_ℤ}
use nyx_dirty_and_develop.Dex.State.{
  PoolState, DexState, CreatePool, AddLiquidity, Action, create_pool, add_liquidity,
  remove_liquidity, swap, other,
}

abbrev pub Outcome : Type 0 → Type 0
Outcome A = Result String A

-- `_find_pool`, on the tuple of pools
unfoldable pub find_pool : List PoolState → String → Option PoolState
find_pool [] id = none
find_pool (p ∷ ps) id = if text_eq p.pool_id id then some p else find_pool ps id

-- the generator in `_replace_pool`
unfoldable pub without : String → List PoolState → List PoolState
without id [] = []
without id (p ∷ ps) = if text_eq p.pool_id id then without id ps else p ∷ without id ps

-- `_replace_pool`
unfoldable pub replace_pool : DexState → PoolState → DexState
replace_pool s updated = record { pools = without updated.pool_id s.pools ++ (updated ∷ []) }

-- `pool_id in pool_ids`
unfoldable pub contains : String → List String → Bool
contains id [] = false
contains id (x ∷ xs) = text_eq x id || contains id xs

abbrev pub is_negative : PoolState → Bool
is_negative p = ltb_ℤ p.reserve_a (pos 0) || ltb_ℤ p.reserve_b (pos 0) || ltb_ℤ p.total_lp (pos 0)

-- the loop of `check_invariants`, with the set of ids seen so far
unfoldable pub check_from : List String → List PoolState → Outcome (Unit {0})
check_from seen [] = ok tt
check_from seen (p ∷ ps) = do
  raise_if (text_eq p.pool_id "") "pool_id required"
  raise_if (contains p.pool_id seen) "duplicate pool_id"
  raise_if (is_negative p) "negative reserves or lp"
  check_from (p.pool_id ∷ seen) ps

unfoldable pub check_invariants : DexState → Outcome (Unit {0})
check_invariants s = check_from [] s.pools

abbrev pub new_pool : CreatePool → PoolState
new_pool a = record {
  pool_id = a.pool_id;
  asset_a = a.asset_a;
  asset_b = a.asset_b;
  reserve_a = pos 0;
  reserve_b = pos 0;
  total_lp = pos 0;
}

abbrev pub grown_pool : PoolState → AddLiquidity → PoolState
grown_pool p a = record p {
  reserve_a = p.reserve_a +ℤ a.amount_a;
  reserve_b = p.reserve_b +ℤ a.amount_b;
  total_lp = p.total_lp +ℤ a.amount_a +ℤ a.amount_b;
}

-- the new state, if it passes the check
unfoldable pub checked : DexState → Outcome DexState
checked s = do check_invariants s; ok s

unfoldable pub apply_action : DexState → Action → Outcome DexState
apply_action s (create_pool a) = do
  raise_if (is_some (find_pool s.pools a.pool_id)) "pool exists"
  checked (record { pools = s.pools ++ (new_pool a ∷ []) })
apply_action s (add_liquidity a) = do
  raise_if (leb_ℤ a.amount_a (pos 0) || leb_ℤ a.amount_b (pos 0)) "amounts must be positive"
  p ← or_raise (find_pool s.pools a.pool_id) "pool missing"
  checked (replace_pool s (grown_pool p a))
apply_action s (remove_liquidity a) = err "remove not available in v0 skeleton"
apply_action s (swap a) = err "swap not available in v0 skeleton"
apply_action s other = err "unknown action"
