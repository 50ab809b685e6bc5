-- ===== src/Dex/Tests.antt =====
-- The theorems on the pools at concrete states.
use nyx_dirty_and_develop.Base.{◌≡◌, ◌≢◌, refl, ◌↔◌, [], ◌∷◌, All, text_ne, text_discrete, some, ok}
use nyx_dirty_and_develop.Base.Int.{pos}
use nyx_dirty_and_develop.Dex.State.{DexState, CreatePool, AddLiquidity, create_pool}
use nyx_dirty_and_develop.Dex.Kernel.{
  find_pool, contains, check_from, check_invariants, new_pool, checked, apply_action,
}
use nyx_dirty_and_develop.Dex.Invariant.{IsWellFormed, check_invariants_iff}
use nyx_dirty_and_develop.Dex.Actions.{start, step, IsBacked, Reach-IsBacked}

abbrev empty : DexState
empty = record { pools = [] }

abbrev make : CreatePool
make = record { pool_id = "p1"; asset_a = "NYXT"; asset_b = "ECHO" }

abbrev made : DexState
made = record { pools = new_pool make ∷ [] }

abbrev add : AddLiquidity
add = record { pool_id = "p1"; amount_a = pos 5; amount_b = pos 7 }

named : make.pool_id ≢ ""
unfolding text_discrete
named = text_ne _ _ refl

make_ok : apply_action empty (create_pool make) ≡ ok made
unfolding apply_action find_pool checked check_invariants check_from contains text_discrete
make_ok = refl

check_invariants_iff_example : (check_invariants made ≡ ok tt) ↔ IsWellFormed made
check_invariants_iff_example = check_invariants_iff made

made_found : find_pool made.pools add.pool_id ≡ some (new_pool make)
unfolding find_pool text_discrete
made_found = refl

Reach-IsBacked_example : All IsBacked made.pools × (check_invariants made ≡ ok tt)
Reach-IsBacked_example = Reach-IsBacked (step (create_pool make) (start {s = empty} refl) make_ok)
