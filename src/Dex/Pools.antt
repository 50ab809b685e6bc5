-- ===== src/Dex/Pools.antt =====
-- What a lookup finds after each change of the tuple of pools.
use nyx_dirty_and_develop.Base.{
  ◌≡◌, refl, ◌∙◌, ◌≢◌, none, some, List, [], ◌∷◌, ◌++◌, arith, String, All,
}
use nyx_dirty_and_develop.Dex.State.{PoolState, DexState}
use nyx_dirty_and_develop.Dex.Kernel.{find_pool, without, replace_pool}

pub find_pool-append_none :
    (ps qs : List PoolState) (id : String)
    → find_pool ps id ≡ none
    → find_pool (ps ++ qs) id ≡ find_pool qs id
unfolding find_pool
find_pool-append_none [] qs id h = refl
find_pool-append_none (p ∷ ps) qs id h = ground (arith, find_pool-append_none ps qs id)

pub find_pool-append_some :
    (ps qs : List PoolState) (id : String) (q : PoolState)
    → find_pool ps id ≡ some q
    → find_pool (ps ++ qs) id ≡ some q
unfolding find_pool
find_pool-append_some [] qs id q h = cc
find_pool-append_some (p ∷ ps) qs id q h = ground (arith, find_pool-append_some ps qs id q)

pub find_pool-without_self :
    (id : String) (ps : List PoolState) → find_pool (without id ps) id ≡ none
unfolding find_pool without
find_pool-without_self id [] = refl
find_pool-without_self id (p ∷ ps) = ground (arith, find_pool-without_self id ps)

pub find_pool-append_one :
    (ps : List PoolState) (q : PoolState) (id : String)
    → q.pool_id ≢ id
    → find_pool (ps ++ (q ∷ [])) id ≡ find_pool ps id
unfolding find_pool
find_pool-append_one [] q id h = ground arith
find_pool-append_one (p ∷ ps) q id h = ground (arith, find_pool-append_one ps q id h)

pub find_pool-without_ne :
    (u id : String) (ps : List PoolState) → u ≢ id → find_pool (without u ps) id ≡ find_pool ps id
unfolding find_pool without
find_pool-without_ne u id [] h = refl
find_pool-without_ne u id (p ∷ ps) h = ground (arith, find_pool-without_ne u id ps h)

pub find_pool_id :
    (ps : List PoolState) (id : String) (q : PoolState) → find_pool ps id ≡ some q → q.pool_id ≡ id
unfolding find_pool
find_pool_id [] id q h = cc
find_pool_id (p ∷ ps) id q h = ground (arith, find_pool_id ps id q)

pub find_pool-replace_self :
    (s : DexState) (u : PoolState) (id : String)
    → u.pool_id ≡ id
    → find_pool (replace_pool s u).pools id ≡ some u
unfolding replace_pool
find_pool-replace_self s u id same = rw (← same) (
    find_pool-append_none (without u.pool_id s.pools) (u ∷ []) u.pool_id
      (find_pool-without_self u.pool_id s.pools)
    ∙ unfold find_pool in ground arith)

pub find_pool-replace_ne :
    (s : DexState) (u : PoolState) (id : String)
    → u.pool_id ≢ id
    → find_pool (replace_pool s u).pools id ≡ find_pool s.pools id
unfolding replace_pool
find_pool-replace_ne s u id h =
    find_pool-append_one (without u.pool_id s.pools) u id h
    ∙ find_pool-without_ne u.pool_id id s.pools h

pub All-without {ℓ} :
    (P : PoolState → Type ℓ) (id : String) (ps : List PoolState) → All P ps → All P (without id ps)
unfolding without
All-without P id [] h = tt
All-without P id (p ∷ ps) h = ground (arith, All-without P id ps h.1)

pub All-find_pool {ℓ} :
    (P : PoolState → Type ℓ) (ps : List PoolState) (id : String) (q : PoolState)
    → All P ps
    → find_pool ps id ≡ some q
    → P q
unfolding find_pool
All-find_pool P [] id q h e = cc
All-find_pool P (p ∷ ps) id q h e = ground (arith, All-find_pool P ps id q h.1)
