-- ===== src/Dex/Invariant.antt =====
-- The condition that `check_invariants` tests, stated without its loop.
use nyx_dirty_and_develop.Base.{
  ◌≡◌, refl, sym, ◌≢◌, ◌↔◌, false, none, some, List, [], ◌∷◌, ◌++◌, arith, String, All, All-append,
  ok,
}
use nyx_dirty_and_develop.Base.Int.{pos, ◌≤ℤ◌}
use nyx_dirty_and_develop.Dex.State.{PoolState, DexState}
use nyx_dirty_and_develop.Dex.Kernel.{
  contains, check_from, check_invariants, find_pool, without, replace_pool,
}
use nyx_dirty_and_develop.Dex.Pools.{All-without, All-find_pool}

-- A pool has a name and holds no negative amount.
pub record IsSound (p : PoolState) : Type 0 where
  pub named : p.pool_id ≢ ""
  pub reserve_a_nonneg : pos 0 ≤ℤ p.reserve_a
  pub reserve_b_nonneg : pos 0 ≤ℤ p.reserve_b
  pub total_lp_nonneg : pos 0 ≤ℤ p.total_lp

abbrev pub IsFresh : String → List PoolState → Type 0
IsFresh id = All (λ p. p.pool_id ≢ id)

-- Every pool is sound, and no two pools share a name.
abbrev pub AreWellFormed : List PoolState → Type 0
AreWellFormed [] = Unit
AreWellFormed (p ∷ ps) = IsSound p × IsFresh p.pool_id ps × AreWellFormed ps

abbrev pub IsWellFormed : DexState → Type 0
IsWellFormed s = AreWellFormed s.pools

abbrev pub Unseen : List String → List PoolState → Type 0
Unseen seen = All (λ p. contains p.pool_id seen ≡ false)

Unseen-cons :
    (id : String) (seen : List String) (ps : List PoolState)
    → Unseen (id ∷ seen) ps ↔ (IsFresh id ps × Unseen seen ps)
unfolding contains
Unseen-cons id seen [] = (λ _. (tt, tt), λ _. tt)
Unseen-cons id seen (p ∷ ps) = ground (arith, Unseen-cons id seen ps)

Unseen-nil : (ps : List PoolState) → Unseen [] ps
unfolding contains
Unseen-nil [] = tt
Unseen-nil (p ∷ ps) = (refl, Unseen-nil ps)

pub check_from-ok :
    (seen : List String) (ps : List PoolState)
    → check_from seen ps ≡ ok tt
    → AreWellFormed ps × Unseen seen ps
unfolding check_from
check_from-ok seen [] h = (tt, tt)
check_from-ok seen (p ∷ ps) h =
    ground (arith, check_from-ok (p.pool_id ∷ seen) ps, (Unseen-cons p.pool_id seen ps).0)

pub ok-check_from :
    (seen : List String) (ps : List PoolState)
    → AreWellFormed ps
    → Unseen seen ps
    → check_from seen ps ≡ ok tt
unfolding check_from
ok-check_from seen [] w u = refl
ok-check_from seen (p ∷ ps) w u =
    ground (
      arith,
      ok-check_from (p.pool_id ∷ seen) ps w.2 ((Unseen-cons p.pool_id seen ps).1 (w.1, u.1)),
    )

-- The check of the program passes on exactly the well-formed states.
pub check_invariants_iff : (s : DexState) → (check_invariants s ≡ ok tt) ↔ IsWellFormed s
unfolding check_invariants
check_invariants_iff s =
    (λ h. (check_from-ok [] s.pools h).0, λ w. ok-check_from [] s.pools w (Unseen-nil s.pools))

pub AreWellFormed-append_one :
    (ps : List PoolState) (q : PoolState)
    → AreWellFormed ps
    → IsSound q
    → IsFresh q.pool_id ps
    → AreWellFormed (ps ++ (q ∷ []))
AreWellFormed-append_one [] q w s f = (s, tt, tt)
AreWellFormed-append_one (p ∷ ps) q w s f = (
  w.0,
  All-append (λ x. x.pool_id ≢ p.pool_id) ps (q ∷ []) w.1 ((λ e. f.0 (sym e)), tt),
  AreWellFormed-append_one ps q w.2 s f.1,
)

without-IsFresh : (id : String) (ps : List PoolState) → IsFresh id (without id ps)
unfolding without
without-IsFresh id [] = tt
without-IsFresh id (p ∷ ps) = ground (arith, without-IsFresh id ps)

without-AreWellFormed :
    (id : String) (ps : List PoolState) → AreWellFormed ps → AreWellFormed (without id ps)
unfolding without
without-AreWellFormed id [] w = tt
without-AreWellFormed id (p ∷ ps) w =
    ground
      (arith, without-AreWellFormed id ps w.2, All-without (λ x. x.pool_id ≢ p.pool_id) id ps w.1)

pub replace_pool-IsWellFormed :
    (s : DexState) (u : PoolState) → IsWellFormed s → IsSound u → IsWellFormed (replace_pool s u)
unfolding replace_pool
replace_pool-IsWellFormed s u w h =
    AreWellFormed-append_one (without u.pool_id s.pools) u
      (without-AreWellFormed u.pool_id s.pools w) h (without-IsFresh u.pool_id s.pools)

pub AreWellFormed-IsSound : (ps : List PoolState) → AreWellFormed ps → All IsSound ps
AreWellFormed-IsSound [] w = tt
AreWellFormed-IsSound (p ∷ ps) w = (w.0, AreWellFormed-IsSound ps w.2)

pub find_pool-IsSound :
    (s : DexState) (id : String) (q : PoolState)
    → IsWellFormed s
    → find_pool s.pools id ≡ some q
    → IsSound q
find_pool-IsSound s id q w e =
    All-find_pool IsSound s.pools id q (AreWellFormed-IsSound s.pools w) e

pub find_pool-none-IsFresh :
    (ps : List PoolState) (id : String) → find_pool ps id ≡ none → IsFresh id ps
unfolding find_pool
find_pool-none-IsFresh [] id h = tt
find_pool-none-IsFresh (p ∷ ps) id h = ground (arith, find_pool-none-IsFresh ps id)
