-- ===== src/Dex/Actions.antt =====
-- What each action of `apply_action` does to a well-formed state, and what holds of every state
-- that actions reach.
use nyx_dirty_and_develop.Base.{
  ◌≡◌, ◌≢◌, some, [], ◌∷◌, ◌++◌, arith, String, All, All-append, ok, err, >>=-eq-ok, Option-cases,
  is_some, inl, inr, if◌then◌else◌,
}
use nyx_dirty_and_develop.Base.Int.{pos, ◌+ℤ◌, ◌≤ℤ◌, int_laws}
use nyx_dirty_and_develop.Dex.State.{
  PoolState, DexState, CreatePool, AddLiquidity, Action, create_pool, add_liquidity,
  remove_liquidity, swap, other,
}
use nyx_dirty_and_develop.Dex.Kernel.{
  check_invariants, find_pool, without, replace_pool, checked, new_pool, grown_pool, apply_action,
}
use nyx_dirty_and_develop.Dex.Pools.{
  find_pool-replace_self, find_pool-replace_ne, find_pool_id, All-without, All-find_pool,
}
use nyx_dirty_and_develop.Dex.Invariant.{
  IsSound, IsWellFormed, check_invariants_iff, replace_pool-IsWellFormed, find_pool-IsSound,
  AreWellFormed-append_one, find_pool-none-IsFresh,
}

checked-ok : (s t : DexState) → checked s ≡ ok t → (t ≡ s) × IsWellFormed t
unfolding checked
checked-ok s t h =
    let (_, passed, same) = >>=-eq-ok (check_invariants s) (λ _. ok s) h in
    ground (arith, (check_invariants_iff s).0 passed)

checked_lem : (s : DexState) → IsWellFormed s → checked s ≡ ok s
unfolding checked
checked_lem s w = rw ((check_invariants_iff s).1 w)

-- Every state that `apply_action` returns is well-formed, whatever state it began from.
pub apply_action-IsWellFormed :
    (s : DexState) (a : Action) {t : DexState} → apply_action s a ≡ ok t → IsWellFormed t
unfolding apply_action
apply_action-IsWellFormed s (create_pool a) {t} h =
    ground (arith, checked-ok (record { pools = s.pools ++ (new_pool a ∷ []) }) t)
apply_action-IsWellFormed s (add_liquidity a) {t} h =
    elim (Option-cases (find_pool s.pools a.pool_id)) [
      | inl missing ↦ ground arith
      | inr (p, found) ↦ ground (arith, checked-ok (replace_pool s (grown_pool p a)) t)
    ]
apply_action-IsWellFormed s (remove_liquidity a) h = cc
apply_action-IsWellFormed s (swap a) h = cc
apply_action-IsWellFormed s other h = cc

new_pool-IsSound : (a : CreatePool) → a.pool_id ≢ "" → IsSound (new_pool a)
new_pool-IsSound a h = record {
  named = h;
  reserve_a_nonneg = omega arith;
  reserve_b_nonneg = omega arith;
  total_lp_nonneg = omega arith;
}

grown_pool-IsSound :
    (p : PoolState) (a : AddLiquidity)
    → IsSound p
    → pos 1 ≤ℤ a.amount_a
    → pos 1 ≤ℤ a.amount_b
    → IsSound (grown_pool p a)
grown_pool-IsSound p a h ha hb = record {
  named = h.named;
  reserve_a_nonneg = omega (int_laws, h.reserve_a_nonneg);
  reserve_b_nonneg = omega (int_laws, h.reserve_b_nonneg);
  total_lp_nonneg = omega (int_laws, h.total_lp_nonneg);
}

-- Creating a named pool in a well-formed state fails exactly if the name is taken.
pub apply_action-create_pool :
    (s : DexState) (a : CreatePool)
    → IsWellFormed s
    → a.pool_id ≢ ""
    → apply_action s (create_pool a) ≡ (
        if is_some (find_pool s.pools a.pool_id)
        then err "pool exists"
        else ok (record { pools = s.pools ++ (new_pool a ∷ []) }))
unfolding apply_action
apply_action-create_pool s a w named = elim (Option-cases (find_pool s.pools a.pool_id)) [
  | inl free ↦ rw free (
      checked_lem _ (
        AreWellFormed-append_one s.pools (new_pool a) w (new_pool-IsSound a named)
          (find_pool-none-IsFresh s.pools a.pool_id free)))
  | inr (p, taken) ↦ rw taken
]

-- Positive amounts added to a pool of a well-formed state are added to its reserves and to its
-- liquidity, and no other pool changes.
pub apply_action-add_liquidity :
    (s : DexState) (a : AddLiquidity) (p : PoolState)
    → IsWellFormed s
    → pos 1 ≤ℤ a.amount_a
    → pos 1 ≤ℤ a.amount_b
    → find_pool s.pools a.pool_id ≡ some p
    → (t : DexState) × (apply_action s (add_liquidity a) ≡ ok t)
      × (find_pool t.pools a.pool_id ≡ some (grown_pool p a))
      × ((id : String) → a.pool_id ≢ id → find_pool t.pools id ≡ find_pool s.pools id)
unfolding apply_action
apply_action-add_liquidity s a p w ha hb found =
    let same : p.pool_id ≡ a.pool_id = find_pool_id s.pools a.pool_id p found in
    let sound : IsSound p = find_pool-IsSound s a.pool_id p w found in
    (
      replace_pool s (grown_pool p a),
      ground (
        arith,
        checked_lem (replace_pool s (grown_pool p a))
            (replace_pool-IsWellFormed s (grown_pool p a) w (grown_pool-IsSound p a sound ha hb)),
      ),
      find_pool-replace_self s (grown_pool p a) a.pool_id same,
      λ id ne. find_pool-replace_ne s (grown_pool p a) id (rw same ne),
    )

-- The states that a sequence of successful actions reaches from the state with no pool.
pub data Reach : DexState → Type 0 where
  start : {s : DexState} → s.pools ≡ [] → Reach s
  step : {s t : DexState} (a : Action) → Reach s → apply_action s a ≡ ok t → Reach t

abbrev pub IsBacked : PoolState → Type 0
IsBacked p = p.total_lp ≡ p.reserve_a +ℤ p.reserve_b

grown_pool-IsBacked : (p : PoolState) (a : AddLiquidity) → IsBacked p → IsBacked (grown_pool p a)
grown_pool-IsBacked p a h = rw h (omega int_laws)

apply_action-IsBacked :
    (s : DexState) (a : Action) {t : DexState}
    → All IsBacked s.pools
    → apply_action s a ≡ ok t
    → All IsBacked t.pools
unfolding apply_action replace_pool
apply_action-IsBacked s (create_pool a) {t} b h = ground (
  arith,
  checked-ok (record { pools = s.pools ++ (new_pool a ∷ []) }) t,
  All-append IsBacked s.pools (new_pool a ∷ []) b (omega int_laws, tt),
)
apply_action-IsBacked s (add_liquidity a) {t} b h =
    elim (Option-cases (find_pool s.pools a.pool_id)) [
      | inl missing ↦ ground arith
      | inr (p, found) ↦ ground (
        arith,
        checked-ok (replace_pool s (grown_pool p a)) t,
        All-append IsBacked (without p.pool_id s.pools) (grown_pool p a ∷ [])
            (All-without IsBacked p.pool_id s.pools b)
            (grown_pool-IsBacked p a (All-find_pool IsBacked s.pools a.pool_id p b found), tt),
      )
    ]
apply_action-IsBacked s (remove_liquidity a) b h = cc
apply_action-IsBacked s (swap a) b h = cc
apply_action-IsBacked s other b h = cc

-- In every reachable state each pool's liquidity is the sum of its reserves, and the state passes
-- the program's own check.
pub Reach-IsBacked : {s : DexState} → Reach s → All IsBacked s.pools × (check_invariants s ≡ ok tt)
Reach-IsBacked (start {s = u} e) = (rw e tt, (check_invariants_iff u).1 (rw e tt))
Reach-IsBacked (step {s = u} {t = v} a r h) = (
  apply_action-IsBacked u a (Reach-IsBacked r).0 h,
  (check_invariants_iff v).1 (apply_action-IsWellFormed u a h),
)
