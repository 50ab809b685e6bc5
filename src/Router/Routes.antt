-- ===== src/Router/Routes.antt =====
-- Routes: what one swap, and a sequence of swaps, does to the state.
use nyx_dirty_and_develop.Base.{
  ◌≤◌, ◌<◌, ◌≡◌, refl, ◌∙◌, ◌≢◌, not, some, List, [], ◌∷◌, arith, String, text_discrete, ok,
  >>=-eq-ok, ltb, ◌==◌, length, raise_if, raise_if-ok, or_raise, or_raise-ok,
}
use nyx_dirty_and_develop.Base.Int.{pos, leb_ℤ}
use nyx_dirty_and_develop.Dex.{PoolState, DexState, Swap, find_pool, replace_pool, Outcome}
use nyx_dirty_and_develop.Dex.Pools.{find_pool-replace_self, find_pool-replace_ne, find_pool_id}
use nyx_dirty_and_develop.Dex.Invariant.{
  IsSound, IsWellFormed, check_invariants_iff, replace_pool-IsWellFormed, find_pool-IsSound,
}
use nyx_dirty_and_develop.Router.State.{
  Bytes, DexReceipt, route_swap, RouterState, RouterAction, RouterReceipt,
}
use nyx_dirty_and_develop.Router.Kernel.{
  max_amount, check_amount, side, swap_pool, apply_swap, run_steps, apply_route, max_steps,
  is_route_swap,
}
use nyx_dirty_and_develop.Router.Replay.{check_router}
use nyx_dirty_and_develop.Router.Swaps.{
  Fill, IsSwapped, product, check_below-ok, swap_pool-IsSwapped, IsSwapped-product, IsSwapped-kept,
}

-- What a successful `apply_swap` has done, with the numbers of the swap.
pub record IsStep (s t : DexState) (step : Swap) (f : Fill) : Type 0 where
  pub found : find_pool s.pools step.pool_id ≡ some f.before
  pub asked : step.amount_in ≡ pos f.amount_in
  pub least : step.min_out ≡ pos f.min_out
  pub positive : 0 < f.amount_in
  pub chosen : side f.before step.asset_in ≡ ok f.in_is_a
  pub swapped : IsSwapped f
  pub replaced : t ≡ replace_pool s f.after

pub apply_swap-IsStep :
    (s t : DexState) (step : Swap) → apply_swap s step ≡ ok t → (f : Fill) × IsStep s t step f
unfolding apply_swap
apply_swap-IsStep s t step h =
    let (u, e₀, h₀) =
      >>=-eq-ok (raise_if (leb_ℤ step.amount_in (pos 0)) "amount_in must be positive") _ h in
    let (x, e₁, h₁) = >>=-eq-ok (check_amount step.amount_in "amount_in") _ h₀ in
    let (m, e₂, h₂) = >>=-eq-ok (check_amount step.min_out "min_out") _ h₁ in
    let (p, e₃, h₃) = >>=-eq-ok (or_raise (find_pool s.pools step.pool_id) "pool missing") _ h₂ in
    let (q, e₄, h₄) = >>=-eq-ok (swap_pool p step.asset_in x m) _ h₃ in
    let (f, fp, fq, fx, fm, fs, w) = swap_pool-IsSwapped p step.asset_in x m q e₄ in
    let (ex, _) = check_below-ok max_amount step.amount_in "amount_in" x e₁ in
    let (em, _) = check_below-ok max_amount step.min_out "min_out" m e₂ in
    (
      f,
      record {
        found = cc (or_raise-ok _ _ p e₃);
        asked = cc;
        least = cc;
        positive = ground (arith, raise_if-ok _ _ u e₀);
        chosen = cc;
        swapped = w;
        replaced = cc;
      },
    )

-- A successful swap leaves every other pool as it was, and does not lower the product of the
-- reserves of its own.
pub apply_swap-pools :
    (s t : DexState) (step : Swap) (f : Fill)
    → IsStep s t step f
    → (find_pool t.pools step.pool_id ≡ some f.after)
      × ((id : String) → step.pool_id ≢ id → find_pool t.pools id ≡ find_pool s.pools id)
apply_swap-pools s t step f h =
    let kept =
      (IsSwapped-kept f h.swapped).0 ∙ find_pool_id s.pools step.pool_id f.before h.found in
    (
      rw h.replaced (find_pool-replace_self s f.after step.pool_id kept),
      λ id ne. rw h.replaced (find_pool-replace_ne s f.after id (rw kept ne)),
    )

-- Every pool of `s` is still in `t`, with the same liquidity and a product of reserves that is
-- no smaller.
abbrev pub Grows : DexState → DexState → Type 0
Grows s t =
    (id : String) (p : PoolState)
    → find_pool s.pools id ≡ some p
    → (q : PoolState) × (find_pool t.pools id ≡ some q)
      × (q.total_lp ≡ p.total_lp)
      × (product p ≤ product q)

apply_swap-Grows : (s t : DexState) (step : Swap) → apply_swap s step ≡ ok t → Grows s t
apply_swap-Grows s t step h id p e =
    let (f, w) = apply_swap-IsStep s t step h in
    let (same, others) = apply_swap-pools s t step f w in
    elim (text_discrete step.pool_id id) [
      | yes here ↦ (
        f.after,
        rw here at same,
        (IsSwapped-kept f w.swapped).1 ∙ ground (arith, w.found),
        ground (arith, w.found, IsSwapped-product f w.swapped),
      )
      | no there ↦ (p, others id there ∙ e, refl, omega arith)
    ]

run_steps-Grows :
    (hash : DexState → Outcome Bytes) (s : DexState) (steps : List Swap) (t : DexState)
    (rs : List DexReceipt)
    → run_steps hash s steps ≡ ok (t, rs)
    → Grows s t
unfolding run_steps
run_steps-Grows hash s [] t rs h id p e = (p, ground arith, refl, omega arith)
run_steps-Grows hash s (step ∷ steps) t rs h id p e =
    let (u, hu, h') = >>=-eq-ok (apply_swap s step) _ h in
    let (x, hx, hs) = >>=-eq-ok (hash u) _ h' in
    let ((v, vs), hv, h'') = >>=-eq-ok (run_steps hash u steps) _ hs in
    let (q, eq, lq, pq) = apply_swap-Grows s u step hu id p e in
    let (r, er, lr, pr) = run_steps-Grows hash u steps v vs hv id q eq in
    (r, ground (arith, er), lr ∙ lq, omega arith)

apply_swap-IsWellFormed :
    (s t : DexState) (step : Swap) → IsWellFormed s → apply_swap s step ≡ ok t → IsWellFormed t
apply_swap-IsWellFormed s t step w h =
    let (f, st) = apply_swap-IsStep s t step h in
    let kept = IsSwapped-kept f st.swapped in
    let sound : IsSound f.before = find_pool-IsSound s step.pool_id f.before w st.found in
    rw st.replaced (
      replace_pool-IsWellFormed s f.after w (record {
        named = rw kept.0 sound.named;
        reserve_a_nonneg = omega arith;
        reserve_b_nonneg = omega arith;
        total_lp_nonneg = rw kept.1 sound.total_lp_nonneg;
      }))

run_steps-IsWellFormed :
    (hash : DexState → Outcome Bytes) (s : DexState) (steps : List Swap) (t : DexState)
    (rs : List DexReceipt)
    → IsWellFormed s
    → run_steps hash s steps ≡ ok (t, rs)
    → IsWellFormed t
unfolding run_steps
run_steps-IsWellFormed hash s [] t rs w h = ground arith
run_steps-IsWellFormed hash s (step ∷ steps) t rs w h =
    let (u, hu, h') = >>=-eq-ok (apply_swap s step) _ h in
    let (x, hx, hs) = >>=-eq-ok (hash u) _ h' in
    let ((v, vs), hv, h'') = >>=-eq-ok (run_steps hash u steps) _ hs in
    ground
      (arith, run_steps-IsWellFormed hash u steps v vs (apply_swap-IsWellFormed s u step w hu) hv)

abbrev pub receipt_of : Bytes → List Swap → List DexReceipt → RouterReceipt
receipt_of hash steps rs = record {
  action = route_swap;
  state_hash = hash;
  steps = steps;
  step_receipts = rs;
}

-- What a successful `apply_route` was asked, and what it returned.
pub record IsRouted (hash : DexState → Outcome Bytes) (s t : RouterState) (a : RouterAction)
    (r : RouterReceipt) : Type 0 where
  pub kind : a.kind ≡ route_swap
  pub nonempty : 0 < length a.payload.steps
  pub bounded : length a.payload.steps ≤ max_steps
  pub ran : run_steps hash s.dex_state a.payload.steps ≡ ok (t.dex_state, r.step_receipts)
  pub hashed : hash t.dex_state ≡ ok r.state_hash
  pub receipt : r ≡ receipt_of r.state_hash a.payload.steps r.step_receipts

pub apply_route-IsRouted :
    (hash : DexState → Outcome Bytes) (s t : RouterState) (a : RouterAction) (r : RouterReceipt)
    → apply_route hash s a ≡ ok (t, r)
    → IsRouted hash s t a r
unfolding apply_route
apply_route-IsRouted hash s t a r h =
    let steps = a.payload.steps in
    let (u, e, h₁) = >>=-eq-ok (raise_if (not (is_route_swap a.kind)) "unsupported action") _ h in
    let (u₂, e₂, h₂) = >>=-eq-ok (raise_if (length steps == 0) "route steps empty") _ h₁ in
    let (u₃, e₃, h₃) =
      >>=-eq-ok (raise_if (ltb max_steps (length steps)) "route steps exceed max") _ h₂ in
    let ((v, vs), e₄, h₄) = >>=-eq-ok (run_steps hash s.dex_state steps) _ h₃ in
    let (x, e₅, h₅) = >>=-eq-ok (hash v) _ h₄ in
    record {
      kind = ground (arith, raise_if-ok _ _ u e);
      nonempty = ground (arith, raise_if-ok _ _ u₂ e₂);
      bounded = ground (arith, raise_if-ok _ _ u₃ e₃);
      ran = cc;
      hashed = cc;
      receipt = cc;
    }

pub IsRouted-apply_route :
    (hash : DexState → Outcome Bytes) (s t : RouterState) (a : RouterAction) (r : RouterReceipt)
    → IsRouted hash s t a r
    → apply_route hash s a ≡ ok (t, r)
unfolding apply_route
IsRouted-apply_route hash s t a r h = ground (arith, h.ran, h.hashed, h.receipt)

-- No pool loses by a route: every pool is still there after it, with the same liquidity and a
-- product of reserves that is no smaller.
pub apply_route-Grows :
    (hash : DexState → Outcome Bytes) (s t : RouterState) (a : RouterAction) (r : RouterReceipt)
    → apply_route hash s a ≡ ok (t, r)
    → Grows s.dex_state t.dex_state
apply_route-Grows hash s t a r h =
    run_steps-Grows hash s.dex_state a.payload.steps t.dex_state r.step_receipts
      (apply_route-IsRouted hash s t a r h).ran

-- A route from a state that passes `check_invariants` ends in a state that passes it.
pub apply_route-check_router :
    (hash : DexState → Outcome Bytes) (s t : RouterState) (a : RouterAction) (r : RouterReceipt)
    → check_router s ≡ ok tt
    → apply_route hash s a ≡ ok (t, r)
    → check_router t ≡ ok tt
unfolding check_router
apply_route-check_router hash s t a r w h = (check_invariants_iff t.dex_state).1 (
    run_steps-IsWellFormed hash s.dex_state a.payload.steps t.dex_state r.step_receipts
      ((check_invariants_iff s.dex_state).0 w) (apply_route-IsRouted hash s t a r h).ran)
