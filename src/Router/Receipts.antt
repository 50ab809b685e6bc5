-- ===== src/Router/Receipts.antt =====
-- Receipts of routes, and their replay.
use nyx_dirty_and_develop.Base.{
  ◌≡◌, refl, ◌↔◌, true, not, List, [], ◌∷◌, ◌++◌, arith, length, ◌==◌, compare_digest,
  compare_digest_iff, ok, >>=-eq-ok, raise_if, raise_if-ok,
}
use nyx_dirty_and_develop.Dex.{DexState, Swap, Outcome}
use nyx_dirty_and_develop.Router.State.{
  Bytes, ActionKind, create_pool_kind, add_liquidity_kind, remove_liquidity_kind, swap_kind,
  DexReceipt, RouterState, RouterAction, RouterReceipt,
}
use nyx_dirty_and_develop.Router.Kernel.{apply_swap, run_steps, apply_route, step_receipt}
use nyx_dirty_and_develop.Router.Replay.{same_kind, check_receipt, check_receipts, replay_route}
use nyx_dirty_and_develop.Router.Routes.{apply_route-IsRouted}

module _ (hash : DexState → Outcome Bytes) where
  -- The state after some steps of a route, if they succeed.
  abbrev pub RunsTo : DexState → List Swap → DexState → List DexReceipt → Type 0
  RunsTo s steps t rs = run_steps hash s steps ≡ ok (t, rs)

  -- A route may be cut anywhere: the first part runs to a state from which the second part runs,
  -- and the receipts of the parts are the receipts of the route.
  pub run_steps-append :
      (s : DexState) (xs ys : List Swap) (t : DexState) (rs : List DexReceipt)
      → RunsTo s (xs ++ ys) t rs
      → (u : DexState) × (ps qs : List DexReceipt) × RunsTo s xs u ps
        × RunsTo u ys t qs
        × (rs ≡ ps ++ qs)
  unfolding run_steps
  run_steps-append s [] ys t rs h = (s, [], rs, refl, h, refl)
  run_steps-append s (x ∷ xs) ys t rs h =
      let (v, hv, h') = >>=-eq-ok (apply_swap s x) _ h in
      let (i, hi, hr) = >>=-eq-ok (hash v) _ h' in
      let ((w, ws), hw, h'') = >>=-eq-ok (run_steps hash v (xs ++ ys)) _ hr in
      let (u, ps, qs, hp, hq, e) = run_steps-append v xs ys w ws hw in
      (u, step_receipt x i ∷ ps, qs, ground (arith, hp), ground (arith, hq), ground (arith, e))

  -- One receipt for each step.
  pub length-run_steps :
      (s : DexState) (steps : List Swap) (t : DexState) (rs : List DexReceipt)
      → RunsTo s steps t rs
      → length rs ≡ length steps
  unfolding run_steps
  length-run_steps s [] t rs h = ground arith
  length-run_steps s (x ∷ xs) t rs h =
      let (v, hv, h') = >>=-eq-ok (apply_swap s x) _ h in
      let (i, hi, hr) = >>=-eq-ok (hash v) _ h' in
      let ((w, ws), hw, h'') = >>=-eq-ok (run_steps hash v xs) _ hr in
      ground (arith, length-run_steps v xs w ws hw)

same_kind_refl : (k : ActionKind) → same_kind k k ≡ true
same_kind_refl create_pool_kind = refl
same_kind_refl add_liquidity_kind = refl
same_kind_refl remove_liquidity_kind = refl
same_kind_refl swap_kind = refl

same_kind_eq : (j k : ActionKind) → same_kind j k ≡ true → j ≡ k
same_kind_eq j k h = ground arith

check_receipt_iff : (e a : DexReceipt) → (check_receipt e a ≡ ok tt) ↔ (e ≡ a)
unfolding check_receipt
check_receipt_iff e a = (
  (λ h.
      ground (arith, compare_digest_iff e.state_hash a.state_hash, same_kind_eq e.action a.action)),
  (λ h. rw h (
      ground
        (arith, (compare_digest_iff a.state_hash a.state_hash).1 refl, same_kind_refl a.action))),
)

check_receipts_iff :
    (es as' : List DexReceipt)
    → length as' ≡ length es
    → (check_receipts es as' ≡ ok tt) ↔ (es ≡ as')
unfolding check_receipts
check_receipts_iff [] [] h = ((λ _. refl), λ _. refl)
check_receipts_iff (e ∷ es) (a ∷ as') h =
    ground (arith, check_receipt_iff e a, check_receipts_iff es as')
check_receipts_iff [] (a ∷ as') h = absurd (omega arith)
check_receipts_iff (e ∷ es) [] h = absurd (omega arith)

module _ (hash : DexState → Outcome Bytes) where
  abbrev pub action_of : RouterReceipt → RouterAction
  action_of r = record { kind = r.action; payload = record { steps = r.steps } }

  replays :
      (s t : RouterState) (r : RouterReceipt)
      → replay_route hash s r ≡ ok t
      → apply_route hash s (action_of r) ≡ ok (t, r)
  unfolding replay_route
  replays s t r h =
      let ((v, c), e, h₁) = >>=-eq-ok (apply_route hash s (action_of r)) _ h in
      let (u₁, e₁, h₂) =
        >>=-eq-ok (raise_if (not (compare_digest c.state_hash r.state_hash)) "state hash mismatch")
          _ h₁ in
      let (u₂, e₂, h₃) =
        >>=-eq-ok
          (raise_if (not (length c.step_receipts == length r.step_receipts))
            "step receipt length mismatch")
          _ h₂ in
      let (u₃, e₃, h₄) = >>=-eq-ok (check_receipts r.step_receipts c.step_receipts) _ h₃ in
      let w = apply_route-IsRouted hash s v (action_of r) c e in
      let lengths : length c.step_receipts ≡ length r.step_receipts =
        ground (arith, raise_if-ok _ _ u₂ e₂) in
      let hashes : c.state_hash ≡ r.state_hash =
        (compare_digest_iff _ _).0 (ground (arith, raise_if-ok _ _ u₁ e₁)) in
      let receipts : r.step_receipts ≡ c.step_receipts = (check_receipts_iff _ _ lengths).0 e₃ in
      let same : c ≡ r = ground (arith, w.receipt, w.kind) in cc (e, same, h₄)

  -- A receipt replays, and to the state that it was given for, exactly if it is the receipt that
  -- the route of its steps returns.
  pub replay_route_iff :
      (s t : RouterState) (r : RouterReceipt)
      → (replay_route hash s r ≡ ok t) ↔ (apply_route hash s (action_of r) ≡ ok (t, r))
  unfolding replay_route
  replay_route_iff s t r = (
    replays s t r,
    λ h. rw h (
        ground (
          arith,
          compare_digest_iff r.state_hash r.state_hash,
          check_receipts_iff r.step_receipts r.step_receipts refl,
        )),
  )
