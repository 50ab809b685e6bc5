-- ===== src/Gateway/Wallet/Moves.antt =====
-- What a successful `apply_wallet_transfer` has done to the table of balances.
use nyx_dirty_and_develop.Base.{ℕ, ◌+◌, ◌-◌, ◌≤◌, ◌≡◌, refl, ◌∙◌, ◌≢◌, arith, String, ok, ltb}
use nyx_dirty_and_develop.Gateway.Monad.{
  storage, follow, follow-eq-ok, fail_if, fail_if-ok, pure, ◌>>◌,
}
use nyx_dirty_and_develop.Gateway.Wallet.Rows.{Accounts, balance_of, insert_or_ignore, supply}
use nyx_dirty_and_develop.Gateway.Wallet.Access.{
  ensure_wallet_account, get_wallet_balance, set_wallet_balance,
}
use nyx_dirty_and_develop.Gateway.Wallet.Operations.{
  Transfer, Balances, take_from, settle, insufficient, move_funds,
}
use nyx_dirty_and_develop.Gateway.Wallet.Supply.{
  put, balance_of-insert_or_ignore, supply-insert_or_ignore,
}
use nyx_dirty_and_develop.Gateway.Wallet.Evaluate.{ensure-ok, get-ok, set-ok}

-- Two tables with the same balances and supplies: they differ in rows of balance 0 at most.
abbrev pub Agrees : Accounts → Accounts → Type 0
Agrees w rs =
    ((a s : String) → balance_of a s w ≡ balance_of a s rs)
    × ((s : String) → supply s w ≡ supply s rs)

pub Agrees-ensure :
    (a s : String) (w rs : Accounts) → Agrees w rs → Agrees (insert_or_ignore a s w) rs
Agrees-ensure a s w rs h = (
  λ b t. balance_of-insert_or_ignore b t a s w ∙ h.0 b t,
  λ t. supply-insert_or_ignore t a s w ∙ h.1 t,
)

pub take_from_nyxt :
    (from asset : String) (current amt fee : ℕ) (rs rs' : Accounts) (left : ℕ)
    → asset ≡ "NYXT"
    → take_from from asset current amt fee rs ≡ (ok left, rs')
    → (rs' ≡ rs) × (left + (amt + fee) ≡ current)
unfolding take_from
take_from_nyxt from asset current amt fee rs rs' left e h = ground arith

pub take_from_other :
    (from asset : String) (current amt fee : ℕ) (rs rs' : Accounts) (left : ℕ)
    → asset ≢ "NYXT"
    → amt ≤ current
    → take_from from asset current amt fee rs ≡ (ok left, rs')
    → (base : Accounts) × Agrees base rs
      × (rs' ≡ put from "NYXT" (balance_of from "NYXT" rs - fee) base)
      × (left + amt ≡ current)
      × (fee ≤ balance_of from "NYXT" rs)
unfolding take_from
take_from_other from asset current amt fee rs rs' left ne c h =
    let h₀ : follow (get_wallet_balance from "NYXT" rs) (λ nyxt. do
      fail_if (ltb nyxt fee) (storage "insufficient NYXT for fee")
      set_wallet_balance from (nyxt - fee) "NYXT"
      pure (current - amt))
        ≡ (ok left, rs') =
      ground arith in
    let (nyxt, w, e, h₁) = follow-eq-ok (get_wallet_balance from "NYXT" rs) _ h₀ in
    let (_, v, ew) = get-ok from "NYXT" rs w nyxt e in
    let (u₁, w₁, e₁, h₂) =
      follow-eq-ok (fail_if (ltb nyxt fee) (storage "insufficient NYXT for fee") w) _ h₁ in
    let (u₂, w₂, e₂, h₃) = follow-eq-ok (set_wallet_balance from (nyxt - fee) "NYXT" w₁) _ h₂ in
    let (_, _, ew₂) = set-ok from "NYXT" (nyxt - fee) w₁ w₂ u₂ e₂ in
    let (nf, ew₁) = fail_if-ok (ltb nyxt fee) _ w e₁ in
    (
      insert_or_ignore from "NYXT" rs,
      Agrees-ensure from "NYXT" rs rs ((λ a s. refl), λ s. refl),
      cc,
      ground arith,
      ground arith,
    )

-- The table that `settle` leaves.
abbrev pub settled : Transfer → ℕ → ℕ → ℕ → Accounts → Accounts → Accounts
settled t amt fee left w base =
    put t.treasury_address "NYXT" (balance_of t.treasury_address "NYXT" w + fee) (
      put t.to_address t.asset_id (balance_of t.to_address t.asset_id w + amt)
        (put t.from_address t.asset_id left base))

pub settle-ok :
    (t : Transfer) (amt fee left : ℕ) (w rs' : Accounts) (b : Balances)
    → settle t amt fee left w ≡ (ok b, rs')
    → (base : Accounts) × Agrees base w × (rs' ≡ settled t amt fee left w base)
unfolding settle
settle-ok t amt fee left w rs' b h =
    let (x, w₁, e₁, h₁) = follow-eq-ok (get_wallet_balance t.to_address t.asset_id w) _ h in
    let (_, ex, ew₁) = get-ok t.to_address t.asset_id w w₁ x e₁ in
    let (y, w₂, e₂, h₂) = follow-eq-ok (get_wallet_balance t.treasury_address "NYXT" w₁) _ h₁ in
    let (_, ey, ew₂) = get-ok t.treasury_address "NYXT" w₁ w₂ y e₂ in
    let (u₃, w₃, e₃, h₃) =
      follow-eq-ok (set_wallet_balance t.from_address left t.asset_id w₂) _ h₂ in
    let (_, _, ew₃) = set-ok t.from_address t.asset_id left w₂ w₃ u₃ e₃ in
    let (u₄, w₄, e₄, h₄) =
      follow-eq-ok (set_wallet_balance t.to_address (x + amt) t.asset_id w₃) _ h₃ in
    let (_, _, ew₄) = set-ok t.to_address t.asset_id (x + amt) w₃ w₄ u₄ e₄ in
    let (u₅, w₅, e₅, h₅) =
      follow-eq-ok (set_wallet_balance t.treasury_address (y + fee) "NYXT" w₄) _ h₄ in
    let (_, _, ew₅) = set-ok t.treasury_address "NYXT" (y + fee) w₄ w₅ u₅ e₅ in
    let first : Agrees w₁ w =
      rw ew₁ (Agrees-ensure t.to_address t.asset_id w w ((λ a s. refl), λ s. refl)) in
    let second : Agrees w₂ w = rw ew₂ (Agrees-ensure t.treasury_address "NYXT" w₁ w first) in
    let read : y ≡ balance_of t.treasury_address "NYXT" w =
      ey ∙ first.0 t.treasury_address "NYXT" in
    (w₂, second, cc)

-- The parts of a call that returns: the checks before the sender pays have passed, on the balance
-- that the sender had.
pub move_funds-ok :
    (t : Transfer) (amt fee : ℕ) (rs rs' : Accounts) (b : Balances)
    → move_funds t amt fee rs ≡ (ok b, rs')
    → let current = balance_of t.from_address t.asset_id rs in
      (w w' : Accounts) × (left : ℕ) × Agrees w rs
      × (amt ≤ current)
      × (take_from t.from_address t.asset_id current amt fee w ≡ (ok left, w'))
      × (settle t amt fee left w' ≡ (ok b, rs'))
unfolding move_funds
move_funds-ok t amt fee rs rs' b h =
    let from = t.from_address in
    let asset = t.asset_id in
    let (u₁, w₁, e₁, h₁) = follow-eq-ok (ensure_wallet_account from asset rs) _ h in
    let (_, ew₁) = ensure-ok from asset rs w₁ u₁ e₁ in
    let (u₂, w₂, e₂, h₂) = follow-eq-ok (ensure_wallet_account t.to_address asset w₁) _ h₁ in
    let (_, ew₂) = ensure-ok t.to_address asset w₁ w₂ u₂ e₂ in
    let (u₃, w₃, e₃, h₃) = follow-eq-ok (ensure_wallet_account t.treasury_address "NYXT" w₂) _ h₂ in
    let (_, ew₃) = ensure-ok t.treasury_address "NYXT" w₂ w₃ u₃ e₃ in
    let (x, w₄, e₄, h₄) = follow-eq-ok (get_wallet_balance from asset w₃) _ h₃ in
    let (_, ex, ew₄) = get-ok from asset w₃ w₄ x e₄ in
    let (u₅, w₅, e₅, h₅) =
      follow-eq-ok (fail_if (ltb x amt) (storage (insufficient asset)) w₄) _ h₄ in
    let (covered, ew₅) = fail_if-ok (ltb x amt) _ w₄ e₅ in
    let (left, w₆, e₆, h₆) = follow-eq-ok (take_from from asset x amt fee w₅) _ h₅ in
    let a₁ : Agrees w₁ rs = rw ew₁ (Agrees-ensure from asset rs rs ((λ a s. refl), λ s. refl)) in
    let a₂ : Agrees w₂ rs = rw ew₂ (Agrees-ensure t.to_address asset w₁ rs a₁) in
    let a₃ : Agrees w₃ rs = rw ew₃ (Agrees-ensure t.treasury_address "NYXT" w₂ rs a₂) in
    let a₄ : Agrees w₄ rs = rw ew₄ (Agrees-ensure from asset w₃ rs a₃) in
    let same : x ≡ balance_of from asset rs = ex ∙ a₃.0 from asset in
    (w₅, w₆, left, rw ew₅ a₄, ground arith, rw (← same) e₆, h₆)
