-- ===== src/Gateway/Transfers/Grants.antt =====
-- What a grant, `apply_wallet_faucet_with_fee`, does to the supply of each asset.
use nyx_dirty_and_develop.Base.{
  ℕ, ◌+◌, ◌≡◌, refl, sym, ap, ◌∙◌, ◌&&◌, arith, String, text_eq, Result, ok, if◌then◌else◌,
}
use nyx_dirty_and_develop.Gateway.Monad.{Error, follow-eq-ok}
use nyx_dirty_and_develop.Gateway.Wallet.{
  Accounts, supply, balance_of, ensure_wallet_account, get_wallet_balance, set_wallet_balance,
}
use nyx_dirty_and_develop.Gateway.Wallet.Supply.{put, supply-put, balance_of-put}
use nyx_dirty_and_develop.Gateway.Wallet.Evaluate.{ensure-ok, get-ok, set-ok}
use nyx_dirty_and_develop.Gateway.Wallet.Moves.{Agrees, Agrees-ensure}
use nyx_dirty_and_develop.Gateway.Transfers.Defs.{Grant, grant_funds}

-- The table that a grant leaves.
grant_funds-ok :
    (g : Grant) (amt fee : ℕ) (rs rs' : Accounts) (r : ℕ × ℕ)
    → grant_funds g amt fee rs ≡ (ok r, rs')
    → (base : Accounts) × Agrees base rs
      × (rs'
          ≡ put g.treasury_address "NYXT"
              (balance_of g.treasury_address "NYXT" rs + fee)
              (put g.address g.asset_id (balance_of g.address g.asset_id rs + amt) base))
unfolding grant_funds
grant_funds-ok g amt fee rs rs' r h =
    let a = g.address in
    let s = g.asset_id in
    let tr = g.treasury_address in
    let (u₁, w₁, e₁, h₁) = follow-eq-ok (ensure_wallet_account a s rs) _ h in
    let (_, ew₁) = ensure-ok a s rs w₁ u₁ e₁ in
    let (u₂, w₂, e₂, h₂) = follow-eq-ok (ensure_wallet_account tr "NYXT" w₁) _ h₁ in
    let (_, ew₂) = ensure-ok tr "NYXT" w₁ w₂ u₂ e₂ in
    let (x, w₃, e₃, h₃) = follow-eq-ok (get_wallet_balance a s w₂) _ h₂ in
    let (_, ex, ew₃) = get-ok a s w₂ w₃ x e₃ in
    let (y, w₄, e₄, h₄) = follow-eq-ok (get_wallet_balance tr "NYXT" w₃) _ h₃ in
    let (_, ey, ew₄) = get-ok tr "NYXT" w₃ w₄ y e₄ in
    let (u₅, w₅, e₅, h₅) = follow-eq-ok (set_wallet_balance a (x + amt) s w₄) _ h₄ in
    let (_, _, ew₅) = set-ok a s (x + amt) w₄ w₅ u₅ e₅ in
    let (u₆, w₆, e₆, h₆) = follow-eq-ok (set_wallet_balance tr (y + fee) "NYXT" w₅) _ h₅ in
    let (_, _, ew₆) = set-ok tr "NYXT" (y + fee) w₅ w₆ u₆ e₆ in
    let a₁ : Agrees w₁ rs = rw ew₁ (Agrees-ensure a s rs rs ((λ b t. refl), λ t. refl)) in
    let a₂ : Agrees w₂ rs = rw ew₂ (Agrees-ensure tr "NYXT" w₁ rs a₁) in
    let a₃ : Agrees w₃ rs = rw ew₃ (Agrees-ensure a s w₂ rs a₂) in
    let a₄ : Agrees w₄ rs = rw ew₄ (Agrees-ensure tr "NYXT" w₃ rs a₃) in
    let ex' : x ≡ balance_of a s rs = ex ∙ a₂.0 a s in
    let ey' : y ≡ balance_of tr "NYXT" rs = ey ∙ a₃.0 tr "NYXT" in
    let last : rs' ≡ w₆ = sym (ap (λ (p : Result Error (ℕ × ℕ) × Accounts). p.1) h₆) in
    (w₄, a₄, last ∙ ew₆ ∙ rw (ey', ew₅, ex'))

-- A successful grant creates its amount in its asset and its fee in NYXT. Where the treasury is
-- granted NYXT, the write of the fee overwrites the amount, and the fee alone is created.
pub grant_funds-supply :
    (g : Grant) (amt fee : ℕ) (rs rs' : Accounts) (r : ℕ × ℕ) (s : String)
    → grant_funds g amt fee rs ≡ (ok r, rs')
    → supply s rs'
      ≡ supply s rs
        + (if text_eq "NYXT" s then fee else 0)
        + (if text_eq g.address g.treasury_address && text_eq g.asset_id "NYXT"
            then 0
            else if text_eq g.asset_id s
            then amt
            else 0)
grant_funds-supply g amt fee rs rs' r s h =
    let a = g.address in
    let tr = g.treasury_address in
    let x = balance_of a g.asset_id rs + amt in
    let y = balance_of tr "NYXT" rs + fee in
    let (base, same, e) = grant_funds-ok g amt fee rs rs' r h in
    ground (
      arith,
      e,
      supply-put s tr "NYXT" y (put a g.asset_id x base),
      supply-put s a g.asset_id x base,
      balance_of-put tr "NYXT" a g.asset_id x base,
      same.0 a g.asset_id,
      same.0 tr "NYXT",
      same.1 s,
    )
