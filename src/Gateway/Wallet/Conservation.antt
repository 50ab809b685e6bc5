-- ===== src/Gateway/Wallet/Conservation.antt =====
-- Where the money of a transfer goes: every balance after it, and the supply of every asset.
use nyx_dirty_and_develop.Base.{
  ℕ, ◌+◌, ◌-◌, ◌≤◌, ◌≡◌, ◌≢◌, ◌&&◌, arith, String, text_eq, text_discrete, ok, if◌then◌else◌,
}
use nyx_dirty_and_develop.Gateway.Wallet.Rows.{Accounts, balance_of, supply}
use nyx_dirty_and_develop.Gateway.Wallet.Operations.{Transfer, Balances, move_funds}
use nyx_dirty_and_develop.Gateway.Wallet.Supply.{put, balance_of-put, supply-put}
use nyx_dirty_and_develop.Gateway.Wallet.Moves.{
  Agrees, take_from_nyxt, take_from_other, settled, settle-ok, move_funds-ok,
}

settled_balances :
    (t : Transfer) (amt fee left : ℕ) (w base : Accounts) (a s : String)
    → balance_of a s (settled t amt fee left w base) ≡ (
        if text_eq t.treasury_address a && text_eq "NYXT" s
        then balance_of t.treasury_address "NYXT" w + fee
        else if text_eq t.to_address a && text_eq t.asset_id s
        then balance_of t.to_address t.asset_id w + amt
        else if text_eq t.from_address a && text_eq t.asset_id s
        then left
        else balance_of a s base)
settled_balances t amt fee left w base a s = simp balance_of-put

-- The supply of an asset after the three writes, with what each of them overwrote.
supply-settled :
    (t : Transfer) (amt fee left : ℕ) (w base : Accounts) (s : String)
    → Agrees base w
    → t.from_address ≢ t.to_address
    → supply s (settled t amt fee left w base)
        + (if text_eq t.asset_id s then balance_of t.from_address t.asset_id w else 0)
        + (if text_eq "NYXT" s
            then (if text_eq t.to_address t.treasury_address && text_eq t.asset_id "NYXT"
                then amt + balance_of t.treasury_address "NYXT" w
                else if text_eq t.from_address t.treasury_address && text_eq t.asset_id "NYXT"
                then left
                else balance_of t.treasury_address "NYXT" w)
            else 0)
      ≡ supply s w
        + (if text_eq t.asset_id s then left + amt else 0)
        + (if text_eq "NYXT" s then balance_of t.treasury_address "NYXT" w + fee else 0)
supply-settled t amt fee left w base s agrees ne =
    let from = t.from_address in
    let to = t.to_address in
    let asset = t.asset_id in
    let tr = t.treasury_address in
    let x = balance_of to asset w + amt in
    let y = balance_of tr "NYXT" w + fee in
    let s₁ = put from asset left base in
    let s₂ = put to asset x s₁ in
    ground (
      arith,
      supply-put s tr "NYXT" y s₂,
      supply-put s to asset x s₁,
      supply-put s from asset left base,
      balance_of-put tr "NYXT" to asset x s₁,
      balance_of-put tr "NYXT" from asset left base,
      balance_of-put to asset from asset left base,
      agrees.0 tr "NYXT",
      agrees.0 to asset,
      agrees.0 from asset,
      agrees.1 s,
    )

-- A successful transfer of NYXT, in one step.
nyxt_settled :
    (t : Transfer) (amt fee : ℕ) (rs rs' : Accounts) (b : Balances)
    → t.asset_id ≡ "NYXT"
    → move_funds t amt fee rs ≡ (ok b, rs')
    → (w base : Accounts) × (left : ℕ) × Agrees w rs
      × Agrees base w
      × (left + (amt + fee) ≡ balance_of t.from_address "NYXT" rs)
      × (rs' ≡ settled t amt fee left w base)
nyxt_settled t amt fee rs rs' b nyxt h =
    let (w, w', left, same, covered, paid, rest) = move_funds-ok t amt fee rs rs' b h in
    let (ew, sum) = take_from_nyxt _ _ _ amt fee w w' left nyxt paid in
    let (base, agrees, e) = settle-ok t amt fee left w' rs' b rest in
    (w, base, left, same, rw (← ew) agrees, rw (← nyxt) sum, rw (← ew) e)

-- A successful transfer of NYXT was covered by the sender's balance, fee included. It writes three
-- balances in turn, the sender's, the receiver's and the treasury's, each from what was there
-- before the transfer; where two of the addresses are equal the later write stays.
pub move_funds_nyxt :
    (t : Transfer) (amt fee : ℕ) (rs rs' : Accounts) (b : Balances)
    → t.asset_id ≡ "NYXT"
    → move_funds t amt fee rs ≡ (ok b, rs')
    → (amt + fee ≤ balance_of t.from_address "NYXT" rs)
      × ((a s : String)
          → balance_of a s rs' ≡ (
              if text_eq t.treasury_address a && text_eq "NYXT" s
              then balance_of t.treasury_address "NYXT" rs + fee
              else if text_eq t.to_address a && text_eq "NYXT" s
              then balance_of t.to_address "NYXT" rs + amt
              else if text_eq t.from_address a && text_eq "NYXT" s
              then balance_of t.from_address "NYXT" rs - (amt + fee)
              else balance_of a s rs))
move_funds_nyxt t amt fee rs rs' b nyxt h =
    let (w, base, left, same, agrees, sum, e) = nyxt_settled t amt fee rs rs' b nyxt h in
    let spent : left ≡ balance_of t.from_address "NYXT" rs - (amt + fee) = omega (arith, sum) in
    (
      omega (arith, sum),
      λ a s. rw (
        e,
        settled_balances t amt fee left w base a s,
        nyxt,
        spent,
        agrees.0 a s,
        same.0 a s,
        same.0 t.treasury_address "NYXT",
        same.0 t.to_address "NYXT",
      ),
    )

-- The three addresses of a transfer of NYXT differ.
pub record AreApart (t : Transfer) : Type 0 where
  pub receiver : t.from_address ≢ t.to_address
  pub payer : t.asset_id ≡ "NYXT" → t.from_address ≢ t.treasury_address
  pub payee : t.asset_id ≡ "NYXT" → t.to_address ≢ t.treasury_address

nyxt_supply :
    (t : Transfer) (amt fee : ℕ) (rs rs' : Accounts) (b : Balances) (s : String)
    → t.asset_id ≡ "NYXT"
    → AreApart t
    → move_funds t amt fee rs ≡ (ok b, rs')
    → supply s rs' ≡ supply s rs
nyxt_supply t amt fee rs rs' b s nyxt apart h =
    let (w, base, left, same, agrees, sum, e) = nyxt_settled t amt fee rs rs' b nyxt h in
    ground (
      arith,
      e,
      sum,
      supply-settled t amt fee left w base s agrees apart.receiver,
      same.0 t.from_address "NYXT",
      same.1 s,
      apart.payer nyxt,
      apart.payee nyxt,
    )

other_supply :
    (t : Transfer) (amt fee : ℕ) (rs rs' : Accounts) (b : Balances) (s : String)
    → t.asset_id ≢ "NYXT"
    → t.from_address ≢ t.to_address
    → move_funds t amt fee rs ≡ (ok b, rs')
    → supply s rs' ≡ supply s rs
other_supply t amt fee rs rs' b s ne apart h =
    let from = t.from_address in
    let (w, w', left, same, covered, paid, rest) = move_funds-ok t amt fee rs rs' b h in
    let (lower, agrees₀, ew, sum, fits) =
      take_from_other from t.asset_id _ amt fee w w' left ne covered paid in
    let (base, agrees, e) = settle-ok t amt fee left w' rs' b rest in
    let v = balance_of from "NYXT" w - fee in
    ground (
      arith,
      e,
      ew,
      sum,
      fits,
      supply-settled t amt fee left w' base s agrees apart,
      supply-put s from "NYXT" v lower,
      balance_of-put from t.asset_id from "NYXT" v lower,
      agrees₀.0 from "NYXT",
      agrees₀.0 from t.asset_id,
      agrees₀.1 s,
      same.0 from t.asset_id,
      same.1 s,
    )

-- A successful transfer between distinct addresses conserves the supply of every asset; for an
-- asset other than NYXT the sender or the receiver may be the treasury.
pub move_funds-supply :
    (t : Transfer) (amt fee : ℕ) (rs rs' : Accounts) (b : Balances) (s : String)
    → AreApart t
    → move_funds t amt fee rs ≡ (ok b, rs')
    → supply s rs' ≡ supply s rs
move_funds-supply t amt fee rs rs' b s apart h = elim (text_discrete t.asset_id "NYXT") [
  | yes nyxt ↦ nyxt_supply t amt fee rs rs' b s nyxt apart h
  | no other ↦ other_supply t amt fee rs rs' b s other apart.receiver h
]

-- A successful transfer of NYXT to the treasury address itself destroys the amount: the last write
-- puts back what the treasury had, plus the fee alone.
pub move_funds_to_treasury :
    (t : Transfer) (amt fee : ℕ) (rs rs' : Accounts) (b : Balances)
    → t.asset_id ≡ "NYXT"
    → t.from_address ≢ t.to_address
    → t.to_address ≡ t.treasury_address
    → move_funds t amt fee rs ≡ (ok b, rs')
    → supply "NYXT" rs' + amt ≡ supply "NYXT" rs
move_funds_to_treasury t amt fee rs rs' b nyxt apart alias h =
    let (w, base, left, same, agrees, sum, e) = nyxt_settled t amt fee rs rs' b nyxt h in
    ground (
      arith,
      e,
      sum,
      supply-settled t amt fee left w base "NYXT" agrees apart,
      same.0 t.from_address "NYXT",
      same.1 "NYXT",
    )

-- A successful transfer of NYXT from the treasury address creates the amount and the fee: the last
-- write gives the treasury back what it has just spent, and the fee.
pub move_funds_from_treasury :
    (t : Transfer) (amt fee : ℕ) (rs rs' : Accounts) (b : Balances)
    → t.asset_id ≡ "NYXT"
    → t.from_address ≢ t.to_address
    → t.from_address ≡ t.treasury_address
    → move_funds t amt fee rs ≡ (ok b, rs')
    → supply "NYXT" rs' ≡ supply "NYXT" rs + amt + fee
move_funds_from_treasury t amt fee rs rs' b nyxt apart alias h =
    let (w, base, left, same, agrees, sum, e) = nyxt_settled t amt fee rs rs' b nyxt h in
    ground (
      arith,
      e,
      sum,
      supply-settled t amt fee left w base "NYXT" agrees apart,
      same.0 t.from_address "NYXT",
      same.0 t.treasury_address "NYXT",
      same.1 "NYXT",
    )
