-- ===== src/Gateway/Transfers/Laws.antt =====
-- What a transfer and a grant do to the supply of each asset.
use nyx_dirty_and_develop.Base.{
  ℕ, ◌+◌, ◌≤◌, ◌≡◌, ◌≢◌, arith, String, text_eq, ok, >>=-eq-ok, raise_if, raise_if-ok,
}
use nyx_dirty_and_develop.Base.Int.{ℤ, pos, negsuc}
use nyx_dirty_and_develop.Gateway.Monad.{storage, check, follow-eq-ok}
use nyx_dirty_and_develop.Gateway.Validate.{
  validate_text, validate_wallet_address, validate_asset, validate_int,
}
use nyx_dirty_and_develop.Gateway.Wallet.{
  Transfer, TransferRow, Balances, validate_transfer, move_funds, supply,
}
use nyx_dirty_and_develop.Gateway.Wallet.Conservation.{
  AreApart, move_funds-supply, move_funds_to_treasury, move_funds_from_treasury,
}
use nyx_dirty_and_develop.Gateway.Store.{Db, on_accounts, on_accounts-ok}
use nyx_dirty_and_develop.Gateway.Tables.{insert_or_replace}
use nyx_dirty_and_develop.Gateway.Transfers.Defs.{
  transfer_key, insert_wallet_transfer, row_of, apply_wallet_transfer,
}

validate_int-ok :
    (v : ℤ) (name : String) (low n : ℕ) → validate_int v name low ≡ ok n → (v ≡ pos n) × (low ≤ n)
unfolding validate_int
validate_int-ok (pos k) name low n h = ground arith
validate_int-ok (negsuc k) name low n h = cc

pub validate_transfer-ok :
    (t : Transfer) (amt fee : ℕ)
    → validate_transfer t ≡ ok (amt, fee)
    → (t.amount ≡ pos amt) × (t.fee_total ≡ pos fee) × (t.from_address ≢ t.to_address)
unfolding validate_transfer
validate_transfer-ok t amt fee h =
    let (u₁, _, h₁) = >>=-eq-ok (validate_text t.transfer_id "transfer_id") _ h in
    let (u₂, _, h₂) = >>=-eq-ok (validate_wallet_address t.from_address "from_address") _ h₁ in
    let (u₃, _, h₃) = >>=-eq-ok (validate_wallet_address t.to_address "to_address") _ h₂ in
    let (u₄, _, h₄) =
      >>=-eq-ok (validate_wallet_address t.treasury_address "treasury_address") _ h₃ in
    let (u₅, _, h₅) = >>=-eq-ok (validate_asset t.asset_id) _ h₄ in
    let (x, e₆, h₆) = >>=-eq-ok (validate_int t.amount "amount" 0) _ h₅ in
    let (y, e₇, h₇) = >>=-eq-ok (validate_int t.fee_total "fee_total" 0) _ h₆ in
    let (u₈, e₈, h₈) =
      >>=-eq-ok
        (raise_if (text_eq t.from_address t.to_address) (storage "from_address must differ")) _
        h₇ in
    ground (
      arith,
      validate_int-ok t.amount "amount" 0 x e₆,
      validate_int-ok t.fee_total "fee_total" 0 y e₇,
      raise_if-ok _ _ u₈ e₈,
    )

insert_wallet_transfer-ok :
    (r : TransferRow) (db db' : Db) (u : Unit {0})
    → insert_wallet_transfer r db ≡ (ok u, db')
    → db' ≡ record db { transfers = insert_or_replace transfer_key r db.transfers }
unfolding insert_wallet_transfer
insert_wallet_transfer-ok r db db' u h = ground arith

-- What a successful transfer was asked, and the tables that it leaves: balances moved, one row
-- recorded, nothing else changed.
pub record IsTransferred (t : Transfer) (db db' : Db) (b : Balances) (amt fee : ℕ) : Type 0 where
  pub amount : t.amount ≡ pos amt
  pub fee_total : t.fee_total ≡ pos fee
  pub distinct : t.from_address ≢ t.to_address
  pub moved : move_funds t amt fee db.accounts ≡ (ok b, db'.accounts)
  pub recorded : db' ≡ record db {
    accounts = db'.accounts;
    transfers = insert_or_replace transfer_key (row_of t amt fee) db.transfers;
  }

pub apply_wallet_transfer-ok :
    (t : Transfer) (db db' : Db) (b : Balances)
    → apply_wallet_transfer t db ≡ (ok b, db')
    → (amt fee : ℕ) × IsTransferred t db db' b amt fee
unfolding apply_wallet_transfer
apply_wallet_transfer-ok t db db' b h =
    let ((amt, fee), d₁, e₁, h₁) = follow-eq-ok (check {S = Db} (validate_transfer t) db) _ h in
    let (x, d₂, e₂, h₂) = follow-eq-ok (on_accounts (move_funds t amt fee) d₁) _ h₁ in
    let (u, d₃, e₃, h₃) = follow-eq-ok (insert_wallet_transfer (row_of t amt fee) d₂) _ h₂ in
    let ed₃ = insert_wallet_transfer-ok (row_of t amt fee) d₂ d₃ u e₃ in
    let (ea, ef, ne) = validate_transfer-ok t amt fee (ground arith) in
    let (em, ed₂) = on_accounts-ok (move_funds t amt fee) d₁ d₂ x e₂ in
    let start : d₁ ≡ db = ground arith in
    (
      amt,
      fee,
      record {
        amount = ea;
        fee_total = ef;
        distinct = ne;
        moved = ground arith;
        recorded = ground arith;
      },
    )

-- A successful `apply_wallet_transfer` from an address that is not the treasury conserves the
-- supply of every asset, provided that NYXT does not go to the treasury; it changes only the
-- balances and the record of transfers.
pub apply_wallet_transfer-supply :
    (t : Transfer) (db db' : Db) (b : Balances) (s : String)
    → (t.asset_id ≡ "NYXT" → t.from_address ≢ t.treasury_address)
    → (t.asset_id ≡ "NYXT" → t.to_address ≢ t.treasury_address)
    → apply_wallet_transfer t db ≡ (ok b, db')
    → (supply s db'.accounts ≡ supply s db.accounts)
      × (db' ≡ record db { accounts = db'.accounts; transfers = db'.transfers })
apply_wallet_transfer-supply t db db' b s payer payee h =
    let (amt, fee, w) = apply_wallet_transfer-ok t db db' b h in
    let apart : AreApart t = record { receiver = w.distinct; payer = payer; payee = payee } in
    (
      move_funds-supply t amt fee db.accounts db'.accounts b s apart w.moved,
      ground (arith, w.recorded),
    )

-- A successful `apply_wallet_transfer` of NYXT to the treasury address destroys its amount.
pub apply_wallet_transfer_to_treasury :
    (t : Transfer) (amt : ℕ) (db db' : Db) (b : Balances)
    → t.asset_id ≡ "NYXT"
    → t.to_address ≡ t.treasury_address
    → t.amount ≡ pos amt
    → apply_wallet_transfer t db ≡ (ok b, db')
    → supply "NYXT" db'.accounts + amt ≡ supply "NYXT" db.accounts
apply_wallet_transfer_to_treasury t amt db db' b nyxt alias ea h =
    let (amt', fee, w) = apply_wallet_transfer-ok t db db' b h in
    let same : amt' ≡ amt = ground (arith, w.amount) in
    rw same at
      (move_funds_to_treasury t amt' fee db.accounts db'.accounts b nyxt w.distinct alias w.moved)

-- A successful `apply_wallet_transfer` of NYXT from the treasury address creates its amount and
-- its fee.
pub apply_wallet_transfer_from_treasury :
    (t : Transfer) (amt fee : ℕ) (db db' : Db) (b : Balances)
    → t.asset_id ≡ "NYXT"
    → t.from_address ≡ t.treasury_address
    → t.amount ≡ pos amt
    → t.fee_total ≡ pos fee
    → apply_wallet_transfer t db ≡ (ok b, db')
    → supply "NYXT" db'.accounts ≡ supply "NYXT" db.accounts + amt + fee
apply_wallet_transfer_from_treasury t amt fee db db' b nyxt alias ea ef h =
    let (amt', fee', w) = apply_wallet_transfer-ok t db db' b h in
    let same : amt' ≡ amt = ground (arith, w.amount) in
    let same' : fee' ≡ fee = ground (arith, w.fee_total) in
    rw (← same, ← same')
      (move_funds_from_treasury t amt' fee' db.accounts db'.accounts b nyxt w.distinct alias
        w.moved)
