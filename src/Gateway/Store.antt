-- ===== src/Gateway/Store.antt =====
-- The database of the gateway, and the connection to it. sqlite3 opens a transaction at the first
-- write: `working` is what the connection sees, `committed` what `rollback` goes back to.
mod Rows
pub use Rows.*
use nyx_dirty_and_develop.Base.{◌≡◌, List, [], Result, ok, err, arith}
use nyx_dirty_and_develop.Gateway.Monad.{Error, M, follow, ◌>>=◌, ◌>>◌, pure}
use nyx_dirty_and_develop.Gateway.Wallet.{Accounts, TransferRow}

pub record Db : Type 0 where
  pub accounts : Accounts
  pub transfers : List TransferRow
  pub orders : List OrderRow
  pub trades : List Trade
  pub fees : List FeeLedger
  pub listings : List Listing
  pub purchases : List Purchase
  pub faucet_claims : List FaucetClaim
  pub airdrop_claims : List AirdropClaim
  pub messages : List MessageEvent
  pub evidence_runs : List EvidenceRun
  pub receipts : List Receipt

abbrev pub empty_db : Db
empty_db = record {
  accounts = [];
  transfers = [];
  orders = [];
  trades = [];
  fees = [];
  listings = [];
  purchases = [];
  faucet_claims = [];
  airdrop_claims = [];
  messages = [];
  evidence_runs = [];
  receipts = [];
}

pub record Conn : Type 0 where
  pub committed : Db
  pub working : Db

-- A call on the balances alone.
abbrev pub on_accounts : {A : Type 0} → M Accounts A → M Db A
on_accounts m db = let (r, accounts) = m db.accounts in (r, record db { accounts = accounts })

-- A call on the tables, with no commit.
abbrev pub on_working : {A : Type 0} → M Db A → M Conn A
on_working m c = let (r, db) = m c.working in (r, record c { working = db })

abbrev pub commit : M Conn (Unit {0})
commit c = (ok tt, record c { committed = c.working })

-- A request: it opens a connection, and closes it at the end; what was not committed is lost.
abbrev pub request : {A : Type 0} → M Conn A → M Db A
request m db = let (r, c) = m (record { committed = db; working = db }) in (r, c.committed)

-- `except Exception: conn.rollback(); raise`
abbrev pub or_rollback : {A : Type 0} → Result Error A × Conn → Result Error A × Conn
or_rollback (ok a, c) = (ok a, c)
or_rollback (err e, c) = (err e, record c { working = c.committed })

-- `commit=True`
abbrev pub committing : {A : Type 0} → M Db A → M Conn A
committing m = do r ← on_working m; commit; pure r

pub on_accounts-ok :
    {A : Type 0} (m : M Accounts A) (db db' : Db) (a : A)
    → on_accounts m db ≡ (ok a, db')
    → (m db.accounts ≡ (ok a, db'.accounts)) × (db' ≡ record db { accounts = db'.accounts })
on_accounts-ok m db db' a h = ground arith

pub on_working-ok :
    {A : Type 0} (m : M Db A) (c c' : Conn) (a : A)
    → on_working m c ≡ (ok a, c')
    → (m c.working ≡ (ok a, c'.working)) × (c' ≡ record c { working = c'.working })
on_working-ok m c c' a h = ground arith

-- A committed call either returns, and what it wrote is committed, or raises, and nothing is.
pub committing_atomic :
    {A : Type 0} (m : M Db A) (c c' : Conn) (r : Result Error A)
    → committing m c ≡ (r, c')
    → (r ≡ (m c.working).0)
      × (c'.working ≡ (m c.working).1)
      × (c'.committed ≡ elim r [ ok _ ↦ (m c.working).1 | err _ ↦ c.committed ])
committing_atomic m c c' r h = ground arith

pub or_rollback-ok :
    {A : Type 0} (p : Result Error A × Conn) (a : A) (c : Conn)
    → or_rollback p ≡ (ok a, c)
    → p ≡ (ok a, c)
or_rollback-ok (ok b, d) a c h = h
or_rollback-ok (err e, d) a c h = ground arith

pub request-ok :
    {A : Type 0} (m : M Conn A) (db db' : Db) (a : A)
    → request m db ≡ (ok a, db')
    → (c : Conn) × (m (record { committed = db; working = db }) ≡ (ok a, c)) × (db' ≡ c.committed)
request-ok m db db' a h =
    let c = (m (record { committed = db; working = db })).1 in (c, ground arith, ground arith)
