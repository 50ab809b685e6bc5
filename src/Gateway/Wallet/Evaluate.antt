-- ===== src/Gateway/Wallet/Evaluate.antt =====
-- What reading and writing one balance return: forwards, for valid keys, and backwards.
use nyx_dirty_and_develop.Base.{ℕ, ◌<◌, ◌≡◌, arith, String, ok}
use nyx_dirty_and_develop.Gateway.Validate.{validate_int}
use nyx_dirty_and_develop.Gateway.Wallet.Rows.{Accounts, balance_of, insert_or_ignore}
use nyx_dirty_and_develop.Gateway.Wallet.Access.{
  validate_account, integer_limit, ensure_wallet_account, get_wallet_balance, set_wallet_balance,
}
use nyx_dirty_and_develop.Gateway.Wallet.Supply.{put, balance_of-insert_or_ignore}

-- A key that passes the checks of a row.
abbrev pub IsKey : String → String → Type 0
IsKey a s = validate_account a s ≡ ok tt

pub ensure_valid :
    (a s : String) (rs : Accounts)
    → IsKey a s
    → ensure_wallet_account a s rs ≡ (ok tt, insert_or_ignore a s rs)
unfolding ensure_wallet_account
ensure_valid a s rs k = rw k

pub ensure-ok :
    (a s : String) (rs rs' : Accounts) (u : Unit {0})
    → ensure_wallet_account a s rs ≡ (ok u, rs')
    → IsKey a s × (rs' ≡ insert_or_ignore a s rs)
unfolding ensure_wallet_account
ensure-ok a s rs rs' u h = ground arith

pub get_valid :
    (a s : String) (rs : Accounts)
    → IsKey a s
    → get_wallet_balance a s rs ≡ (ok (balance_of a s rs), insert_or_ignore a s rs)
unfolding get_wallet_balance
get_valid a s rs k = ground (arith, ensure_valid a s rs k, balance_of-insert_or_ignore a s a s rs)

pub get-ok :
    (a s : String) (rs rs' : Accounts) (v : ℕ)
    → get_wallet_balance a s rs ≡ (ok v, rs')
    → IsKey a s × (v ≡ balance_of a s rs) × (rs' ≡ insert_or_ignore a s rs)
unfolding get_wallet_balance
get-ok a s rs rs' v h =
    let k : IsKey a s = ground arith in
    ground (arith, k, ensure_valid a s rs k, balance_of-insert_or_ignore a s a s rs)

pub set_valid :
    (a s : String) (v : ℕ) (rs : Accounts)
    → IsKey a s
    → v < integer_limit
    → set_wallet_balance a v s rs ≡ (ok tt, put a s v rs)
unfolding set_wallet_balance validate_int
set_valid a s v rs k b = ground (arith, ensure_valid a s rs k)

pub set-ok :
    (a s : String) (v : ℕ) (rs rs' : Accounts) (u : Unit {0})
    → set_wallet_balance a v s rs ≡ (ok u, rs')
    → IsKey a s × (v < integer_limit) × (rs' ≡ put a s v rs)
unfolding set_wallet_balance validate_int
set-ok a s v rs rs' u h =
    let k : IsKey a s = ground arith in ground (arith, k, ensure_valid a s rs k)
