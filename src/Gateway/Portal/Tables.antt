-- ===== src/Gateway/Portal/Tables.antt =====
-- The portal's tables, and their functions in storage.py. Every write is committed at once, and no
-- function writes twice, so the tables are a state with no transaction.
use nyx_dirty_and_develop.Base.{
  ℕ, ◌&&◌, ◌||◌, ◌==◌, Bool, true, false, ltb, length, codes, Option, none, some, String, text_eq,
  fullmatch, is_digit, is_lower, is_alnum, is_some, between, raise_if, if◌then◌else◌, List, [], ◌∷◌,
  ◌++◌,
}
use nyx_dirty_and_develop.Base.Int.{pos}
use nyx_dirty_and_develop.Gateway.Monad.{
  M, storage, integrity, pure, check, gets, modify, fail_if, ◌>>=◌, ◌>>◌,
}
use nyx_dirty_and_develop.Gateway.Validate.{
  Checked, validate_pattern, validate_wallet_address, validate_int, is_name_char,
}
use nyx_dirty_and_develop.Gateway.Wallet.{bind_integer}
use nyx_dirty_and_develop.Gateway.Tables.{delete, select_one, update_where}

pub record PortalAccount : Type 0 where
  pub account_id : String
  pub handle : String
  pub public_key : String
  pub wallet_address : String
  pub created_at : ℕ
  pub status : String
  pub bio : Option String

pub record PortalChallenge : Type 0 where
  pub account_id : String
  pub nonce : String
  pub expires_at : ℕ
  pub used : Bool

pub record PortalSession : Type 0 where
  pub token : String
  pub account_id : String
  pub expires_at : ℕ

pub record Portal : Type 0 where
  pub accounts : List PortalAccount
  pub challenges : List PortalChallenge
  pub sessions : List PortalSession

abbrev pub account_key : PortalAccount → String
account_key r = r.account_id

abbrev pub handle_key : PortalAccount → String
handle_key r = r.handle

abbrev pub wallet_key : PortalAccount → String
wallet_key r = r.wallet_address

abbrev pub session_key : PortalSession → String
session_key r = r.token

-- `[a-z0-9_-]{3,24}`
abbrev pub is_handle : String → Bool
is_handle = fullmatch (λ c. is_lower c || is_digit c || c == b'_' || c == b'-') 3 24

-- `[A-Za-z0-9+/=]{16,256}`
abbrev is_public_key : String → Bool
is_public_key = fullmatch (λ c. is_alnum c || c == b'+' || c == b'/' || c == b'=') 16 256

-- `[A-Fa-f0-9]{32,128}`
abbrev is_nonce : String → Bool
is_nonce = fullmatch (λ c. is_digit c || between b'A' b'F' c || between b'a' b'f' c) 32 128

-- `[A-Za-z0-9._=-]{24,512}`
abbrev is_token : String → Bool
is_token = fullmatch (λ c. is_name_char c || c == b'.' || c == b'=') 24 512

abbrev pub check_id : String → Checked (Unit {0})
check_id s = validate_pattern (fullmatch is_name_char 1 64) s "account_id"

abbrev pub check_handle : String → Checked (Unit {0})
check_handle s = validate_pattern is_handle s "handle"

abbrev pub check_nonce : String → Checked (Unit {0})
check_nonce s = validate_pattern is_nonce s "nonce"

abbrev pub check_token : String → Checked (Unit {0})
check_token s = validate_pattern is_token s "token"

-- `if bio is not None and len(bio) > 256`
abbrev pub long_bio : Option String → Bool
long_bio none = false
long_bio (some s) = ltb 256 (length (codes s))

-- The id, the handle and the wallet address are keys.
unfoldable pub insert_portal_account : PortalAccount → M Portal (Unit {0})
insert_portal_account r = do
  check (check_id r.account_id)
  check (check_handle r.handle)
  check (validate_pattern is_public_key r.public_key "public_key")
  check (validate_wallet_address r.wallet_address "wallet_address")
  check (validate_int (pos r.created_at) "created_at" 1)
  check (validate_pattern (fullmatch is_name_char 3 16) r.status "status")
  check (raise_if (long_bio r.bio) (storage "bio too long"))
  bind_integer r.created_at
  rows ← gets (λ t. t.accounts)
  fail_if
      (is_some (select_one account_key r.account_id rows)
        || is_some (select_one handle_key r.handle rows)
        || is_some (select_one wallet_key r.wallet_address rows))
      integrity
  modify (λ t. record t { accounts = t.accounts ++ (r ∷ []) })

unfoldable pub has_challenge : String → String → PortalChallenge → Bool
has_challenge account nonce r = text_eq r.account_id account && text_eq r.nonce nonce

-- `WHERE account_id = ? AND nonce = ?`
unfoldable pub find_challenge : String → String → List PortalChallenge → Option PortalChallenge
find_challenge account nonce [] = none
find_challenge account nonce (r ∷ rs) =
    if has_challenge account nonce r then some r else find_challenge account nonce rs

unfoldable pub insert_portal_challenge : PortalChallenge → M Portal (Unit {0})
insert_portal_challenge r = do
  check (check_id r.account_id)
  check (check_nonce r.nonce)
  check (validate_int (pos r.expires_at) "expires_at" 1)
  bind_integer r.expires_at
  rows ← gets (λ t. t.challenges)
  fail_if (is_some (find_challenge r.account_id r.nonce rows)) integrity
  modify (λ t. record t { challenges = t.challenges ++ (r ∷ []) })

-- `UPDATE portal_challenges SET used = 1 WHERE account_id = ? AND nonce = ?`
unfoldable pub set_used : String → String → List PortalChallenge → List PortalChallenge
set_used account nonce [] = []
set_used account nonce (r ∷ rs) =
    (if has_challenge account nonce r then record r { used = true } else r)
    ∷ set_used account nonce rs

unfoldable pub mark_used : String → String → Portal → Portal
mark_used account nonce t = record t { challenges = set_used account nonce t.challenges }

abbrev is_fresh : Option PortalChallenge → Bool
is_fresh none = false
is_fresh (some r) = if r.used then false else true

unfoldable pub consume_portal_challenge : String → String → M Portal (Option PortalChallenge)
consume_portal_challenge account nonce = do
  check (check_id account)
  check (check_nonce nonce)
  found ← gets (λ t. find_challenge account nonce t.challenges)
  modify (λ t. if is_fresh found then mark_used account nonce t else t)
  pure found

unfoldable pub insert_portal_session : PortalSession → M Portal (Unit {0})
insert_portal_session r = do
  check (check_token r.token)
  check (check_id r.account_id)
  check (validate_int (pos r.expires_at) "expires_at" 1)
  bind_integer r.expires_at
  rows ← gets (λ t. t.sessions)
  fail_if (is_some (select_one session_key r.token rows)) integrity
  modify (λ t. record t { sessions = t.sessions ++ (r ∷ []) })

unfoldable pub load_portal_session : String → M Portal (Option PortalSession)
load_portal_session token = do
  check (check_token token)
  gets (λ t. select_one session_key token t.sessions)

unfoldable pub delete_portal_session : String → M Portal (Unit {0})
delete_portal_session token = do
  check (check_token token)
  modify (λ t. record t { sessions = delete session_key token t.sessions })

module _ (derive_wallet_address : String → String) where
  -- A row without a wallet address gets the one that is derived from its id.
  unfoldable pub fill_wallet : Option PortalAccount → M Portal (Option PortalAccount)
  fill_wallet none = pure none
  fill_wallet (some r) =
      if text_eq r.wallet_address ""
      then (do
        let wallet = derive_wallet_address r.account_id
        rows ← gets (λ t. t.accounts)
        fail_if (is_some (select_one wallet_key wallet rows)) integrity
        modify (λ t. record t {
          accounts =
              update_where account_key r.account_id (λ q. record q { wallet_address = wallet })
                t.accounts;
        })
        pure (some (record r { wallet_address = wallet })))
      else pure (some r)

  unfoldable pub load_portal_account : String → M Portal (Option PortalAccount)
  load_portal_account id = do
    check (check_id id)
    found ← gets (λ t. select_one account_key id t.accounts)
    fill_wallet found

  unfoldable pub load_portal_account_by_handle : String → M Portal (Option PortalAccount)
  load_portal_account_by_handle handle = do
    check (check_handle handle)
    found ← gets (λ t. select_one handle_key handle t.accounts)
    fill_wallet found
