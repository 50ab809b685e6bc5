-- ===== src/Gateway/Portal/Defs.antt =====
-- The functions of portal.py on accounts, challenges and sessions. SHA-256, HMAC, base64, Python's
-- classes of characters, the token of a session and the time are parameters or arguments.
use nyx_dirty_and_develop.Base
use nyx_dirty_and_develop.Base.{
  ℕ, ◌+◌, ◌&&◌, ◌||◌, ◌==◌, Bool, true, false, not, ltb, length, codes, Option, none, some, String,
  text_eq, is_some, raise_if, or_raise, if◌then◌else◌, List, [], ◌∷◌, ◌++◌, Bytes, compare_digest,
  Result, ok, err,
}
use nyx_dirty_and_develop.Gateway.Monad.{M, portal, pure, check, modify, fail_if, ◌>>=◌, ◌>>◌}
use nyx_dirty_and_develop.Gateway.Validate.{Checked}
use nyx_dirty_and_develop.Gateway.Tables.{update_where}
use nyx_dirty_and_develop.Gateway.Portal.Tables.{
  PortalAccount, PortalChallenge, PortalSession, Portal, account_key, long_bio,
  insert_portal_account, insert_portal_challenge, consume_portal_challenge, insert_portal_session,
  load_portal_session, delete_portal_session, load_portal_account, load_portal_account_by_handle,
}

abbrev all_codes : (ℕ → Bool) → List ℕ → Bool
all_codes p [] = true
all_codes p (c ∷ cs) = p c && all_codes p cs

-- What the portal takes from Python's libraries.
pub record Crypto : Type 0 where
  pub lower_or_digit : ℕ → Bool
  pub b64decode : String → Option Bytes
  pub hmac_sha256 : Bytes → String → Bytes
  pub derive_account_id : String → String → String
  pub derive_wallet_address : String → String
  pub verify_token : String → ℕ → Result String String

-- `_validate_handle`
unfoldable pub validate_handle : Crypto → String → Checked (Unit {0})
validate_handle k handle = Base.◌>>◌ (raise_if (text_eq handle "") (portal "handle required")) (
    Base.◌>>◌
      (raise_if (ltb (length (codes handle)) 3 || ltb 24 (length (codes handle)))
        (portal "handle length invalid"))
      (raise_if (not (all_codes (λ c. k.lower_or_digit c || c == b'_' || c == b'-') (codes handle)))
        (portal "handle invalid")))

-- `_validate_pubkey`
unfoldable pub validate_pubkey : Crypto → String → Checked (Unit {0})
validate_pubkey k pubkey = Base.◌>>◌ (raise_if (text_eq pubkey "") (portal "pubkey required")) (
    Base.◌>>◌ (raise_if (ltb 256 (length (codes pubkey))) (portal "pubkey too long")) (
      Base.◌>>=◌ (or_raise (k.b64decode pubkey) (portal "pubkey invalid"))
        λ raw. raise_if (ltb (length raw) 16) (portal "pubkey invalid")))

-- `_verify_signature`
unfoldable pub verify_signature : Crypto → String → String → String → Bool
verify_signature k pubkey nonce signature = elim (k.b64decode pubkey) [
  | none ↦ false
  | some key ↦ elim (k.b64decode signature) [
    | none ↦ false
    | some provided ↦ compare_digest (k.hmac_sha256 key nonce) provided
  ]
]

module _ (k : Crypto) where
  unfoldable pub create_account : ℕ → String → String → M Portal PortalAccount
  create_account now handle pubkey = do
    check (validate_handle k handle)
    check (validate_pubkey k pubkey)
    existing ← load_portal_account_by_handle k.derive_wallet_address handle
    fail_if (is_some existing) (portal "handle unavailable")
    let id = k.derive_account_id handle pubkey
    let account : PortalAccount = record {
      account_id = id;
      handle = handle;
      public_key = pubkey;
      wallet_address = k.derive_wallet_address id;
      created_at = now;
      status = "active";
      bio = none;
    }
    insert_portal_account account
    pure account

  -- The nonce is a digest of random bytes.
  unfoldable pub issue_challenge : ℕ → ℕ → String → String → M Portal PortalChallenge
  issue_challenge now ttl nonce account_id = do
    found ← load_portal_account k.derive_wallet_address account_id
    account ← check (or_raise found (portal "account not found"))
    let challenge : PortalChallenge = record {
      account_id = account.account_id;
      nonce = nonce;
      expires_at = now + ttl;
      used = false;
    }
    insert_portal_challenge challenge
    pure challenge

  -- `verify_challenge`, up to the signature
  unfoldable pub check_signed :
      ℕ → String → String → String → Option PortalChallenge → M Portal (Unit {0})
  check_signed now account_id nonce signature found = do
    challenge ← check (or_raise found (portal "challenge not found"))
    fail_if challenge.used (portal "challenge already used")
    fail_if (ltb challenge.expires_at now) (portal "challenge expired")
    loaded ← load_portal_account k.derive_wallet_address account_id
    account ← check (or_raise loaded (portal "account not found"))
    fail_if (not (verify_signature k account.public_key nonce signature))
        (portal "signature invalid")

  -- `token` is that of `auth.issue_token`.
  unfoldable pub verify_challenge :
      ℕ → ℕ → String → String → String → String → M Portal PortalSession
  verify_challenge now ttl token account_id nonce signature = do
    found ← consume_portal_challenge account_id nonce
    check_signed now account_id nonce signature found
    let session : PortalSession = record {
      token = token;
      account_id = account_id;
      expires_at = now + ttl;
    }
    insert_portal_session session
    pure session

  abbrev token_account : Result String String → Checked String
  token_account (ok a) = ok a
  token_account (err m) = err (portal m)

  unfoldable pub require_session : ℕ → String → M Portal PortalSession
  require_session now token = do
    account ← check (token_account (k.verify_token token now))
    found ← load_portal_session token
    session ← check (or_raise found (portal "session not found"))
    fail_if (not (text_eq session.account_id account)) (portal "session account mismatch")
    fail_if (ltb session.expires_at now) (portal "session expired")
    pure session

  unfoldable pub logout_session : String → M Portal (Unit {0})
  logout_session token = delete_portal_session token

  -- `new_handle` is taken by another account.
  unfoldable pub check_new_handle : PortalAccount → Option String → M Portal String
  check_new_handle account none = pure account.handle
  check_new_handle account (some handle) = do
    check (validate_handle k handle)
    if text_eq handle account.handle then pure handle else (do
      existing ← load_portal_account_by_handle k.derive_wallet_address handle
      fail_if (is_some existing) (portal "handle unavailable")
      pure handle)

  -- `bio if bio is not None else account.bio`
  abbrev pub new_bio : Option String → Option String → Option String
  new_bio none old = old
  new_bio (some b) old = some b

  unfoldable pub update_profile :
      String → Option String → Option String → M Portal (Option PortalAccount)
  update_profile account_id handle bio = do
    found ← load_portal_account k.derive_wallet_address account_id
    account ← check (or_raise found (portal "account not found"))
    new_handle ← check_new_handle account handle
    fail_if (long_bio (new_bio bio account.bio)) (portal "bio too long")
    modify (λ t. record t {
      accounts =
          update_where account_key account_id
            (λ r. record r { handle = new_handle; bio = new_bio bio account.bio }) t.accounts;
    })
    load_portal_account k.derive_wallet_address account_id

-- A request to the portal, with its time and what is drawn for it.
pub data Request : Type 0 where
  sign_up : ℕ → String → String → Request
  challenge : ℕ → ℕ → String → String → Request
  login : ℕ → ℕ → String → String → String → String → Request
  logout : String → Request
  profile : String → Option String → Option String → Request

module _ (k : Crypto) where
  unfoldable pub serve : Request → Portal → Portal
  serve (sign_up now handle pubkey) t = (create_account k now handle pubkey t).1
  serve (challenge now ttl nonce account) t = (issue_challenge k now ttl nonce account t).1
  serve (login now ttl token account nonce signature) t =
      (verify_challenge k now ttl token account nonce signature t).1
  serve (logout token) t = (logout_session k token t).1
  serve (profile account handle bio) t = (update_profile k account handle bio t).1

  unfoldable pub serve_all : List Request → Portal → Portal
  serve_all [] t = t
  serve_all (q ∷ qs) t = serve_all qs (serve q t)
