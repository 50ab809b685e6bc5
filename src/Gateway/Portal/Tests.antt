-- ===== src/Gateway/Portal/Tests.antt =====
-- The theorems on the portal at a concrete account and challenge.
use nyx_dirty_and_develop.Base.{
  ◌≡◌, ◌≢◌, refl, arith, true, false, [], ◌∷◌, String, text_ne, text_discrete, fullmatch,
  compare_digest, is_digit, is_lower, ◌||◌, none, some, ok, List,
}
use nyx_dirty_and_develop.Gateway.Tables.{select_one}
use nyx_dirty_and_develop.Gateway.Portal.Tables.{
  PortalAccount, PortalChallenge, Portal, has_challenge, find_challenge,
}
use nyx_dirty_and_develop.Gateway.Portal.Defs.{
  Crypto, verify_signature, verify_challenge, require_session, Request, logout, challenge,
  serve_all,
}
use nyx_dirty_and_develop.Gateway.Portal.Login.{IsReady, session, after, verify_challenge_live}
use nyx_dirty_and_develop.Gateway.Portal.Challenges.{verify_challenge_once}

-- Stand-ins for the libraries: every text decodes to the same bytes, and every token is Bob's.
abbrev toy : Crypto
toy = record {
  lower_or_digit = λ c. is_lower c || is_digit c;
  b64decode = λ s. some (1 ∷ 2 ∷ []);
  hmac_sha256 = λ key nonce. key;
  derive_account_id = λ handle pubkey. "acct-1";
  derive_wallet_address = λ id. "wallet-1";
  verify_token = λ token now. ok "acct-bob";
}

abbrev bob : PortalAccount
bob = record {
  account_id = "acct-bob";
  handle = "bob";
  public_key = "AAAAAAAAAAAAAAAAAAAAAA==";
  wallet_address = "wallet-bob";
  created_at = 1;
  status = "active";
  bio = none;
}

abbrev nonce : String
nonce = "0123456789abcdef0123456789abcdef"

abbrev token : String
token = "header.payload.signature"

abbrev asked : PortalChallenge
asked = record { account_id = "acct-bob"; nonce = nonce; expires_at = 100; used = false }

abbrev portal : Portal
portal = record { accounts = bob ∷ []; challenges = asked ∷ []; sessions = [] }

found : find_challenge "acct-bob" nonce portal.challenges ≡ some asked
unfolding find_challenge has_challenge text_discrete
found = refl

has_wallet : ◌≢◌ {A = String} "wallet-bob" ""
unfolding text_discrete
has_wallet = text_ne _ _ refl

ready : IsReady portal 50 1000 token "acct-bob" nonce bob asked
unfolding select_one text_discrete fullmatch
ready = record {
  id_ok = refl;
  nonce_ok = refl;
  token_ok = refl;
  found = found;
  fresh = refl;
  live = omega arith;
  registered = refl;
  wallet = has_wallet;
  free = refl;
  positive = omega arith;
  bounded = omega arith;
}

signed : verify_signature toy bob.public_key nonce "AQI=" ≡ true
unfolding verify_signature compare_digest
signed = refl

verify_challenge_live_example :
    (verify_challenge toy 50 1000 token "acct-bob" nonce "AQI=" portal ≡ (
      ok (session toy portal 50 1000 token "acct-bob" nonce "AQI=" bob asked ready signed),
      after toy portal 50 1000 token "acct-bob" nonce "AQI=" bob asked ready signed,
    ))
    × (require_session toy 900 token
          (after toy portal 50 1000 token "acct-bob" nonce "AQI=" bob asked ready signed)
        ≡ (
          ok (session toy portal 50 1000 token "acct-bob" nonce "AQI=" bob asked ready signed),
          after toy portal 50 1000 token "acct-bob" nonce "AQI=" bob asked ready signed,
        ))
verify_challenge_live_example =
    verify_challenge_live toy portal 50 1000 token "acct-bob" nonce "AQI=" bob asked ready signed
      900 (omega arith) refl

abbrev requests : List Request
requests = logout token ∷ challenge 60 50 nonce "acct-bob" ∷ []

verify_challenge_once_example :
    verify_challenge toy 70 1000 "other.payload.signature" "acct-bob" nonce "AQI="
      (serve_all toy requests (verify_challenge toy 50 1000 token "acct-bob" nonce "AQI=" portal).1)
    ≢ (ok (record { token = token; account_id = "acct-bob"; expires_at = 1070 }), portal)
verify_challenge_once_example =
    verify_challenge_once toy 50 1000 70 1000 token "other.payload.signature" "acct-bob" nonce
      "AQI=" "AQI=" asked requests portal portal
      (record { token = token; account_id = "acct-bob"; expires_at = 1070 }) found
