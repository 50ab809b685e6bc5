-- ===== src/Gateway/Portal/Login.antt =====
-- Logging in with the right signature.
use nyx_dirty_and_develop.Base.{
  ℕ, ◌+◌, ◌≤◌, ◌<◌, ◌≡◌, ◌≢◌, refl, true, false, arith, String, List, [], ◌∷◌, ◌++◌, ok, none, some,
}
use nyx_dirty_and_develop.Gateway.Wallet.{integer_limit}
use nyx_dirty_and_develop.Gateway.Validate.{validate_int}
use nyx_dirty_and_develop.Gateway.Tables.{select_one}
use nyx_dirty_and_develop.Gateway.Portal.Tables.{
  PortalAccount, PortalChallenge, PortalSession, Portal, account_key, session_key, check_id,
  check_nonce, check_token, find_challenge, mark_used, consume_portal_challenge,
  insert_portal_session, fill_wallet, load_portal_account, load_portal_session,
}
use nyx_dirty_and_develop.Gateway.Portal.Defs.{
  Crypto, verify_signature, check_signed, verify_challenge, require_session,
}

-- An account and a challenge of it that can be answered at `now`, with a token that is free.
pub record IsReady (t : Portal) (now ttl : ℕ) (token a n : String) (account : PortalAccount)
    (c : PortalChallenge) : Type 0 where
  pub id_ok : check_id a ≡ ok tt
  pub nonce_ok : check_nonce n ≡ ok tt
  pub token_ok : check_token token ≡ ok tt
  pub found : find_challenge a n t.challenges ≡ some c
  pub fresh : c.used ≡ false
  pub live : now ≤ c.expires_at
  pub registered : select_one account_key a t.accounts ≡ some account
  pub wallet : account.wallet_address ≢ ""
  pub free : select_one session_key token t.sessions ≡ none
  pub positive : 1 ≤ now + ttl
  pub bounded : now + ttl < integer_limit

select_one-append :
    (token : String) (rows : List PortalSession) (r : PortalSession)
    → select_one session_key token rows ≡ none
    → r.token ≡ token
    → select_one session_key token (rows ++ (r ∷ [])) ≡ some r
unfolding select_one
select_one-append token [] r h e = ground arith
select_one-append token (q ∷ rows) r h e = ground (arith, select_one-append token rows r)

module _ (k : Crypto) (t : Portal) (now ttl : ℕ) (token a n signature : String)
    (account : PortalAccount) (c : PortalChallenge) (ready : IsReady t now ttl token a n account c)
    (signed : verify_signature k account.public_key n signature ≡ true) where
  abbrev pub session : PortalSession
  session = record { token = token; account_id = a; expires_at = now + ttl }

  abbrev pub after : Portal
  after = record (mark_used a n t) { sessions = t.sessions ++ (session ∷ []) }

  consumed : consume_portal_challenge a n t ≡ (ok (some c), mark_used a n t)
  unfolding consume_portal_challenge
  consumed = ground (arith, ready.id_ok, ready.nonce_ok, ready.found, ready.fresh)

  loaded :
      load_portal_account k.derive_wallet_address a (mark_used a n t)
      ≡ (ok (some account), mark_used a n t)
  unfolding load_portal_account fill_wallet mark_used
  loaded = ground (arith, ready.id_ok, ready.registered, ready.wallet)

  checked : check_signed k now a n signature (some c) (mark_used a n t) ≡ (ok tt, mark_used a n t)
  unfolding check_signed
  checked = ground (arith, ready.fresh, ready.live, loaded, signed)

  inserted : insert_portal_session session (mark_used a n t) ≡ (ok tt, after)
  unfolding insert_portal_session validate_int mark_used
  inserted = ground (arith, ready.id_ok, ready.token_ok, ready.free, ready.positive, ready.bounded)

  verified : verify_challenge k now ttl token a n signature t ≡ (ok session, after)
  unfolding verify_challenge
  verified = rw (consumed, checked, inserted)

  -- A challenge of a registered account that is unused and has not expired, answered with the
  -- signature of its key, gives a session, if the ids and the token are well formed and the token
  -- is free: the challenge is spent, and nothing else but the sessions has changed; and until the
  -- session expires `require_session` returns it for its token, as long as the token verifies.
  pub verify_challenge_live :
      (later : ℕ)
      → later ≤ now + ttl
      → k.verify_token token later ≡ ok a
      → (verify_challenge k now ttl token a n signature t ≡ (ok session, after))
        × (require_session k later token after ≡ (ok session, after))
  unfolding require_session load_portal_session mark_used
  verify_challenge_live later le valid =
      let stored = select_one-append token t.sessions session ready.free refl in
      (verified, ground (arith, ready.token_ok, valid, stored, le))
