-- ===== src/Gateway/Portal/Challenges.antt =====
-- A challenge can be answered once.
use nyx_dirty_and_develop.Base.{
  ℕ, ◌+◌, ◌≤◌, ◌≡◌, ◌≢◌, refl, sym, ◌∙◌, Bool, Bool-cases, inl, inr, true, false, not, ltb, arith,
  String, text_eq, List, [], ◌∷◌, ◌++◌, ok, none, some, Option, is_some, or_raise, or_raise-ok,
  if◌then◌else◌,
}
use nyx_dirty_and_develop.Gateway.Monad.{
  Error, M, portal, pure, follow, ◌>>◌, follow-check, follow-eq-ok, fail_if, fail_if-ok,
}
use nyx_dirty_and_develop.Gateway.Keeps.{Keeps, follow-Keeps, check-Keeps}
use nyx_dirty_and_develop.Gateway.Tables.{select_one}
use nyx_dirty_and_develop.Gateway.Portal.Tables
use nyx_dirty_and_develop.Gateway.Portal.Tables.{
  PortalAccount, PortalChallenge, PortalSession, Portal, account_key, session_key, check_id,
  check_nonce, has_challenge, find_challenge, set_used, mark_used, insert_portal_account,
  insert_portal_challenge, consume_portal_challenge, insert_portal_session, delete_portal_session,
  fill_wallet, load_portal_account, load_portal_account_by_handle,
}
use nyx_dirty_and_develop.Gateway.Portal.Defs.{
  Crypto, validate_handle, validate_pubkey, verify_signature, create_account, issue_challenge,
  check_signed, verify_challenge, logout_session, check_new_handle, new_bio, update_profile,
  Request, sign_up, challenge, login, logout, profile, serve, serve_all,
}

find_challenge-append :
    (a n : String) (rs : List PortalChallenge) (r : PortalChallenge)
    → find_challenge a n (rs ++ (r ∷ []))
      ≡ elim (find_challenge a n rs) [ none ↦ find_challenge a n (r ∷ []) | some s ↦ some s ]
unfolding find_challenge
find_challenge-append a n [] r = ground arith
find_challenge-append a n (x ∷ rs) r = ground (arith, find_challenge-append a n rs r)

find_challenge-set_used :
    (a n b m : String) (rs : List PortalChallenge)
    → find_challenge a n (set_used b m rs) ≡ elim (find_challenge a n rs) [
      | none ↦ none
      | some r ↦ some (if has_challenge b m r then record r { used = true } else r)
    ]
unfolding find_challenge set_used has_challenge
find_challenge-set_used a n b m [] = refl
find_challenge-set_used a n b m (r ∷ rs) = ground (arith, find_challenge-set_used a n b m rs)

find_challenge-has :
    (a n : String) (rs : List PortalChallenge) (c : PortalChallenge)
    → find_challenge a n rs ≡ some c
    → has_challenge a n c ≡ true
unfolding find_challenge
find_challenge-has a n [] c h = ground arith
find_challenge-has a n (r ∷ rs) c h = ground (arith, find_challenge-has a n rs c)

-- The session of a challenge that has been answered
abbrev session_of : String → String → ℕ → PortalSession
session_of token account until = record { token = token; account_id = account; expires_at = until }

abbrev opened : String → String → ℕ → M Portal PortalSession
opened token account until = do
  insert_portal_session (session_of token account until)
  pure (session_of token account until)

module _ (a n : String) (c : PortalChallenge) where
  -- The challenge is in the table, as `c`.
  abbrev Stored : Portal → Type 0
  Stored t = find_challenge a n t.challenges ≡ some c

  fail-Keeps : (b : Bool) (e : Error) → Keeps Stored (fail_if b e)
  fail-Keeps true e t h = h
  fail-Keeps false e t h = h

  insert_account-Keeps : (r : PortalAccount) → Keeps Stored (insert_portal_account r)
  unfolding insert_portal_account
  insert_account-Keeps r t h = ground arith

  fill-Keeps : (f : String → String) (o : Option PortalAccount) → Keeps Stored (fill_wallet f o)
  unfolding fill_wallet
  fill-Keeps f none t h = h
  fill-Keeps f (some r) t h = ground arith

  load-Keeps : (f : String → String) (id : String) → Keeps Stored (load_portal_account f id)
  unfolding load_portal_account
  load-Keeps f id t h =
      check-Keeps Stored (check_id id) t _ h
        λ _. fill-Keeps f (select_one account_key id t.accounts) t h

  load_handle-Keeps :
      (f : String → String) (s : String) → Keeps Stored (load_portal_account_by_handle f s)
  unfolding load_portal_account_by_handle
  load_handle-Keeps f s t h =
      check-Keeps Stored (Tables.check_handle s) t _ h
        λ _. fill-Keeps f (select_one Tables.handle_key s t.accounts) t h

  insert_challenge-Keeps : (r : PortalChallenge) → Keeps Stored (insert_portal_challenge r)
  unfolding insert_portal_challenge
  insert_challenge-Keeps r t h = ground (arith, find_challenge-append a n t.challenges r)

  insert_session-Keeps : (r : PortalSession) → Keeps Stored (insert_portal_session r)
  unfolding insert_portal_session
  insert_session-Keeps r t h = ground arith

  -- A challenge that is used stays so when any challenge is consumed.
  consume-Keeps : (b m : String) → c.used ≡ true → Keeps Stored (consume_portal_challenge b m)
  unfolding consume_portal_challenge mark_used
  consume-Keeps b m used t h = ground (arith, find_challenge-set_used a n b m t.challenges)

  module _ (k : Crypto) where
    create-Keeps : (now : ℕ) (s p : String) → Keeps Stored (create_account k now s p)
    unfolding create_account
    create-Keeps now s p t h = check-Keeps Stored (validate_handle k s) t _ h λ _.
        check-Keeps Stored (validate_pubkey k p) t _ h λ _.
          follow-Keeps Stored (load_portal_account_by_handle k.derive_wallet_address s t) _
            (load_handle-Keeps k.derive_wallet_address s t h)
            λ o t₁ h₁.
              follow-Keeps Stored (fail_if (is_some o) (portal "handle unavailable") t₁) _
                (fail-Keeps (is_some o) _ t₁ h₁)
                λ _ t₂ h₂.
                  let id = k.derive_account_id s p in
                  let r : PortalAccount = record {
                    account_id = id;
                    handle = s;
                    public_key = p;
                    wallet_address = k.derive_wallet_address id;
                    created_at = now;
                    status = "active";
                    bio = none;
                  } in
                  follow-Keeps Stored (insert_portal_account r t₂) _ (insert_account-Keeps r t₂ h₂)
                    λ _ t₃ h₃. h₃

    issue-Keeps : (now ttl : ℕ) (m b : String) → Keeps Stored (issue_challenge k now ttl m b)
    unfolding issue_challenge
    issue-Keeps now ttl m b t h =
        follow-Keeps Stored (load_portal_account k.derive_wallet_address b t) _
          (load-Keeps k.derive_wallet_address b t h)
          λ o t₁ h₁. check-Keeps Stored (or_raise o (portal "account not found")) t₁ _ h₁ λ account.
            let r : PortalChallenge = record {
              account_id = account.account_id;
              nonce = m;
              expires_at = now + ttl;
              used = false;
            } in
            follow-Keeps Stored (insert_portal_challenge r t₁) _ (insert_challenge-Keeps r t₁ h₁)
              λ _ t₂ h₂. h₂

    signed-Keeps :
        (now : ℕ) (b m s : String) (o : Option PortalChallenge)
        → Keeps Stored (check_signed k now b m s o)
    unfolding check_signed
    signed-Keeps now b m s o t h =
        check-Keeps Stored (or_raise o (portal "challenge not found")) t _ h λ r.
          follow-Keeps Stored (fail_if r.used (portal "challenge already used") t) _
            (fail-Keeps r.used _ t h)
            λ _ t₁ h₁.
              follow-Keeps Stored (fail_if (ltb r.expires_at now) (portal "challenge expired") t₁) _
                (fail-Keeps _ _ t₁ h₁)
                λ _ t₂ h₂.
                  follow-Keeps Stored (load_portal_account k.derive_wallet_address b t₂) _
                    (load-Keeps k.derive_wallet_address b t₂ h₂)
                    λ l t₃ h₃.
                      check-Keeps Stored (or_raise l (portal "account not found")) t₃ _ h₃
                        λ account.
                          fail-Keeps (not (verify_signature k account.public_key m s)) _ t₃ h₃

    answer-Keeps :
        (now ttl : ℕ) (token b m s : String) (o : Option PortalChallenge) (t : Portal)
        → Stored t
        → Stored (follow (check_signed k now b m s o t) λ _. opened token b (now + ttl)).1
    answer-Keeps now ttl token b m s o t h =
        follow-Keeps Stored (check_signed k now b m s o t) _ (signed-Keeps now b m s o t h)
          λ _ t₁ h₁.
            let r = session_of token b (now + ttl) in
            follow-Keeps Stored (insert_portal_session r t₁) _ (insert_session-Keeps r t₁ h₁)
              λ _ t₂ h₂. h₂

    verify-Keeps :
        (now ttl : ℕ) (token b m s : String)
        → c.used ≡ true
        → Keeps Stored (verify_challenge k now ttl token b m s)
    unfolding verify_challenge
    verify-Keeps now ttl token b m s used t h =
        follow-Keeps Stored (consume_portal_challenge b m t) _ (consume-Keeps b m used t h)
          λ o t₁ h₁. answer-Keeps now ttl token b m s o t₁ h₁

    handle-Keeps :
        (account : PortalAccount) (o : Option String) → Keeps Stored (check_new_handle k account o)
    unfolding check_new_handle
    handle-Keeps account none t h = h
    handle-Keeps account (some s) t h = check-Keeps Stored (validate_handle k s) t _ h λ _.
        elim (Bool-cases (text_eq s account.handle)) [
          | inl e ↦ ground (arith, e)
          | inr e ↦ rw e (
              follow-Keeps Stored (load_portal_account_by_handle k.derive_wallet_address s t) _
                (load_handle-Keeps k.derive_wallet_address s t h)
                λ o t₁ h₁.
                  follow-Keeps Stored (fail_if (is_some o) (portal "handle unavailable") t₁) _
                    (fail-Keeps (is_some o) _ t₁ h₁) λ _ t₂ h₂. h₂)
        ]

    profile-Keeps : (b : String) (s bio : Option String) → Keeps Stored (update_profile k b s bio)
    unfolding update_profile
    profile-Keeps b s bio t h =
        follow-Keeps Stored (load_portal_account k.derive_wallet_address b t) _
          (load-Keeps k.derive_wallet_address b t h)
          λ o t₁ h₁. check-Keeps Stored (or_raise o (portal "account not found")) t₁ _ h₁ λ account.
            follow-Keeps Stored (check_new_handle k account s t₁) _ (handle-Keeps account s t₁ h₁)
              λ new t₂ h₂.
                follow-Keeps Stored
                  (fail_if (Tables.long_bio (new_bio k bio account.bio)) (portal "bio too long") t₂)
                  _ (fail-Keeps _ _ t₂ h₂) λ _ t₃ h₃. load-Keeps k.derive_wallet_address b _ h₃

    serve-Keeps : c.used ≡ true → (q : Request) (t : Portal) → Stored t → Stored (serve k q t)
    unfolding serve logout_session delete_portal_session
    serve-Keeps used (sign_up now s p) t h = create-Keeps now s p t h
    serve-Keeps used (challenge now ttl m b) t h = issue-Keeps now ttl m b t h
    serve-Keeps used (login now ttl token b m s) t h = verify-Keeps now ttl token b m s used t h
    serve-Keeps used (logout token) t h = ground arith
    serve-Keeps used (profile b s bio) t h = profile-Keeps b s bio t h

    serve_all-Keeps :
        c.used ≡ true → (qs : List Request) (t : Portal) → Stored t → Stored (serve_all k qs t)
    unfolding serve_all
    serve_all-Keeps used [] t h = h
    serve_all-Keeps used (q ∷ qs) t h = serve_all-Keeps used qs _ (serve-Keeps used q t h)

-- The row that consuming a challenge leaves.
abbrev spent : PortalChallenge → PortalChallenge
spent c = record c { used = true }

consume-spends :
    (a n : String) (c : PortalChallenge) (t : Portal)
    → check_id a ≡ ok tt
    → check_nonce n ≡ ok tt
    → find_challenge a n t.challenges ≡ some c
    → (consume_portal_challenge a n t).0 ≡ ok (some c)
      × Stored a n (spent c) (consume_portal_challenge a n t).1
unfolding consume_portal_challenge mark_used
consume-spends a n c t ha hn h = ground (
  arith,
  ha,
  hn,
  h,
  find_challenge-set_used a n a n t.challenges,
  find_challenge-has a n t.challenges c h,
)

consume-ok :
    (a n : String) (t t' : Portal) (o : Option PortalChallenge)
    → consume_portal_challenge a n t ≡ (ok o, t')
    → (check_id a ≡ ok tt) × (check_nonce n ≡ ok tt) × (o ≡ find_challenge a n t.challenges)
unfolding consume_portal_challenge
consume-ok a n t t' o h = ground arith

module _ (k : Crypto) where
  -- An attempt, of any outcome, spends the challenge that it finds.
  verify-spends :
      (now ttl : ℕ) (token a n s : String) (c : PortalChallenge) (t : Portal)
      → check_id a ≡ ok tt
      → check_nonce n ≡ ok tt
      → find_challenge a n t.challenges ≡ some c
      → Stored a n (spent c) (verify_challenge k now ttl token a n s t).1
  unfolding verify_challenge
  verify-spends now ttl token a n s c t ha hn h =
      let (_, stored) = consume-spends a n c t ha hn h in
      follow-Keeps (Stored a n (spent c)) (consume_portal_challenge a n t) _ stored
        λ o t₁ h₁. answer-Keeps a n (spent c) k now ttl token a n s o t₁ h₁

  check_signed-ok :
      (now : ℕ) (a n s : String) (o : Option PortalChallenge) (t t' : Portal) (u : Unit {0})
      → check_signed k now a n s o t ≡ (ok u, t')
      → (c : PortalChallenge) × (o ≡ some c) × (c.used ≡ false) × (now ≤ c.expires_at)
  unfolding check_signed
  check_signed-ok now a n s o t t' u h =
      let (c, e₁, h₁) = follow-check (or_raise o (portal "challenge not found")) t _ h in
      let (u₂, t₂, e₂, h₂) =
        follow-eq-ok (fail_if c.used (portal "challenge already used") t) _ h₁ in
      let (u₃, t₃, e₃, h₃) =
        follow-eq-ok (fail_if (ltb c.expires_at now) (portal "challenge expired") t₂) _ h₂ in
      let (fresh, _) = fail_if-ok c.used (portal "challenge already used") t e₂ in
      let (live, _) = fail_if-ok (ltb c.expires_at now) (portal "challenge expired") t₂ e₃ in
      (c, or_raise-ok o _ c e₁, fresh, ground arith)

  -- What a log-in that returns has found.
  verify_challenge-ok :
      (now ttl : ℕ) (token a n s : String) (t t' : Portal) (session : PortalSession)
      → verify_challenge k now ttl token a n s t ≡ (ok session, t')
      → (check_id a ≡ ok tt)
        × (check_nonce n ≡ ok tt)
        × ((c : PortalChallenge) × (find_challenge a n t.challenges ≡ some c)
            × (c.used ≡ false)
            × (now ≤ c.expires_at))
  unfolding verify_challenge
  verify_challenge-ok now ttl token a n s t t' session h =
      let (o, t₁, e₁, h₁) = follow-eq-ok (consume_portal_challenge a n t) _ h in
      let (ha, hn, eo) = consume-ok a n t t₁ o e₁ in
      let (u, t₂, e₂, h₂) = follow-eq-ok (check_signed k now a n s o t₁) _ h₁ in
      let (c, ec, fresh, live) = check_signed-ok now a n s o t₁ t₂ u e₂ in
      (ha, hn, (c, sym eo ∙ ec, fresh, live))

  -- A challenge that an attempt to log in has found, whatever came of the attempt, gives no session
  -- to any later one, after any requests to the portal.
  pub verify_challenge_once :
      (now ttl now' ttl' : ℕ) (token token' a n s s' : String) (c : PortalChallenge)
      (qs : List Request) (t t' : Portal) (session : PortalSession)
      → find_challenge a n t.challenges ≡ some c
      → verify_challenge k now' ttl' token' a n s'
          (serve_all k qs (verify_challenge k now ttl token a n s t).1)
        ≢ (ok session, t')
  verify_challenge_once now ttl now' ttl' token token' a n s s' c qs t t' session found h =
      let after = (verify_challenge k now ttl token a n s t).1 in
      let (ha, hn, (d, again, fresh, _)) =
        verify_challenge-ok now' ttl' token' a n s' (serve_all k qs after) t' session h in
      let kept =
        serve_all-Keeps a n (spent c) k refl qs after
          (verify-spends now ttl token a n s c t ha hn found) in
      ground (arith, kept, again, fresh)
