-- ===== src/Gateway/Faucet/Counts.antt =====
-- Numbers and sums of claims in 24 hours, and what one claim more makes of them.
use nyx_dirty_and_develop.Base.{
  Bool-cases, inl, inr, ℕ, ◌+◌, ◌≤◌, ◌≡◌, ◌≢◌, ◌&&◌, Bool, true, leb, arith, String, text_eq, List,
  [], ◌∷◌, ◌++◌, ok, >>=-eq-ok, if◌then◌else◌,
}
use nyx_dirty_and_develop.Gateway.Tables.{delete, insert_or_replace}
use nyx_dirty_and_develop.Gateway.Store.{FaucetClaim}
use nyx_dirty_and_develop.Gateway.Faucet.Defs.{
  Limits, day, in_window, of_account, of_ip, count_claims, sum_claims, check_limits, check_cooldown,
  last_claim,
}
use nyx_dirty_and_develop.Gateway.Faucet.Claims.{claim_key}

-- A claim of the 24 hours up to `t`.
abbrev day_until : ℕ → FaucetClaim → Bool
day_until t r = leb t (r.created_at + day) && leb r.created_at t

count_claims-append :
    (p : FaucetClaim → Bool) (xs : List FaucetClaim) (r : FaucetClaim)
    → count_claims p (xs ++ (r ∷ [])) ≡ count_claims p xs + (if p r then 1 else 0)
unfolding count_claims
count_claims-append p [] r = omega arith
count_claims-append p (x ∷ xs) r = omega (arith, count_claims-append p xs r)

sum_claims-append :
    (p : FaucetClaim → Bool) (xs : List FaucetClaim) (r : FaucetClaim)
    → sum_claims p (xs ++ (r ∷ [])) ≡ sum_claims p xs + (if p r then r.amount else 0)
unfolding sum_claims
sum_claims-append p [] r = omega arith
sum_claims-append p (x ∷ xs) r = omega (arith, sum_claims-append p xs r)

module _ (p q : FaucetClaim → Bool) (le : (r : FaucetClaim) → p r ≡ true → q r ≡ true) where
  count_claims_mono : (xs : List FaucetClaim) → count_claims p xs ≤ count_claims q xs
  unfolding count_claims
  count_claims_mono [] = omega arith
  count_claims_mono (x ∷ xs) = ground (arith, le x, count_claims_mono xs)

  sum_claims_mono : (xs : List FaucetClaim) → sum_claims p xs ≤ sum_claims q xs
  unfolding sum_claims
  sum_claims_mono [] = omega arith
  sum_claims_mono (x ∷ xs) = ground (arith, le x, sum_claims_mono xs)

check_limits-ok :
    (limits : Limits) (now : ℕ) (account ip : String) (amount : ℕ) (xs : List FaucetClaim)
    → check_limits limits now account ip amount xs ≡ ok tt
    → (limits.max_claims ≢ 0
        → count_claims (λ r. of_account account r && in_window now r) xs + 1 ≤ limits.max_claims)
      × (limits.max_amount ≢ 0
          → sum_claims (λ r. of_account account r && in_window now r) xs + amount
            ≤ limits.max_amount)
      × (limits.ip_max_claims ≢ 0
          → count_claims (λ r. of_ip ip r && in_window now r) xs + 1 ≤ limits.ip_max_claims)
unfolding check_limits
check_limits-ok limits now account ip amount xs h =
    let (u₁, _, h₁) = >>=-eq-ok (check_cooldown limits.cooldown now (last_claim account xs)) _ h in
    ground arith

-- The claims `xs` keep to the limits: in every 24 hours, those of one account and those of one IP.
-- A limit of 0 is none.
pub record IsLimited (limits : Limits) (xs : List FaucetClaim) : Type 0 where
  pub claims :
      limits.max_claims ≢ 0
      → (account : String) (t : ℕ)
      → count_claims (λ r. of_account account r && day_until t r) xs ≤ limits.max_claims
  pub amount :
      limits.max_amount ≢ 0
      → (account : String) (t : ℕ)
      → sum_claims (λ r. of_account account r && day_until t r) xs ≤ limits.max_amount
  pub ips :
      limits.ip_max_claims ≢ 0
      → (ip : String) (t : ℕ)
      → count_claims (λ r. of_ip ip r && day_until t r) xs ≤ limits.ip_max_claims

-- What a deletion leaves counts no more.
count_claims-delete :
    (p : FaucetClaim → Bool) (k : String) (xs : List FaucetClaim)
    → count_claims p (delete claim_key k xs) ≤ count_claims p xs
unfolding count_claims delete
count_claims-delete p k [] = omega arith
count_claims-delete p k (x ∷ xs) = ground (arith, count_claims-delete p k xs)

sum_claims-delete :
    (p : FaucetClaim → Bool) (k : String) (xs : List FaucetClaim)
    → sum_claims p (delete claim_key k xs) ≤ sum_claims p xs
unfolding sum_claims delete
sum_claims-delete p k [] = omega arith
sum_claims-delete p k (x ∷ xs) = ground (arith, sum_claims-delete p k xs)

-- One claim more, in the place of those with its id: the window that ends after it lies in the day
-- before it.
count_step :
    (who : FaucetClaim → Bool) (limit t : ℕ) (xs : List FaucetClaim) (row : FaucetClaim)
    → count_claims (λ r. who r && day_until t r) xs ≤ limit
    → (who row ≡ true → count_claims (λ r. who r && in_window row.created_at r) xs + 1 ≤ limit)
    → count_claims (λ r. who r && day_until t r) (insert_or_replace claim_key row xs) ≤ limit
unfolding insert_or_replace
count_step who limit t xs row old new =
    let p : FaucetClaim → Bool = λ r. who r && day_until t r in
    let left = count_claims-delete p (claim_key row) xs in
    let more = count_claims-append p (delete claim_key (claim_key row) xs) row in
    elim (Bool-cases (p row)) [
      | inr out ↦ ground (arith, out, left, more)
      | inl inside ↦
          let le =
            count_claims_mono p (λ r. who r && in_window row.created_at r) (λ r. λ e. ground arith)
              xs in
          ground (arith, inside, le, left, more)
    ]

sum_step :
    (who : FaucetClaim → Bool) (limit t : ℕ) (xs : List FaucetClaim) (row : FaucetClaim)
    → sum_claims (λ r. who r && day_until t r) xs ≤ limit
    → (who row ≡ true
        → sum_claims (λ r. who r && in_window row.created_at r) xs + row.amount ≤ limit)
    → sum_claims (λ r. who r && day_until t r) (insert_or_replace claim_key row xs) ≤ limit
unfolding insert_or_replace
sum_step who limit t xs row old new =
    let p : FaucetClaim → Bool = λ r. who r && day_until t r in
    let left = sum_claims-delete p (claim_key row) xs in
    let more = sum_claims-append p (delete claim_key (claim_key row) xs) row in
    elim (Bool-cases (p row)) [
      | inr out ↦ ground (arith, out, left, more)
      | inl inside ↦
          let le =
            sum_claims_mono p (λ r. who r && in_window row.created_at r) (λ r. λ e. ground arith)
              xs in
          ground (arith, inside, le, left, more)
    ]

same : (s t : String) → text_eq s t ≡ true → s ≡ t
same s t h = ground arith

pub IsLimited-insert :
    (limits : Limits) (xs : List FaucetClaim) (row : FaucetClaim)
    → IsLimited limits xs
    → check_limits limits row.created_at row.account_id row.ip row.amount xs ≡ ok tt
    → IsLimited limits (insert_or_replace claim_key row xs)
IsLimited-insert limits xs row old passed =
    let (c, s, i) =
      check_limits-ok limits row.created_at row.account_id row.ip row.amount xs passed in
    record {
      claims = λ on account t.
          count_step (of_account account) limits.max_claims t xs row (old.claims on account t)
            (λ e. rw (same row.account_id account e) at (c on));
      amount = λ on account t.
          sum_step (of_account account) limits.max_amount t xs row (old.amount on account t)
            (λ e. rw (same row.account_id account e) at (s on));
      ips = λ on ip t.
          count_step (of_ip ip) limits.ip_max_claims t xs row (old.ips on ip t)
            (λ e. rw (same row.ip ip e) at (i on));
    }
