-- ===== src/Private/Spends.antt =====
-- No value is minted or spent twice.
use nyx_dirty_and_develop.Base.{
  ◌≡◌, refl, ap, ◌∙◌, false, ◌||◌, arith, List, [], ◌∷◌, ◌++◌, ok, >>=-eq-ok, compare_digest, Bytes,
}
use nyx_dirty_and_develop.Private.Ledger.{
  LedgerState, LedgerAction, private_mint, private_spend, LedgerTraceEntry, ensure_bytes32, is_in,
  apply_action, recompute_root, run_actions,
}

-- The values of the mints and of the spends among some actions, in order.
abbrev pub mints : List LedgerAction → List Bytes
mints [] = []
mints (private_mint c ∷ rest) = c ∷ mints rest
mints (private_spend n ∷ rest) = mints rest

abbrev pub spends : List LedgerAction → List Bytes
spends [] = []
spends (private_mint c ∷ rest) = spends rest
spends (private_spend n ∷ rest) = n ∷ spends rest

-- No value twice.
abbrev pub IsDistinct : List Bytes → Type 0
IsDistinct [] = Unit
IsDistinct (x ∷ xs) = (is_in x xs ≡ false) × IsDistinct xs

compare_digest_comm : (xs ys : Bytes) → compare_digest xs ys ≡ compare_digest ys xs
unfolding compare_digest
compare_digest_comm [] [] = refl
compare_digest_comm (x ∷ xs) [] = refl
compare_digest_comm [] (y ∷ ys) = refl
compare_digest_comm (x ∷ xs) (y ∷ ys) = ground (arith, compare_digest_comm xs ys)

is_in-append :
    (v x : Bytes) (xs : List Bytes) → is_in v (xs ++ (x ∷ [])) ≡ (is_in v xs || compare_digest x v)
unfolding is_in
is_in-append v x [] = ground arith
is_in-append v x (y ∷ ys) = ground (arith, is_in-append v x ys)

IsDistinct-append :
    (x : Bytes) (xs : List Bytes) → IsDistinct xs → is_in x xs ≡ false → IsDistinct (xs ++ (x ∷ []))
unfolding is_in
IsDistinct-append x [] h new = (refl, tt)
IsDistinct-append x (y ∷ ys) (h₁, h₂) new = (
  ground (arith, is_in-append y x ys, compare_digest_comm x y, h₁, new),
  IsDistinct-append x ys h₂ (ground (arith, new)),
)

append_assoc :
    (xs : List Bytes) (y : Bytes) (ys : List Bytes) → (xs ++ (y ∷ [])) ++ ys ≡ xs ++ (y ∷ ys)
append_assoc [] y ys = refl
append_assoc (x ∷ xs) y ys = ap (λ zs. x ∷ zs) (append_assoc xs y ys)

-- What a run adds to a state: its mints and its spends, all of them new.
pub record IsExtended (s final : LedgerState) (actions : List LedgerAction) : Type 0 where
  pub commitments : final.commitments ≡ s.commitments ++ mints actions
  pub nullifiers : final.nullifiers ≡ s.nullifiers ++ spends actions
  pub distinct_commitments : IsDistinct final.commitments
  pub distinct_nullifiers : IsDistinct final.nullifiers

nothing_added : (xs : List Bytes) → xs ≡ xs ++ []
nothing_added [] = refl
nothing_added (x ∷ xs) = ap (λ ys. x ∷ ys) (nothing_added xs)

mint-ok :
    (s next : LedgerState) (c : Bytes)
    → apply_action s (private_mint c) ≡ ok next
    → (is_in c s.commitments ≡ false)
      × (next ≡ record s { commitments = s.commitments ++ (c ∷ []) })
unfolding apply_action ensure_bytes32
mint-ok s next c h = ground arith

spend-ok :
    (s next : LedgerState) (n : Bytes)
    → apply_action s (private_spend n) ≡ ok next
    → (is_in n s.nullifiers ≡ false) × (next ≡ record s { nullifiers = s.nullifiers ++ (n ∷ []) })
unfolding apply_action ensure_bytes32
spend-ok s next n h = ground arith

step-IsDistinct :
    (s next : LedgerState) (action : LedgerAction)
    → IsDistinct s.commitments
    → IsDistinct s.nullifiers
    → apply_action s action ≡ ok next
    → IsDistinct next.commitments × IsDistinct next.nullifiers
step-IsDistinct s next (private_mint c) dc dn h =
    let (new, e) = mint-ok s next c h in rw e (IsDistinct-append c s.commitments dc new, dn)
step-IsDistinct s next (private_spend n) dc dn h =
    let (new, e) = spend-ok s next n h in rw e (dc, IsDistinct-append n s.nullifiers dn new)

step-IsExtended :
    (s next final : LedgerState) (action : LedgerAction) (actions : List LedgerAction)
    → apply_action s action ≡ ok next
    → IsExtended next final actions
    → IsExtended s final (action ∷ actions)
step-IsExtended s next final (private_mint c) actions h w =
    let (_, e) = mint-ok s next c h in
    record {
      commitments = w.commitments ∙ rw e (append_assoc s.commitments c (mints actions));
      nullifiers = w.nullifiers ∙ rw e refl;
      distinct_commitments = w.distinct_commitments;
      distinct_nullifiers = w.distinct_nullifiers;
    }
step-IsExtended s next final (private_spend n) actions h w =
    let (_, e) = spend-ok s next n h in
    record {
      commitments = w.commitments ∙ rw e refl;
      nullifiers = w.nullifiers ∙ rw e (append_assoc s.nullifiers n (spends actions));
      distinct_commitments = w.distinct_commitments;
      distinct_nullifiers = w.distinct_nullifiers;
    }

module _ (sha256 : Bytes → Bytes) where
  -- A run that returns, from a state whose values are distinct, adds exactly the values that its
  -- actions mint and spend, in their order, and all values are distinct in the end: nothing is
  -- minted or spent twice.
  pub run_actions-IsExtended :
      (s final : LedgerState) (actions : List LedgerAction) (entries : List LedgerTraceEntry)
      → IsDistinct s.commitments
      → IsDistinct s.nullifiers
      → run_actions sha256 s actions ≡ ok (final, entries)
      → IsExtended s final actions
  unfolding run_actions
  run_actions-IsExtended s final [] entries dc dn h =
      let e : s ≡ final = ground arith in
      rw (← e) (record {
        commitments = nothing_added s.commitments;
        nullifiers = nothing_added s.nullifiers;
        distinct_commitments = dc;
        distinct_nullifiers = dn;
      })
  run_actions-IsExtended s final (action ∷ actions) entries dc dn h =
      let (next, e₁, h₁) = >>=-eq-ok (apply_action s action) _ h in
      let (root, e₂, h₂) = >>=-eq-ok (recompute_root sha256 next) _ h₁ in
      let (after, e₃, h₃) = >>=-eq-ok (ensure_bytes32 root "after_root must be 32 bytes") _ h₂ in
      let ((fin, rest), e₄, h₄) = >>=-eq-ok (run_actions sha256 next actions) _ h₃ in
      let same : fin ≡ final = ground arith in
      let (dc', dn') = step-IsDistinct s next action dc dn e₁ in
      let w = run_actions-IsExtended next fin actions rest dc' dn' e₄ in
      rw (← same) (step-IsExtended s next fin action actions e₁ w)
