-- ===== src/Gateway/Tables/Keys.antt =====
-- Tables whose rows have keys of their own, and the insertion of a row with a new or a used key.
use nyx_dirty_and_develop.Base.{◌≡◌, refl, sym, ap, ◌≢◌, List, [], ◌∷◌, ◌++◌, All, String, arith}
use nyx_dirty_and_develop.Gateway.Tables.{delete, insert_or_replace}

All-last :
    {A : Type 0} (P : A → Type 0) (xs : List A) (x : A) → All P (xs ++ (x ∷ [])) → All P xs × P x
All-last P [] x h = (tt, h.0)
All-last P (y ∷ xs) x h = let (hs, hx) = All-last P xs x h.1 in ((h.0, hs), hx)

module _ {R : Type 0} (key : R → String) where
  -- No two rows have the same key.
  abbrev pub HasOwnKeys : List R → Type 0
  HasOwnKeys [] = Unit
  HasOwnKeys (r ∷ rs) = All (λ s. key s ≢ key r) rs × HasOwnKeys rs

  pub HasOwnKeys-append :
      (rs : List R) (r : R)
      → HasOwnKeys (rs ++ (r ∷ []))
      → HasOwnKeys rs × All (λ s. key s ≢ key r) rs
  HasOwnKeys-append [] r h = (tt, tt)
  HasOwnKeys-append (s ∷ rs) r h =
      let (own, fresh) = HasOwnKeys-append rs r h.1 in
      let (apart, ne) = All-last (λ t. key t ≢ key s) rs r h.0 in
      ((apart, own), (λ e. ne (sym e), fresh))

  delete-fresh : (k : String) (rs : List R) → All (λ s. key s ≢ k) rs → delete key k rs ≡ rs
  unfolding delete
  delete-fresh k [] h = refl
  delete-fresh k (s ∷ rs) h = ground (arith, delete-fresh k rs h.1, h.0)

  pub insert_or_replace-fresh :
      (r : R) (rs : List R)
      → All (λ s. key s ≢ key r) rs
      → insert_or_replace key r rs ≡ rs ++ (r ∷ [])
  unfolding insert_or_replace
  insert_or_replace-fresh r rs h = ap (λ t. t ++ (r ∷ [])) (delete-fresh (key r) rs h)

  delete-used :
      (k : String) (old : R) (rs ss : List R)
      → key old ≡ k
      → All (λ s. key s ≢ k) rs
      → All (λ s. key s ≢ k) ss
      → delete key k (rs ++ (old ∷ ss)) ≡ rs ++ ss
  unfolding delete
  delete-used k old [] ss e hr hs = ground (arith, e, delete-fresh k ss hs)
  delete-used k old (r ∷ rs) ss e hr hs = ground (arith, delete-used k old rs ss e hr.1 hs, hr.0)

  -- The row with the key is removed, wherever it stands.
  pub insert_or_replace-used :
      (r old : R) (rs ss : List R)
      → key old ≡ key r
      → All (λ s. key s ≢ key r) rs
      → All (λ s. key s ≢ key r) ss
      → insert_or_replace key r (rs ++ (old ∷ ss)) ≡ rs ++ ss ++ (r ∷ [])
  unfolding insert_or_replace
  insert_or_replace-used r old rs ss e hr hs =
      ap (λ t. t ++ (r ∷ [])) (delete-used (key r) old rs ss e hr hs)
