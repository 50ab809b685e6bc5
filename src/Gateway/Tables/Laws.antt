-- ===== src/Gateway/Tables/Laws.antt =====
-- What a look-up by the key finds after an insertion or an update.
use nyx_dirty_and_develop.Base.{
  ◌≡◌, refl, ◌≢◌, List, [], ◌∷◌, ◌++◌, String, text_discrete, text_eq, none, some, arith,
  if◌then◌else◌,
}
use nyx_dirty_and_develop.Gateway.Tables.{delete, insert_or_replace, update_where, select_one}

module _ {R : Type 0} (key : R → String) where
  select_one-delete_ne :
      (k j : String) (rs : List R)
      → k ≢ j
      → select_one key j (delete key k rs) ≡ select_one key j rs
  unfolding select_one delete
  select_one-delete_ne k j [] ne = refl
  select_one-delete_ne k j (r ∷ rs) ne = ground (arith, select_one-delete_ne k j rs ne)

  select_one-delete : (k : String) (rs : List R) → select_one key k (delete key k rs) ≡ none
  unfolding select_one delete
  select_one-delete k [] = refl
  select_one-delete k (r ∷ rs) = ground (arith, select_one-delete k rs)

  select_one-append :
      (j : String) (rs : List R) (r : R)
      → select_one key j (rs ++ (r ∷ []))
        ≡ elim (select_one key j rs) [ none ↦ select_one key j (r ∷ []) | some s ↦ some s ]
  unfolding select_one
  select_one-append j [] r = ground arith
  select_one-append j (s ∷ rs) r = ground (arith, select_one-append j rs r)

  pub select_one-insert_or_replace :
      (j : String) (r : R) (rs : List R)
      → select_one key j (insert_or_replace key r rs)
        ≡ (if text_eq (key r) j then some r else select_one key j rs)
  unfolding insert_or_replace select_one
  select_one-insert_or_replace j r rs = elim (text_discrete (key r) j) [
    | yes e ↦ rw select_one-append (
        ground
          (arith, e, select_one-append j (delete key (key r) rs) r, select_one-delete (key r) rs))
    | no ne ↦
        ground (
          arith,
          select_one-append j (delete key (key r) rs) r,
          select_one-delete_ne (key r) j rs ne,
        )
  ]

  pub select_one-update_where :
      (k j : String) (f : R → R) (rs : List R)
      → ((r : R) → key (f r) ≡ key r)
      → select_one key j (update_where key k f rs) ≡ elim (select_one key j rs) [
        | none ↦ none
        | some r ↦ some (if text_eq k j then f r else r)
      ]
  unfolding update_where select_one
  select_one-update_where k j f [] same = refl
  select_one-update_where k j f (r ∷ rs) same =
      ground (arith, same r, select_one-update_where k j f rs same)
