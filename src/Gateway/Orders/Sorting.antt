-- ===== src/Gateway/Orders/Sorting.antt =====
-- Sorting by a Boolean order, for `ORDER BY`.
use nyx_dirty_and_develop.Base.{Bool, List, [], ◌∷◌, if◌then◌else◌}

module _ {A : Type 0} (before : A → A → Bool) where
  unfoldable pub insert : A → List A → List A
  insert x [] = x ∷ []
  insert x (y ∷ ys) = if before x y then x ∷ y ∷ ys else y ∷ insert x ys

  unfoldable pub sort : List A → List A
  unfolding insert
  sort [] = []
  sort (x ∷ xs) = insert x (sort xs)
