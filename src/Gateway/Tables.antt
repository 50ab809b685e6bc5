-- ===== src/Gateway/Tables.antt =====
-- Tables whose primary key is a text, as lists of rows.
pub mod Keys
pub mod Laws
use nyx_dirty_and_develop.Base.{
  List, [], ◌∷◌, ◌++◌, String, text_eq, Option, none, some, if◌then◌else◌,
}

module _ {R : Type 0} (key : R → String) where
  -- `DELETE FROM … WHERE key = k`
  unfoldable pub delete : String → List R → List R
  delete k [] = []
  delete k (r ∷ rs) = if text_eq (key r) k then delete k rs else r ∷ delete k rs

  -- `INSERT OR REPLACE INTO …`
  unfoldable pub insert_or_replace : R → List R → List R
  insert_or_replace r rs = delete (key r) rs ++ (r ∷ [])

  -- `UPDATE … WHERE key = k`
  unfoldable pub update_where : String → (R → R) → List R → List R
  update_where k f [] = []
  update_where k f (r ∷ rs) = (if text_eq (key r) k then f r else r) ∷ update_where k f rs

  -- `SELECT * FROM … WHERE key = k`, `fetchone`
  unfoldable pub select_one : String → List R → Option R
  select_one k [] = none
  select_one k (r ∷ rs) = if text_eq (key r) k then some r else select_one k rs
