-- ===== src/Std/SkipList.antt =====
-- The skip list of the package `gansidui/skiplist`, which orders its elements by their `Less`. Its
-- type and its operations are parameters.
use lazy_db.Prelude.{ℕ, List}

pub record SkipList (Node : Type 0) : Type 1 where
  pub SList : Type 0
  pub new : SList
  pub insert : SList → Node → SList
  -- `Delete`: an element goes where one is neither less nor greater than the node.
  pub delete : SList → Node → SList
  -- `GetRank`: 0 where there is no such element.
  pub get_rank : SList → Node → ℕ
  -- The elements in their order: from `Front` by `Next`, and backwards by `Prev`.
  pub nodes : SList → List Node
