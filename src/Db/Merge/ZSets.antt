-- ===== src/Db/Merge/ZSets.antt =====
-- `mergeZSet`, and `Merge` of the sorted sets.
use lazy_db.Prelude.{ℕ}
use lazy_db.Prelude.Exec.{Exec}
use lazy_db.Prelude.Int.{ℤ}
use lazy_db.Std.Float.{Float64, Scores}
use lazy_db.Std.SkipList.{SkipList}
use lazy_db.Ds.Art.{Art}
use lazy_db.Logfile.Entry.{LogEntry}
use lazy_db.Db.Store.{Config, LogSet, value_type_zset}
use lazy_db.Db.Index.{Value}
use lazy_db.Db.Nodes.{Node}
use lazy_db.Db.ZSets.{ZDb, on_base, locked}
use lazy_db.Db.Merge.{merge_tree, merge_target}

module _ ⦃art : Art Value⦄ (fl : Scores) (sl : SkipList (Node fl)) where
  -- `mergeZSet`, which begins with the read lock.
  unfoldable pub merge_zset : Config → ℕ → ℕ → LogEntry → Exec (ZDb fl sl) (Unit {0})
  merge_zset cfg fid offset ent =
      locked fl sl (on_base fl sl (merge_tree value_type_zset cfg fid offset ent))

  abbrev pub zset_log : ZDb fl sl → LogSet
  zset_log db = db.base.log

  abbrev pub with_zset_log : LogSet → ZDb fl sl → ZDb fl sl
  with_zset_log l db = record db { base = record db.base { log = l } }

  -- `Merge` of the sorted sets.
  unfoldable pub merge_zsets :
      (float : Float64) → Config → (ℕ → ℤ) → ℕ → float.F → Exec (ZDb fl sl) (Unit {0})
  merge_zsets float cfg clock target gc_ratio =
      merge_target zset_log with_zset_log (merge_zset cfg) clock float cfg target gc_ratio
