-- ===== src/Db/Trees.antt =====
-- The state that hashes, lists and sets have alike: a tree for each key, and the log files of the
-- type. A method holds the lock of its index, so it is one step.
pub mod Models
pub mod Writes
use lazy_db.Prelude.{◌≡◌, Bool, true, false, Option, none, some, List, Bytes}
use lazy_db.Prelude.Res.{Res, ok, err, fatal}
use lazy_db.Prelude.Exec.{Exec, pure, lift, continue, ◌>>=◌, ◌>>◌}
use lazy_db.Std.GoMap
use lazy_db.Std.GoMap.{GoMap, bytes_eq_keys}
use lazy_db.Ds.Art.{Art, tree_delete}
use lazy_db.Logfile.Entry.{LogEntry}
use lazy_db.Db.Store.{Config, LogSet, ValuePos, ValueType, write_log_entry}
use lazy_db.Db.Index.{Value, send_discard, send_value, encoded_size, update_index_tree}

module _ ⦃art : Art Value⦄ where
  -- `hashIndex`, `listIndex`, `setIndex`. A tree is reached through its key alone.
  pub record TreeDb : Type 0 where
    pub trees : GoMap Bytes art.Tree
    pub log : LogSet

  -- A step on the log files.
  abbrev pub on_log : {A : Type 0} → Exec LogSet A → Exec TreeDb A
  on_log m db = let (r, l) = m db.log in (r, record db { log = l })

  abbrev pub tree_of : TreeDb → Bytes → Option art.Tree
  tree_of db key = GoMap.lookup key db.trees

  -- `if trees[key] == nil { trees[key] = ds.NewART() }`
  unfoldable pub open_tree : Bytes → Exec TreeDb (Unit {0})
  open_tree key db = elim (tree_of db key) [
    | some tree ↦ (ok tt, db)
    | none ↦ (ok tt, record db { trees = GoMap.insert key art.new db.trees })
  ]

  -- The tree and the log files go back into the database.
  unfoldable pub finish_update : Bytes → TreeDb → Res art.Tree × LogSet → Res (Unit {0}) × TreeDb
  finish_update key db (ok t, l) = (ok tt, record { trees = GoMap.insert key t db.trees; log = l })
  finish_update key db (err e, l) = (err e, record db { log = l })
  finish_update key db (fatal, l) = (fatal, record db { log = l })

  -- `db.updateIndexTree(typ, trees[key], entry, pos, false)`. A tree that is not there is a nil
  -- pointer.
  unfoldable pub update_tree : ValueType → Bytes → LogEntry → ValuePos → Exec TreeDb (Unit {0})
  update_tree typ key entry p db = elim (tree_of db key) [
    | none ↦ (fatal, db)
    | some tree ↦ finish_update key db (update_index_tree typ tree entry p false db.log)
  ]

  -- `writeLogEntry` and `updateIndexTree`.
  unfoldable pub store_in : ValueType → Config → Bytes → LogEntry → Exec TreeDb (Unit {0})
  store_in typ cfg key entry = do
    p ← on_log (write_log_entry cfg entry)
    update_tree typ key entry p

  -- `idxTree.Delete(sub_key)` in the tree of a key.
  unfoldable pub delete_in : Bytes → Bytes → Exec TreeDb (Option Value × Bool)
  delete_in key sub_key db = elim (tree_of db key) [
    | none ↦ (fatal, db)
    | some tree ↦
        let (t, val, updated) = tree_delete tree sub_key in
        (ok (val, updated), record db { trees = GoMap.insert key t db.trees })
  ]

  -- What follows a deletion: the old entry and the entry of the deletion count as dead.
  unfoldable pub discard_both : Option Value → Bool → ValuePos → LogEntry → Exec TreeDb (Unit {0})
  discard_both val updated p entry = do
    on_log (send_discard val updated)
    size ← lift (encoded_size entry)
    on_log (send_value p.fid size)
