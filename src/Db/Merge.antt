-- ===== src/Db/Merge.antt =====
-- `Merge` of db.go, and `mergeStr`, `mergeHash`, `mergeSet` and `mergeList`: the entries of an
-- archived file that the index still leads to are written again, and the file is deleted.
pub mod Entries
pub mod Strings
pub mod Scan
pub mod Answers
pub mod ZSets
use lazy_db.Prelude.{
  ℕ, zero, suc, ◌+◌, Bool, true, false, Option, none, some, List, [], ◌∷◌, Bytes, length, ◌==◌,
  ◌&&◌, ◌||◌, not, if◌then◌else◌,
}
use lazy_db.Prelude.Res.{Res, ok, err, fatal, eof, log_end_of_file}
use lazy_db.Prelude.Exec.{Exec, pure, lift, continue, ◌>>=◌, ◌>>◌}
use lazy_db.Prelude.Int.{ℤ, is_zero, ltb_ℤ, leb_ℤ}
use lazy_db.Std.Float.{Float64}
use lazy_db.Std.GoMap
use lazy_db.Std.GoMap.{nat_eq}
use lazy_db.Ds.Art.{Art, tree_get}
use lazy_db.Ds.ConcurrentMap
use lazy_db.Logfile.{LogFile, read_log_entry}
use lazy_db.Logfile.Entry.{LogEntry, s_delete}
use lazy_db.Db.Discard.{clear, get_ccl}
use lazy_db.Db.Store.{
  Config, LogSet, ValueType, value_type_string, value_type_hash, value_type_set, value_type_list,
  contents, get_active_log_file, get_archived_log_file, write_log_entry,
}
use lazy_db.Db.Index.{Value, update_index_tree}
use lazy_db.Db.Keys.{decode_key}
use lazy_db.Db.Str
use lazy_db.Db.Str.{StrDb}
use lazy_db.Db.Trees
use lazy_db.Db.Trees.{TreeDb, tree_of}

module _ ⦃art : Art Value⦄ where
  -- The error of `updateIndexTree` is dropped.
  unfoldable pub or_old : art.Tree → Res art.Tree × LogSet → Res art.Tree × LogSet
  or_old tree (ok t, l) = (ok t, l)
  or_old tree (err e, l) = (ok tree, l)
  or_old tree (fatal, l) = (fatal, l)

  -- What the five functions do alike, on the tree that they find.
  unfoldable pub rewrite : ValueType → Config → art.Tree → ℕ → ℕ → LogEntry → Exec LogSet art.Tree
  rewrite typ cfg tree fid offset ent l = elim (tree_get {V = Value} tree ent.key) [
    | none ↦ (ok tree, l)
    | some val ↦
        if val.fid == fid && val.offset == offset
        then (do
          value_pos ← write_log_entry cfg ent
          λ l. or_old tree (update_index_tree typ tree ent value_pos false l))
            l
        else (ok tree, l)
  ]

  -- `mergeStr`
  unfoldable pub merge_str : Config → ℕ → ℕ → LogEntry → Exec StrDb (Unit {0})
  merge_str cfg fid offset ent db =
      Str.finish_update db (rewrite value_type_string cfg db.idx_tree fid offset ent db.log)

  -- `mergeHash`, `mergeSet` and `mergeList`. A tree that is not there is a nil pointer.
  unfoldable pub merge_tree : ValueType → Config → ℕ → ℕ → LogEntry → Exec TreeDb (Unit {0})
  merge_tree typ cfg fid offset ent = do
    (key, _) ← lift (decode_key ent.key)
    λ db. elim (tree_of db key) [
      | none ↦ (fatal, db)
      | some tree ↦ Trees.finish_update key db (rewrite typ cfg tree fid offset ent db.log)
    ]

-- `ent.ExpiredAt != 0 && ent.ExpiredAt <= ts`
abbrev pub is_dead : ℤ → ℤ → Bool
is_dead expired_at ts = not (is_zero expired_at) && leb_ℤ expired_at ts

-- `mutexLF.lf.Delete()` and `shard.Remove(targetFid)`; a file that is not there is a nil value.
unfoldable pub delete_file : ℕ → Exec LogSet (Unit {0})
delete_file target l = elim (get_archived_log_file l target) [
  | ok (some lf) ↦ elim (ConcurrentMap.remove l.archived target) [
    | ok archived ↦ (ok tt, record l { archived = archived; disk = GoMap.remove lf.fid l.disk })
    | err e ↦ (err e, l)
    | fatal ↦ (fatal, l)
  ]
  | ok none ↦ (fatal, l)
  | err e ↦ (err e, l)
  | fatal ↦ (fatal, l)
]

-- `db.discardsMap[typ].clear(fid)`
unfoldable pub clear_discard : ℕ → Exec LogSet (Unit {0})
clear_discard fid l = elim (clear l.discard fid) [
  | ok d ↦ (ok tt, record l { discard = d })
  | err e ↦ (err e, l)
  | fatal ↦ (fatal, l)
]

-- The part that is the same for every type: `S` is the database, `merge` is what the `switch`
-- picks for the type, `clock` is the second in which the entry at an offset is looked at.
module _ {S : Type 0} (log_of : S → LogSet) (with_log : LogSet → S → S)
    (merge : ℕ → ℕ → LogEntry → Exec S (Unit {0})) (clock : ℕ → ℤ) where
  abbrev pub on_log : {A : Type 0} → Exec LogSet A → Exec S A
  on_log m s = let (r, l) = m (log_of s) in (r, with_log l s)

  -- The body of the inner loop behind the read.
  unfoldable pub merge_entry : ℕ → ℕ → LogEntry → Exec S (Unit {0})
  merge_entry fid offset ent =
      if ent.stat == s_delete || is_dead ent.expired_at (clock offset)
      then pure tt
      else merge fid offset ent

  -- The inner loop; `n` bounds the rounds.
  unfoldable pub merge_loop : ℕ → LogFile → ℕ → Exec S (Unit {0})
  merge_loop zero lf offset s = (fatal, s)
  merge_loop (suc n) lf offset s =
      elim (read_log_entry lf.io (contents (log_of s).disk lf.fid) offset) [
        | ok (ent, size) ↦ (do merge_entry lf.fid offset ent; merge_loop n lf (offset + size)) s
        | err eof ↦ (ok tt, s)
        | err log_end_of_file ↦ (ok tt, s)
        | err e ↦ (err e, s)
        | fatal ↦ (fatal, s)
      ]

  -- The entries of the file are looked at, and the file is deleted.
  unfoldable pub merge_file : ℕ → LogFile → Exec S (Unit {0})
  merge_file target lf s =
      (do
        merge_loop (length (contents (log_of s).disk lf.fid) + 1) lf 0
        on_log (delete_file target))
        s

  -- A round of the outer loop.
  unfoldable pub merge_fid : ℕ → ℕ → Exec S (Unit {0})
  merge_fid target fid s =
      if not (target == fid) then (ok tt, s) else elim (get_archived_log_file (log_of s) target) [
        | ok none ↦ (ok tt, s)
        | ok (some lf) ↦ (do merge_file target lf; on_log (clear_discard fid)) s
        | err e ↦ (err e, s)
        | fatal ↦ (fatal, s)
      ]

  merge_fids : ℕ → List ℕ → Exec S (Unit {0})
  merge_fids target [] = pure tt
  merge_fids target (fid ∷ ccl) = do merge_fid target fid; merge_fids target ccl

  -- `Merge`. `targetFid >= 0` always holds.
  unfoldable pub merge_target : (float : Float64) → Config → ℕ → float.F → Exec S (Unit {0})
  unfolding merge_fids
  merge_target float cfg target gc_ratio = do
    active ← on_log (get_active_log_file cfg)
    ccl ← λ s. (get_ccl float (log_of s).discard active.fid gc_ratio, s)
    merge_fids target ccl

module _ ⦃art : Art Value⦄ where
  abbrev pub str_log : StrDb → LogSet
  str_log db = db.log

  abbrev pub with_str_log : LogSet → StrDb → StrDb
  with_str_log l db = record db { log = l }

  -- `Merge` of the strings.
  unfoldable pub merge_strings :
      (float : Float64) → Config → (ℕ → ℤ) → ℕ → float.F → Exec StrDb (Unit {0})
  merge_strings float cfg clock target gc_ratio =
      merge_target str_log with_str_log (merge_str cfg) clock float cfg target gc_ratio

  abbrev pub tree_log : TreeDb → LogSet
  tree_log db = db.log

  abbrev pub with_tree_log : LogSet → TreeDb → TreeDb
  with_tree_log l db = record db { log = l }

  abbrev pub merge_hash : Config → ℕ → ℕ → LogEntry → Exec TreeDb (Unit {0})
  merge_hash cfg = merge_tree value_type_hash cfg

  abbrev pub merge_set : Config → ℕ → ℕ → LogEntry → Exec TreeDb (Unit {0})
  merge_set cfg = merge_tree value_type_set cfg

  abbrev pub merge_list : Config → ℕ → ℕ → LogEntry → Exec TreeDb (Unit {0})
  merge_list cfg = merge_tree value_type_list cfg

  -- `Merge` of the hashes, of the sets and of the lists.
  unfoldable pub merge_hashes :
      (float : Float64) → Config → (ℕ → ℤ) → ℕ → float.F → Exec TreeDb (Unit {0})
  merge_hashes float cfg clock target gc_ratio =
      merge_target tree_log with_tree_log (merge_hash cfg) clock float cfg target gc_ratio

  unfoldable pub merge_sets :
      (float : Float64) → Config → (ℕ → ℤ) → ℕ → float.F → Exec TreeDb (Unit {0})
  merge_sets float cfg clock target gc_ratio =
      merge_target tree_log with_tree_log (merge_set cfg) clock float cfg target gc_ratio

  unfoldable pub merge_lists :
      (float : Float64) → Config → (ℕ → ℤ) → ℕ → float.F → Exec TreeDb (Unit {0})
  merge_lists float cfg clock target gc_ratio =
      merge_target tree_log with_tree_log (merge_list cfg) clock float cfg target gc_ratio
