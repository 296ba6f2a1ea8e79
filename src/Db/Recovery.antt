-- ===== src/Db/Recovery.antt =====
-- What `Open` does with the files of one value type: `buildLogFiles` of db.go, and
-- `buildStrIndex`, `buildHashIndex` and `buildIndexFromLogFiles` of index.go. The fids come from
-- the names of the files in the directory.
pub mod Replay
pub mod Rebuild
pub mod Rounds
pub mod NextEntry
use lazy_db.Prelude.{
  ℕ, zero, suc, ◌+◌, ◌≡◌, Bool, true, false, Option, none, some, List, [], ◌∷◌, Bytes, length, ◌==◌,
  if◌then◌else◌,
}
use lazy_db.Prelude.Res.{Res, ok, err, fatal, eof, log_end_of_file, ◌>>=◌}
use lazy_db.Prelude.Exec.{or_fatal}
use lazy_db.Prelude.Int.{ℤ, pos}
use lazy_db.Std.Sort.{sort}
use lazy_db.Std.GoMap
use lazy_db.Std.GoMap.{GoMap, bytes_eq_keys}
use lazy_db.Io.{IoType}
use lazy_db.Ds.Art.{Art, tree_put, tree_delete}
use lazy_db.Logfile.{LogFile, read_log_entry}
use lazy_db.Logfile.Entry.{LogEntry, s_delete}
use lazy_db.Db.Store.{
  Config, LogSet, ValuePos, contents, open_log, set_active, archive, get_archived_log_file,
}
use lazy_db.Db.Index.{Value, encoded_size}
use lazy_db.Db.Keys.{decode_key}

-- `logfile.Open` of one file; an error ends the process.
unfoldable pub open_file_of : Config → ℕ → LogSet → Res (LogFile × LogSet)
open_file_of cfg fid l = let (r, l') = open_log cfg fid l in do lf ← or_fatal r; ok (lf, l')

-- The loop of `build` in `buildLogFiles`: the last file is active, the others are archived.
unfoldable pub open_files : Config → List ℕ → LogSet → Res LogSet
open_files cfg [] l = ok l
open_files cfg (fid ∷ []) l = do
  (lf, l) ← open_file_of cfg fid l
  ok (record l { active = some lf })
open_files cfg (fid ∷ fid2 ∷ fids) l = do
  (lf, l) ← open_file_of cfg fid l
  let (r, l) = archive lf l
  done ← r
  open_files cfg (fid2 ∷ fids) l

-- `build` in `buildLogFiles`, over the fids that were found.
unfoldable pub build_log_files : Config → LogSet → Res LogSet
unfolding open_files
build_log_files cfg l =
    if length l.fids == 0
    then ok l
    else open_files cfg (sort l.fids) (record l { fids = sort l.fids })

-- The file that a round of `buildIndexFromLogFiles` reads.
unfoldable pub file_of : LogSet → ℕ → Bool → Res LogFile
file_of l fid true = elim l.active [ none ↦ fatal | some lf ↦ ok lf ]
file_of l fid false = elim (get_archived_log_file l fid) [
  | ok (some lf) ↦ ok lf
  | ok none ↦ fatal
  | err e ↦ err e
  | fatal ↦ fatal
]

-- `atomic.StoreInt64(&logFile.Offset, offset)`
abbrev pub set_offset : LogSet → LogFile → ℕ → LogSet
set_offset l lf offset = record l { active = some (record lf { offset = offset }) }

module _ ⦃art : Art Value⦄ where
  -- `buildStrIndex`: the index value has no expiry.
  unfoldable pub build_str_index : art.Tree → LogEntry → ValuePos → Res art.Tree
  build_str_index idx_tree entry p =
      if entry.stat == s_delete then ok (tree_delete {V = Value} idx_tree entry.key).0 else (do
        size ← encoded_size entry
        ok
            (tree_put {V = Value} idx_tree entry.key
              (record { fid = p.fid; offset = p.offset; entry_size = size; expired_at = pos 0 })).0)

  -- `buildHashIndex`: a tree that is not there is a nil pointer.
  unfoldable pub build_hash_index :
      GoMap Bytes art.Tree → LogEntry → ValuePos → Res (GoMap Bytes art.Tree)
  build_hash_index trees entry p = do
    (key, _) ← decode_key entry.key
    elim (GoMap.lookup key trees) [
      | none ↦ fatal
      | some tree ↦ do tree ← build_str_index tree entry p; ok (GoMap.insert key tree trees)
    ]

  -- The inner loop of `buildIndexFromLogFiles` over one file, for strings. It ends at the first
  -- offset where no entry can be read; `n` bounds the rounds.
  unfoldable pub build_loop : ℕ → IoType → Bytes → ℕ → ℕ → art.Tree → Res (art.Tree × ℕ)
  build_loop zero io file fid offset tree = fatal
  build_loop (suc n) io file fid offset tree = elim (read_log_entry io file offset) [
    | ok (entry, size) ↦ do
      tree ← build_str_index tree entry (record { fid = fid; offset = offset; entry_size = size })
      build_loop n io file fid (offset + size) tree
    | err eof ↦ ok (tree, offset)
    | err log_end_of_file ↦ ok (tree, offset)
    | err e ↦ fatal
    | fatal ↦ fatal
  ]

  -- The outer loop. An entry has a byte at least, so the rounds are fewer than the bytes.
  unfoldable pub build_fids : List ℕ → LogSet → art.Tree → Res (art.Tree × LogSet)
  build_fids [] l tree = ok (tree, l)
  build_fids (fid ∷ []) l tree = do
    lf ← file_of l fid true
    let file = contents l.disk lf.fid
    (tree, offset) ← build_loop (length file + 1) lf.io file fid 0 tree
    ok (tree, set_offset l lf offset)
  build_fids (fid ∷ fid2 ∷ fids) l tree = do
    lf ← file_of l fid false
    let file = contents l.disk lf.fid
    (tree, offset) ← build_loop (length file + 1) lf.io file fid 0 tree
    build_fids (fid2 ∷ fids) l tree

  -- `build` in `buildIndexFromLogFiles`, for strings.
  unfoldable pub build_index : LogSet → art.Tree → Res (art.Tree × LogSet)
  build_index l tree =
      if length l.fids == 0
      then ok (tree, l)
      else build_fids (sort l.fids) (record l { fids = sort l.fids }) tree
