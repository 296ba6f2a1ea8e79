-- ===== src/Tests/Rebuilds.antt =====
-- A log file with a value that is stored, stored again and deleted.
use lazy_db.Prelude.{
  ◌^◌, ◌<◌, ◌≡◌, refl, none, some, List, [], ◌∷◌, ◌++◌, Bytes, arith, length, replicate,
}
use lazy_db.Prelude.Res.{ok}
use lazy_db.Prelude.Int.{pos}
use lazy_db.Std.GoMap
use lazy_db.Std.GoMap.{nat_eq}
use lazy_db.Io.{file_io}
use lazy_db.Logfile.{LogFile}
use lazy_db.Logfile.Entry.{LogEntry}
use lazy_db.Logfile.Limits.{small-IsEncodable}
use lazy_db.Db.Store.{LogSet, contents}
use lazy_db.Db.Index.{plain_entry, delete_entry, get_value}
use lazy_db.Db.Index.Lookup.{reply}
use lazy_db.Db.Recovery.{build_loop, build_index}
use lazy_db.Db.Recovery.Rounds.{Ends, build_loop-Ends}
use lazy_db.Db.Recovery.Replay.{log_bytes, AllWritten}
use lazy_db.Db.Recovery.Rebuild.{spec_after, build_index-reply}
use lazy_db.Tests.{key0, value0, trees, log0}

abbrev other_key : Bytes
other_key = b'o' ∷ []

abbrev entries : List LogEntry
entries = plain_entry key0 value0 ∷ plain_entry other_key value0 ∷ delete_entry key0 ∷ []

abbrev file1 : LogFile
file1 = record { fid = 1; offset = 0; io = file_io }

abbrev log1 : LogSet
log1 = record log0 {
  disk = (1, log_bytes entries ++ replicate 30 0) ∷ [];
  active = some file1;
  fids = 1 ∷ [];
}

entries-AllWritten : AllWritten entries
entries-AllWritten =
    let small =
      λ (e : LogEntry) (id : e.tx_id ≡ 0) (stat : e.tx_stat < 64) (time : e.expired_at ≡ pos 0)
          (k : length e.key < 2 ^ 27) (v : length e.value < 2 ^ 27).
        small-IsEncodable e id stat 0 time (omega arith) k v in
    (
      small (plain_entry key0 value0) refl (omega arith) refl (omega arith) (omega arith),
      omega arith,
      (
        small (plain_entry other_key value0) refl (omega arith) refl (omega arith) (omega arith),
        omega arith,
        (
          small (delete_entry key0) refl (omega arith) refl (omega arith) (omega arith),
          omega arith,
          tt,
        ),
      ),
    )

log1_contents : contents log1.disk 1 ≡ log_bytes entries ++ replicate 30 0
unfolding contents GoMap.lookup
log1_contents = refl

build_index-reply_example :
    (tree : trees.Tree) × (l' : LogSet) × (build_index ⦃art = trees⦄ log1 trees.new
      ≡ (ok (tree, l')))
    × (l'.active ≡ some (record file1 { offset = length (log_bytes entries) }))
    × (get_value ⦃art = trees⦄ tree other_key (pos 5) l'
        ≡ reply (pos 5) (spec_after (λ k. none) entries other_key))
build_index-reply_example =
    build_index-reply ⦃art = trees⦄ log1 file1 entries 30 other_key (pos 5) refl refl log1_contents
      tt entries-AllWritten (omega arith)

abbrev garbage : Bytes
garbage = replicate 40 7

build_loop-Ends_example :
    Ends ⦃art = trees⦄ file_io garbage 1 0 trees.new
      (build_loop ⦃art = trees⦄ 41 file_io garbage 1 0 trees.new)
build_loop-Ends_example =
    build_loop-Ends ⦃art = trees⦄ file_io garbage 1 41 0 trees.new (omega arith) (omega arith)
