-- ===== src/Db/Store.antt =====
-- The log files of one value type: writing and reading entries, and rotation (db.go).
pub mod Valid
pub mod Rotate
pub mod First
pub mod Append
pub mod Room
pub mod Write
pub mod Fits
use lazy_db.Prelude.{
  ℕ, zero, suc, ◌+◌, ◌%◌, ◌^◌, ◌≡◌, Bool, true, false, Option, none, some, List, [], ◌∷◌, ◌++◌,
  Bytes, length, ltb, leb, ◌==◌, if◌then◌else◌,
}
use lazy_db.Prelude.Res.{Res, ok, err, fatal, open_log_file, log_file_not_exist}
use lazy_db.Prelude.Exec.{Exec, pure, raise, lift, gets, or_fatal, continue, ◌>>=◌, ◌>>◌}
use lazy_db.Prelude.Int.{ℤ, pos}
use lazy_db.Std.GoMap
use lazy_db.Std.GoMap.{GoMap, nat_eq}
use lazy_db.Io.{IoType}
use lazy_db.Ds.ConcurrentMap
use lazy_db.Ds.ConcurrentMap.{ConcurrentMap}
use lazy_db.Logfile
use lazy_db.Logfile.{LogFile, read_log_entry, write_log}
use lazy_db.Logfile.Entry.{LogEntry, encode_entry}
use lazy_db.Db.Discard.{Discard, set_total}

-- The part of `DBConfig` that the store reads.
pub record Config : Type 0 where
  pub max_log_file_size : ℕ
  pub io_type : IoType

-- `valueType`
pub data ValueType : Type 0 where
  value_type_string value_type_list value_type_hash value_type_set value_type_zset : ValueType

-- `ValuePos`
pub record ValuePos : Type 0 where
  pub fid : ℕ
  pub offset : ℕ
  pub entry_size : ℕ

-- The entries of `activeLogFileMap`, `archivedLogFile`, `fidsMap` and `discardsMap` for one value
-- type, and the contents of its files on disk by fid.
pub record LogSet : Type 0 where
  pub disk : GoMap ℕ Bytes
  pub active : Option LogFile
  pub archived : ConcurrentMap ℕ LogFile
  pub fids : List ℕ
  pub discard : Discard

-- The contents of a file; one that is not there is empty.
unfoldable pub contents : GoMap ℕ Bytes → ℕ → Bytes
contents disk fid = elim (GoMap.lookup fid disk) [ none ↦ [] | some file ↦ file ]

unfoldable pub append_fid : ℕ → Exec LogSet (Unit {0})
append_fid fid l = (ok tt, record l { fids = l.fids ++ fid ∷ [] })

unfoldable pub set_active : LogFile → Exec LogSet (Unit {0})
set_active lf l = (ok tt, record l { active = some lf })

-- `db.archivedLogFile[typ].Set(lf.Fid, …)`
unfoldable pub archive : LogFile → Exec LogSet (Unit {0})
archive lf l = elim (ConcurrentMap.put l.archived lf.fid lf) [
  | ok archived ↦ (ok tt, record l { archived = archived })
  | err e ↦ (err e, l)
  | fatal ↦ (fatal, l)
]

-- `lf.Write(buf)` on the active file.
unfoldable pub append_to : LogFile → Bytes → Exec LogSet (Unit {0})
append_to lf buf l = elim (write_log lf (contents l.disk lf.fid) buf) [
  | ok (lf', file) ↦ (ok tt, record l { active = some lf'; disk = GoMap.insert lf.fid file l.disk })
  | err e ↦ (err e, l)
  | fatal ↦ (fatal, l)
]

module _ (cfg : Config) where
  -- `logfile.Open` of one file of the set.
  unfoldable pub open_log : ℕ → Exec LogSet LogFile
  open_log fid l =
      elim (Logfile.open_log_file fid cfg.max_log_file_size cfg.io_type (GoMap.lookup fid l.disk)) [
        | ok (lf, file) ↦ (ok lf, record l { disk = GoMap.insert fid file l.disk })
        | err e ↦ (err e, l)
        | fatal ↦ (fatal, l)
      ]

  -- `db.discardsMap[typ].setTotal(fid, uint32(db.cfg.MaxLogFileSize))`
  unfoldable pub set_total_of : ℕ → Exec LogSet (Unit {0})
  set_total_of fid l = elim (set_total l.discard fid (cfg.max_log_file_size % 2 ^ 32)) [
    | ok d ↦ (ok tt, record l { discard = d })
    | err e ↦ (err e, l)
    | fatal ↦ (fatal, l)
  ]

  -- The branch of `getActiveLogFile` that makes the first file.
  unfoldable pub first_log_file : Exec LogSet LogFile
  unfolding open_log set_active append_fid set_total_of
  first_log_file l =
      let (r, l') = open_log 1 l in
      (do lf ← lift (or_fatal r); set_active lf; append_fid lf.fid; set_total_of lf.fid; pure lf) l'

  -- `getActiveLogFile`
  unfoldable pub get_active_log_file : Exec LogSet LogFile
  get_active_log_file l = elim l.active [ some lf ↦ (ok lf, l) | none ↦ first_log_file l ]

  -- The branch of `writeLogEntry` on a full file: it is archived, and a new one is active.
  unfoldable pub rotate : LogFile → Exec LogSet LogFile
  unfolding open_log archive append_fid set_total_of set_active
  rotate lf = do
    let new_fid = (lf.fid + 1) % 2 ^ 32
    new_lf ← open_log new_fid
    archive lf
    append_fid new_fid
    set_total_of new_fid
    set_active new_lf
    pure new_lf

  -- `maxsize exceeded`
  unfoldable pub make_room : LogFile → ℕ → Exec LogSet LogFile
  make_room lf size = if ltb cfg.max_log_file_size (lf.offset + size) then rotate lf else pure lf

  -- `writeLogEntry`
  unfoldable pub write_log_entry : LogEntry → Exec LogSet ValuePos
  write_log_entry entry = do
    lf ← get_active_log_file
    (buf, size) ← lift (encode_entry entry)
    lf ← make_room lf size
    append_to lf buf
    pure (record { fid = lf.fid; offset = lf.offset; entry_size = size })

-- `getArchivedLogFile`
unfoldable pub get_archived_log_file : LogSet → ℕ → Res (Option LogFile)
get_archived_log_file l fid = ConcurrentMap.get l.archived fid

-- The file that `readLogEntry` reads from.
unfoldable pub find_log_file : LogSet → ℕ → Res LogFile
find_log_file l fid = elim l.active [
  | none ↦ fatal
  | some lf ↦ if lf.fid == fid then ok lf else elim (get_archived_log_file l fid) [
    | ok (some mlf) ↦ ok mlf
    | ok none ↦ err log_file_not_exist
    | err e ↦ err e
    | fatal ↦ fatal
  ]
]

-- `readLogEntry`: with no active file the code dereferences a nil pointer.
unfoldable pub read_entry : LogSet → ℕ → ℕ → Res LogEntry
read_entry l fid offset = elim (find_log_file l fid) [
  | ok lf ↦ elim (read_log_entry lf.io (contents l.disk lf.fid) offset) [
    | ok (entry, size) ↦ ok entry
    | err e ↦ err e
    | fatal ↦ fatal
  ]
  | err e ↦ err e
  | fatal ↦ fatal
]
