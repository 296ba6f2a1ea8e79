-- ===== src/Db/Store/Valid.antt =====
-- The state of a log set, and the places where entries are stored for good.
use lazy_db.Prelude.{
  ℕ, ◌+◌, ◌≤◌, ◌<◌, ◌≡◌, ◌⊎◌, ap, refl, ◌∙◌, none, some, Bytes, length, ◌==◌, if◌then◌else◌, arith,
  Option-cases,
}
use lazy_db.Prelude.Res.{ok}
use lazy_db.Std.OsFile.{StandsAt}
use lazy_db.Std.GoMap
use lazy_db.Std.GoMap.{GoMap, nat_eq, lookup-insert}
use lazy_db.Ds.ConcurrentMap.Laws
use lazy_db.Ds.ConcurrentMap.Laws.{view, get_lem}
use lazy_db.Logfile.{LogFile, read_log_entry}
use lazy_db.Logfile.Entry.{LogEntry}
use lazy_db.Logfile.Codec.{entry_bytes, IsEncodable}
use lazy_db.Logfile.ReadBack.{IsReadable, stored, read_log_entry-StandsAt}
use lazy_db.Db.Store.{Config, LogSet, contents, get_archived_log_file, find_log_file, read_entry}

pub contents-insert :
    (disk : GoMap ℕ Bytes) (k j : ℕ) (file : Bytes)
    → contents (GoMap.insert k file disk) j ≡ (if k == j then file else contents disk j)
unfolding contents
contents-insert disk k j file = ground (arith, lookup-insert k j file disk)

-- `lf` is the active file; archived files lie under their own fids, which are smaller.
pub record Ready (cfg : Config) (l : LogSet) (lf : LogFile) : Type 0 where
  pub is_active : l.active ≡ some lf
  pub same_io : lf.io ≡ cfg.io_type
  pub long : cfg.max_log_file_size ≤ length (contents l.disk lf.fid)
  pub map_valid : Laws.IsValid l.archived
  pub own_fid : (k : ℕ) (a : LogFile) → view l.archived k ≡ some a → a.fid ≡ k
  pub older : (k : ℕ) (a : LogFile) → view l.archived k ≡ some a → k < lf.fid

-- No file was opened yet.
pub record Fresh (l : LogSet) : Type 0 where
  pub no_active : l.active ≡ none
  pub map_valid : Laws.IsValid l.archived
  pub no_archived : (k : ℕ) → view l.archived k ≡ none

abbrev pub IsValid : Config → LogSet → Type 0
IsValid cfg l = Fresh l ⊎ ((lf : LogFile) × Ready cfg l lf)

-- `e` is stored at `offset` of the file `fid`: a read finds it, and no append will touch it.
pub record Holds (l : LogSet) (fid offset : ℕ) (e : LogEntry) : Type 0 where
  pub lf : LogFile
  pub is_found : find_log_file l fid ≡ ok lf
  pub named : lf.fid ≡ fid
  pub stands : StandsAt (contents l.disk fid) offset (entry_bytes e)
  pub readable : IsReadable lf.io (contents l.disk fid) offset e
  pub closed :
      (a : LogFile) → l.active ≡ some a → a.fid ≡ fid → offset + length (entry_bytes e) ≤ a.offset

-- What is stored is read back.
pub Holds-read :
    (l : LogSet) (fid offset : ℕ) (e : LogEntry)
    → IsEncodable e
    → 0 < length e.key + length e.value
    → Holds l fid offset e
    → read_entry l fid offset ≡ ok (stored e)
unfolding read_entry
Holds-read l fid offset e able some_byte h =
    let r =
      read_log_entry-StandsAt h.lf.io (contents l.disk fid) offset e able some_byte h.stands
        h.readable in
    let at_fid : read_log_entry h.lf.io (contents l.disk h.lf.fid) offset
        ≡ ok (stored e, length (entry_bytes e)) =
      ap (λ (n : ℕ). read_log_entry h.lf.io (contents l.disk n) offset) h.named ∙ r in
    rw (h.is_found, read_entry) (rw (at_fid, read_entry))

module _ (cfg : Config) (l : LogSet) (lf : LogFile) (r : Ready cfg l lf) where
  pub find_active : find_log_file l lf.fid ≡ ok lf
  unfolding find_log_file
  find_active = ground (arith, r.is_active)

  pub find_archived : (k : ℕ) (a : LogFile) → view l.archived k ≡ some a → find_log_file l k ≡ ok a
  unfolding find_log_file get_archived_log_file
  find_archived k a h = ground (arith, r.is_active, get_lem l.archived k r.map_valid, r.older k a h)

  -- A file that is found is the active one or an archived one.
  pub find_cases :
      (k : ℕ) (a : LogFile)
      → find_log_file l k ≡ ok a
      → ((lf.fid ≡ k) × (a ≡ lf)) ⊎ ((view l.archived k ≡ some a) × (k < lf.fid))
  unfolding find_log_file get_archived_log_file
  find_cases k a h = ground (
    arith,
    r.is_active,
    get_lem l.archived k r.map_valid,
    Option-cases (view l.archived k),
    r.older k a,
  )

-- Archived files stay where they are, with their contents.
pub record Sealed (l l' : LogSet) : Type 0 where
  pub kept :
      (k : ℕ) (a : LogFile)
      → view l.archived k ≡ some a
      → (view l'.archived k ≡ some a) × (contents l'.disk k ≡ contents l.disk k)

pub Sealed-refl : (l : LogSet) → Sealed l l
Sealed-refl l = record { kept = λ k a h. (h, refl) }

pub Sealed-trans : {a b c : LogSet} → Sealed a b → Sealed b c → Sealed a c
Sealed-trans f g = record {
  kept = λ k x h. let (v, e) = f.kept k x h in let (v', e') = g.kept k x v in (v', e' ∙ e);
}
