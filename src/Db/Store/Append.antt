-- ===== src/Db/Store/Append.antt =====
-- `writeLogEntry` as a whole: the entry is stored, and what was stored stays stored.
use lazy_db.Prelude.{
  ℕ, ◌+◌, ◌≤◌, ◌<◌, ◌≡◌, ◌≢◌, inl, inr, refl, sym, false, some, Bytes, length, leb, arith, ==_self,
}
use mathlib.Core.Path.{subst}
use lazy_db.Ds.ConcurrentMap.Laws.{view}
use lazy_db.Prelude.Res.{ok}
use lazy_db.Std.OsFile.{write_at, write_at-StandsAt, write_at-keeps, length-write_at}
use lazy_db.Std.GoMap
use lazy_db.Std.GoMap.{GoMap, nat_eq}
use lazy_db.Io.{IoType, file_io, mmap, unsupported, io_write, file_write, mmap_write}
use lazy_db.Logfile.{LogFile, write_log}
use lazy_db.Logfile.Entry.{LogEntry, max_header_size}
use lazy_db.Logfile.Codec.{entry_bytes}
use lazy_db.Logfile.ReadBack.{IsReadable, CanRead}
use lazy_db.Db.Store.{Config, LogSet, contents, append_to}
use lazy_db.Db.Store.Valid.{
  Ready, Holds, Sealed, contents-insert, find_active, find_archived, find_cases,
}

-- The controller takes `n` bytes at the offset: a mapping does not grow.
abbrev pub CanWrite : IoType → Bytes → ℕ → ℕ → Type 0
CanWrite file_io file n offset = Unit {0}
CanWrite mmap file n offset = offset + n ≤ length file
CanWrite unsupported file n offset = ⊥

io_write_lem :
    (io : IoType) (file b : Bytes) (offset : ℕ)
    → 0 < length b
    → CanWrite io file (length b) offset
    → io_write io file b offset ≡ ok (length b, write_at file b offset)
unfolding io_write file_write mmap_write
io_write_lem file_io file b offset h w = refl
io_write_lem mmap file b offset h w = ground arith
io_write_lem unsupported file b offset h w = absurd w

abbrev pub written : LogFile → Bytes → LogFile
written lf b = record lf { offset = lf.offset + length b }

pub write_log_lem :
    (lf : LogFile) (file b : Bytes)
    → 0 < length b
    → CanWrite lf.io file (length b) lf.offset
    → write_log lf file b ≡ ok (written lf b, write_at file b lf.offset)
unfolding write_log
write_log_lem lf file b h w =
    let some_byte : leb (length b) 0 ≡ false = ground arith in
    rw (some_byte, io_write_lem lf.io file b lf.offset h w) (rw (==_self (length b)))

-- The state after an append to the active file.
abbrev pub appended : LogSet → LogFile → Bytes → LogSet
appended l lf b = record l {
  active = some (written lf b);
  disk = GoMap.insert lf.fid (write_at (contents l.disk lf.fid) b lf.offset) l.disk;
}

module _ (cfg : Config) (l : LogSet) (lf : LogFile) (r : Ready cfg l lf) (b : Bytes) where
  pub append_runs :
      0 < length b
      → CanWrite lf.io (contents l.disk lf.fid) (length b) lf.offset
      → append_to lf b l ≡ (ok tt, appended l lf b)
  unfolding append_to
  append_runs h w = rw (write_log_lem lf (contents l.disk lf.fid) b h w, append_to)

  pub appended_file :
      contents (appended l lf b).disk lf.fid ≡ write_at (contents l.disk lf.fid) b lf.offset
  appended_file =
      let file = write_at (contents l.disk lf.fid) b lf.offset in
      ground (arith, contents-insert l.disk lf.fid lf.fid file)

  appended_other : (k : ℕ) → k ≢ lf.fid → contents (appended l lf b).disk k ≡ contents l.disk k
  appended_other k h =
      let file = write_at (contents l.disk lf.fid) b lf.offset in
      ground (arith, contents-insert l.disk lf.fid k file)

  pub appended-Ready : Ready cfg (appended l lf b) (written lf b)
  appended-Ready = record {
    is_active = refl;
    same_io = r.same_io;
    long =
        rw appended_file
          (omega (arith, r.long, length-write_at (contents l.disk lf.fid) b lf.offset));
    map_valid = r.map_valid;
    own_fid = r.own_fid;
    older = r.older;
  }

CanRead-grow :
    (io : IoType) (file file' : Bytes) (n offset : ℕ)
    → length file ≤ length file'
    → CanRead io file n offset
    → CanRead io file' n offset
CanRead-grow file_io file file' n offset h c = omega arith
CanRead-grow mmap file file' n offset h c = omega arith
CanRead-grow unsupported file file' n offset h c = c

module _ (cfg : Config) (l : LogSet) (lf : LogFile) (r : Ready cfg l lf) (b : Bytes) where
  held_active :
      (offset : ℕ) (e : LogEntry)
      → Holds l lf.fid offset e
      → Holds (appended l lf b) lf.fid offset e
  held_active offset e h =
      let file = contents l.disk lf.fid in
      let same : h.lf ≡ lf = cc (h.is_found, find_active cfg l lf r) in
      let (reads, all) = subst (λ x. IsReadable x.io file offset e) same h.readable in
      let new = appended_file cfg l lf r b in
      let (longer, _) = length-write_at file b lf.offset in
      record {
        lf = written lf b;
        is_found = find_active cfg (appended l lf b) (written lf b) (appended-Ready cfg l lf r b);
        named = refl;
        stands = rw new (
            write_at-keeps file (entry_bytes e) b offset lf.offset h.stands
              (h.closed lf r.is_active refl));
        readable = rw new (
          CanRead-grow lf.io file _ max_header_size offset longer reads,
          CanRead-grow lf.io file _ (length (entry_bytes e)) offset longer all,
        );
        closed = λ a active at. ground (arith, h.closed lf r.is_active refl);
      }

  held_other :
      (k offset : ℕ) (e : LogEntry) (h : Holds l k offset e)
      → view l.archived k ≡ some h.lf
      → k < lf.fid
      → Holds (appended l lf b) k offset e
  held_other k offset e h v lt =
      let same = appended_other cfg l lf r b k (omega arith) in
      record {
        lf = h.lf;
        is_found =
            find_archived cfg (appended l lf b) (written lf b) (appended-Ready cfg l lf r b) k h.lf
              v;
        named = h.named;
        stands = rw same h.stands;
        readable = rw same h.readable;
        closed = λ a active at. ground arith;
      }

  pub appended-Holds :
      (k offset : ℕ) (e : LogEntry) → Holds l k offset e → Holds (appended l lf b) k offset e
  appended-Holds k offset e h = elim (find_cases cfg l lf r k h.lf h.is_found) [
    | inl (at, same) ↦
        subst (λ (n : ℕ). Holds (appended l lf b) n offset e) at
          (held_active offset e (subst (λ (n : ℕ). Holds l n offset e) (sym at) h))
    | inr (v, lt) ↦ held_other k offset e h v lt
  ]

pub appended-Sealed :
    (cfg : Config) (l : LogSet) (lf : LogFile) (b : Bytes)
    → Ready cfg l lf
    → Sealed l (appended l lf b)
appended-Sealed cfg l lf b r = record {
  kept = λ k a h. (h, appended_other cfg l lf r b k (omega (arith, r.older k a h)));
}

-- After the append of an entry at a position with room for a header, the entry is stored.
pub appended-stored :
    (cfg : Config) (l : LogSet) (lf : LogFile) (r : Ready cfg l lf) (e : LogEntry)
    → IsReadable lf.io (contents (appended l lf (entry_bytes e)).disk lf.fid) lf.offset e
    → Holds (appended l lf (entry_bytes e)) lf.fid lf.offset e
appended-stored cfg l lf r e readable =
    let b = entry_bytes e in
    record {
      lf = written lf b;
      is_found = find_active cfg (appended l lf b) (written lf b) (appended-Ready cfg l lf r b);
      named = refl;
      stands =
          rw (appended_file cfg l lf r b) (write_at-StandsAt (contents l.disk lf.fid) b lf.offset);
      readable = readable;
      closed = λ a active at. ground arith;
    }
