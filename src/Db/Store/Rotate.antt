-- ===== src/Db/Store/Rotate.antt =====
-- Opening a file, the first one and the next one: what was stored stays stored.
use lazy_db.Prelude.{
  ℕ, ◌+◌, ◌%◌, ◌^◌, ◌≤◌, ◌<◌, ◌≡◌, ◌≢◌, inl, inr, refl, Option, none, some, [], ◌∷◌, ◌++◌, Bytes,
  length, ◌==◌, if◌then◌else◌, arith,
}
use lazy_db.Prelude.Res.{ok}
use lazy_db.Std.OsFile.{length-extend}
use lazy_db.Std.GoMap
use lazy_db.Std.GoMap.{GoMap, nat_eq}
use lazy_db.Io.{IoType, file_io, mmap, unsupported, open_file}
use lazy_db.Ds.ConcurrentMap
use lazy_db.Ds.ConcurrentMap.Laws
use lazy_db.Ds.ConcurrentMap.Laws.{view, put-view}
use lazy_db.Logfile
use lazy_db.Logfile.{LogFile, new_controller}
use lazy_db.Logfile.Entry.{LogEntry}
use lazy_db.Db.Discard.{Discard, set_total}
use lazy_db.Db.Discard.Slots.{SameChan, set_total-SameChan}
use lazy_db.Db.Store.{
  Config, LogSet, contents, find_log_file, open_log, set_total_of, append_fid, set_active, archive,
  rotate,
}
use lazy_db.Db.Store.Valid.{Sealed, Ready, Holds, contents-insert, find_archived, find_cases}

-- The configuration can open files.
pub record IsUsable (cfg : Config) : Type 0 where
  pub positive : 0 < cfg.max_log_file_size
  pub supported : cfg.io_type ≢ unsupported

pub length-open_file : (file : Option Bytes) (n : ℕ) → n ≤ length (open_file file n)
unfolding open_file
length-open_file none n = omega (arith, length-extend n [])
length-open_file (some file) n = ground (arith, length-extend n file)

new_controller_lem :
    (io : IoType) (file : Option Bytes) (n : ℕ)
    → io ≢ unsupported
    → new_controller io file n ≡ ok (open_file file n)
unfolding new_controller
new_controller_lem file_io file n h = refl
new_controller_lem mmap file n h = refl
new_controller_lem unsupported file n h = absurd (h refl)

abbrev pub opened : Config → ℕ → LogFile
opened cfg fid = record { fid = fid; offset = 0; io = cfg.io_type }

abbrev pub opened_file : Config → LogSet → ℕ → Bytes
opened_file cfg l fid = open_file (GoMap.lookup fid l.disk) cfg.max_log_file_size

pub open_log_lem :
    (cfg : Config) (fid : ℕ) (l : LogSet)
    → IsUsable cfg
    → open_log cfg fid l
      ≡ (ok (opened cfg fid), record l { disk = GoMap.insert fid (opened_file cfg l fid) l.disk })
unfolding open_log Logfile.open_log_file
open_log_lem cfg fid l u = ground (
  arith,
  new_controller_lem cfg.io_type (GoMap.lookup fid l.disk) cfg.max_log_file_size u.supported,
  u.positive,
)

-- The next file is active and empty, and what was stored stays.
pub record Advances (cfg : Config) (l l' : LogSet) (fid : ℕ) : Type 0 where
  pub ready : Ready cfg l' (opened cfg fid)
  pub keeps : (k offset : ℕ) (e : LogEntry) → Holds l k offset e → Holds l' k offset e
  pub seals : Sealed l l'
  pub same_chan : SameChan l.discard l'.discard

-- Room for one more record in the discard file.
abbrev pub CanCount : Config → LogSet → ℕ → Type 0
CanCount cfg l fid =
    (d : Discard) × (set_total l.discard fid (cfg.max_log_file_size % 2 ^ 32) ≡ ok d)

-- The state after a rotation.
abbrev pub rotated :
    Config → LogSet → LogFile → ConcurrentMap.ConcurrentMap ℕ LogFile → Discard → LogSet
rotated cfg l lf archived d =
    let n = lf.fid + 1 in
    record {
      disk = GoMap.insert n (opened_file cfg l n) l.disk;
      active = some (opened cfg n);
      archived = archived;
      fids = l.fids ++ n ∷ [];
      discard = d;
    }

module _ (cfg : Config) (l : LogSet) (lf : LogFile) (u : IsUsable cfg) (r : Ready cfg l lf)
    (small : lf.fid + 1 < 2 ^ 32) (count : CanCount cfg l (lf.fid + 1)) where
  rotate_runs :
      (a : ConcurrentMap.ConcurrentMap ℕ LogFile)
      → ConcurrentMap.put l.archived lf.fid lf ≡ ok a
      → rotate cfg lf l ≡ (ok (opened cfg (lf.fid + 1)), rotated cfg l lf a count.0)
  unfolding rotate archive set_total_of append_fid set_active
  rotate_runs a e =
      let n : (lf.fid + 1) % 2 ^ 32 ≡ lf.fid + 1 = omega arith in
      rw (n, open_log_lem cfg (lf.fid + 1) l u) (rw (e, archive) (rw (count.1, set_total_of)))

  abbrev Archives : (a : ConcurrentMap.ConcurrentMap ℕ LogFile) → Type 0
  Archives a =
      Laws.IsValid a × ((k : ℕ) → view a k ≡ (if lf.fid == k then some lf else view l.archived k))

  rotated_long :
      (a : ConcurrentMap.ConcurrentMap ℕ LogFile)
      → cfg.max_log_file_size ≤ length (contents (rotated cfg l lf a count.0).disk (lf.fid + 1))
  rotated_long a =
      let n = lf.fid + 1 in
      let file = opened_file cfg l n in
      ground (
        arith,
        contents-insert l.disk n n file,
        length-open_file (GoMap.lookup n l.disk) cfg.max_log_file_size,
      )

  rotated-Ready :
      (a : ConcurrentMap.ConcurrentMap ℕ LogFile)
      → Archives a
      → Ready cfg (rotated cfg l lf a count.0) (opened cfg (lf.fid + 1))
  rotated-Ready a (valid, views) = record {
    is_active = refl;
    same_io = refl;
    long = rotated_long a;
    map_valid = valid;
    own_fid = λ k x h. ground (arith, views k, r.own_fid k x);
    older = λ k x h. ground (arith, views k, r.older k x);
  }

  contents-rotated :
      (a : ConcurrentMap.ConcurrentMap ℕ LogFile) (k : ℕ)
      → k ≤ lf.fid
      → contents (rotated cfg l lf a count.0).disk k ≡ contents l.disk k
  contents-rotated a k h =
      let n = lf.fid + 1 in ground (arith, contents-insert l.disk n k (opened_file cfg l n))

  rotated_finds :
      (a : ConcurrentMap.ConcurrentMap ℕ LogFile) (k : ℕ) (x : LogFile)
      → Archives a
      → find_log_file l k ≡ ok x
      → (find_log_file (rotated cfg l lf a count.0) k ≡ ok x) × (k ≤ lf.fid)
  rotated_finds a k x (valid, views) h =
      let l' = rotated cfg l lf a count.0 in
      let r' = rotated-Ready a (valid, views) in
      elim (find_cases cfg l lf r k x h) [
        | inl (e, same) ↦
            (find_archived cfg l' _ r' k x (ground (arith, views k, e, same)), omega arith)
        | inr (v, lt) ↦ (find_archived cfg l' _ r' k x (ground (arith, views k, v)), omega arith)
      ]

  rotated-Holds :
      (a : ConcurrentMap.ConcurrentMap ℕ LogFile) (k offset : ℕ) (e : LogEntry)
      → Archives a
      → Holds l k offset e
      → Holds (rotated cfg l lf a count.0) k offset e
  rotated-Holds a k offset e arch h =
      let (found, le) = rotated_finds a k h.lf arch h.is_found in
      let same = contents-rotated a k le in
      record {
        lf = h.lf;
        is_found = found;
        named = h.named;
        stands = rw same h.stands;
        readable = rw same h.readable;
        closed = λ x active at. ground arith;
      }

  rotated-Sealed :
      (a : ConcurrentMap.ConcurrentMap ℕ LogFile)
      → Archives a
      → Sealed l (rotated cfg l lf a count.0)
  rotated-Sealed a (valid, views) = record {
    kept = λ k x h.
        let older = r.older k x h in
        (ground (arith, views k, h, older), contents-rotated a k (omega (arith, older)));
  }

  -- A rotation succeeds, and keeps what was stored.
  pub rotate-Advances :
      (l' : LogSet) × (rotate cfg lf l ≡ (ok (opened cfg (lf.fid + 1)), l'))
      × Advances cfg l l' (lf.fid + 1)
  rotate-Advances =
      let (a, e, arch) = put-view l.archived lf.fid lf r.map_valid in
      (
        rotated cfg l lf a count.0,
        rotate_runs a e,
        record {
          ready = rotated-Ready a arch;
          keeps = λ k offset x. rotated-Holds a k offset x arch;
          seals = rotated-Sealed a arch;
          same_chan = set_total-SameChan l.discard _ _ count.0 count.1;
        },
      )
