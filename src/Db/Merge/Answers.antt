-- ===== src/Db/Merge/Answers.antt =====
-- `Merge` of a file of strings: what every key answers is as before.
use lazy_db.Prelude.{
  ℕ, ◌+◌, ◌<◌, ◌≡◌, ◌≢◌, ◌⊎◌, refl, sym, ap, ◌∙◌, true, Option, none, some, List, [], ◌++◌, Bytes,
  length, ◌==◌, if◌then◌else◌, arith, Bool-cases, inl, inr, replicate, length-append,
}
use lazy_db.Prelude.Res.{ok}
use lazy_db.Prelude.Int.{ℤ, ltb_ℤ}
use lazy_db.Std.GoMap
use lazy_db.Std.GoMap.{nat_eq, lookup-remove}
use lazy_db.Ds.Art.{Art}
use lazy_db.Ds.ConcurrentMap.{ConcurrentMap}
use lazy_db.Ds.ConcurrentMap.Laws
use lazy_db.Ds.ConcurrentMap.Laws.{view, get_lem, remove-view}
use lazy_db.Logfile.{LogFile}
use lazy_db.Logfile.Entry.{LogEntry, max_header_size}
use lazy_db.Db.Store.{Config, LogSet, contents, find_log_file, get_archived_log_file}
use lazy_db.Db.Store.Valid.{IsValid, Holds}
use lazy_db.Db.Index.{Value, has_expired, get_value_at, get_value}
use lazy_db.Db.Index.Lookup.{Matches, reply, get_value_at-reply}
use lazy_db.Db.Str.{StrDb, get}
use lazy_db.Db.Str.Models.{Spec, Models}
use lazy_db.Db.Recovery.Replay.{log_bytes, AllWritten, Reads}
use lazy_db.Db.Recovery.Rebuild.{length-log_bytes}
use lazy_db.Db.Merge.{is_dead, merge_str, delete_file, merge_file, str_log, with_str_log}
use lazy_db.Db.Merge.Scan.{Covered, Dead, AtOffset, CanMerge, merge_loop-AtOffset}

-- What was dead at a second has expired at every later one.
dead-expired : (t c ts : ℤ) → is_dead t c ≡ true → ltb_ℤ c ts ≡ true → has_expired t ts ≡ true
dead-expired t c ts dead later = ground (arith, dead, later)

-- The log files without an archived one.
abbrev without : LogSet → ℕ → ConcurrentMap ℕ LogFile → LogSet
without l fid archived = record l { archived = archived; disk = GoMap.remove fid l.disk }

-- The archive lost a file.
abbrev Lost : LogSet → ℕ → ConcurrentMap ℕ LogFile → Type 0
Lost l fid archived =
    Laws.IsValid l.archived
    × Laws.IsValid archived
    × ((k : ℕ) → view archived k ≡ (if fid == k then none else view l.archived k))

module _ (l : LogSet) (fid : ℕ) (archived : ConcurrentMap ℕ LogFile)
    (lost : Lost l fid archived) where
  find-without :
      (k : ℕ) (a : LogFile)
      → k ≢ fid
      → find_log_file l k ≡ ok a
      → find_log_file (without l fid archived) k ≡ ok a
  unfolding find_log_file get_archived_log_file
  find-without k a other h =
      ground (arith, h, get_lem l.archived k lost.0, get_lem archived k lost.1, lost.2 k)

  contents-without :
      (k : ℕ) → k ≢ fid → contents (without l fid archived).disk k ≡ contents l.disk k
  unfolding contents
  contents-without k other = ground (arith, lookup-remove fid k l.disk)

  Holds-without :
      (k offset : ℕ) (e : LogEntry)
      → k ≢ fid
      → Holds l k offset e
      → Holds (without l fid archived) k offset e
  Holds-without k offset e other h =
      let same = contents-without k other in
      record {
        lf = h.lf;
        is_found = find-without k h.lf other h.is_found;
        named = h.named;
        stands = rw same h.stands;
        readable = rw same h.readable;
        closed = h.closed;
      }

  -- A lookup through an index value that lies in another file, or had expired.
  get_value_at-without :
      (ts : ℤ) (key : Bytes) (o : Option Value) (x : Option (Bytes × ℤ))
      → Matches l key o x
      → ((val : Value) → o ≡ some val → (val.fid ≢ fid) ⊎ (has_expired val.expired_at ts ≡ true))
      → get_value_at ts (without l fid archived) o ≡ reply ts x
  unfolding get_value_at
  get_value_at-without ts key none none m h = refl
  get_value_at-without ts key none (some x) m h = absurd m
  get_value_at-without ts key (some val) none m h = absurd m
  get_value_at-without ts key (some val) (some (v, t)) m h = elim (h val refl) [
    | inl other ↦
        get_value_at-reply ts (without l fid archived) key (some val) (some (v, t)) (record {
          e = m.e;
          held = Holds-without val.fid val.offset m.e other m.held;
          expiry = m.expiry;
          encodable = m.encodable;
          some_byte = m.some_byte;
          plain = m.plain;
          has_value = m.has_value;
          has_expiry = m.has_expiry;
        })
    | inr old ↦
        let old' : has_expired t ts ≡ true = ap (λ x. has_expired x ts) (sym m.expiry) ∙ old in
        rw (old, old') refl
  ]

delete_file_lem :
    (l : LogSet) (fid : ℕ) (lf : LogFile)
    → Laws.IsValid l.archived
    → lf.fid ≡ fid
    → view l.archived fid ≡ some lf
    → (archived : ConcurrentMap ℕ LogFile) × (delete_file fid l ≡ (ok tt, without l fid archived))
      × Lost l fid archived
unfolding delete_file get_archived_log_file
delete_file_lem l fid lf valid named there =
    let (archived, removed, (valid', views)) = remove-view l.archived fid valid in
    (
      archived,
      rw (get_lem l.archived fid valid ∙ ap ok there, delete_file)
          (rw (removed, delete_file) (rw named refl)),
      (valid, valid', views),
    )

archive-IsValid : (cfg : Config) (l : LogSet) → IsValid cfg l → Laws.IsValid l.archived
archive-IsValid cfg l (inl f) = f.map_valid
archive-IsValid cfg l (inr (lf, r)) = r.map_valid

module _ ⦃art : Art Value⦄ where
  -- On a database of strings that stands for an abstract store, the merge of an archived file
  -- that holds entries from its start on and more than 25 zeros behind them, and can be read,
  -- succeeds; the file is gone from the disk and from the archive, and in every second after
  -- those in which the entries were looked at, a lookup of any key answers as the abstract
  -- store does; an index value in that file lies at an entry of its key that is no deletion and
  -- is what the store has, and each entry can be stored when its turn comes.
  pub merge_file-answers :
      (cfg : Config) (clock : ℕ → ℤ) (lf : LogFile) (f : Spec) (db : StrDb) (es : List LogEntry)
      (z : ℕ) (key : Bytes) (ts : ℤ)
      → Models cfg db f
      → view db.log.archived lf.fid ≡ some lf
      → contents db.log.disk lf.fid ≡ log_bytes es ++ replicate z 0
      → Reads lf.io
      → AllWritten es
      → max_header_size < z
      → ((k : Bytes) (val : Value)
          → art.search db.idx_tree k ≡ some val
          → val.fid ≡ lf.fid
          → Covered f k val 0 es)
      → CanMerge cfg clock lf f db 0 es
      → ((o : ℕ) → ltb_ℤ (clock o) ts ≡ true)
      → (db' : StrDb) × (merge_file str_log with_str_log (merge_str cfg) clock lf.fid lf db
          ≡ (ok tt, db'))
        × (get key ts db' ≡ (reply ts (f key), db'))
        × (view db'.log.archived lf.fid ≡ none)
        × (GoMap.lookup lf.fid db'.log.disk ≡ none)
  unfolding merge_file get get_value
  merge_file-answers cfg clock lf f db es z key ts m sealed whole r w room covered can later =
      let file = contents db.log.disk lf.fid in
      let rounds : length es < length file + 1 = omega (
        arith,
        length-append (log_bytes es) (replicate z 0),
        ap (λ (b : Bytes). length b) whole,
        length-log_bytes es,
      ) in
      let start : AtOffset cfg clock lf f file db 0 es = record {
        models = m;
        sealed = sealed;
        same_file = refl;
        rest = λ k val there at_fid. inr (covered k val there at_fid);
      } in
      let (db1, run, a) =
        merge_loop-AtOffset cfg clock lf f es (length file + 1) z [] file 0 db r w rounds room whole
          refl start can in
      let gone : (val : Value)
          → (val.fid ≡ lf.fid → (Dead clock val × (val.offset < 0 + length (log_bytes es))) ⊎ ⊥)
          → (val.fid ≢ lf.fid) ⊎ (has_expired val.expired_at ts ≡ true) =
        λ val h. elim (Bool-cases (val.fid == lf.fid)) [
          | inl same ↦ elim (h (ground (arith, same))) [
            | inl ((o, dead), before) ↦
                inr (dead-expired val.expired_at (clock o) ts dead (later o))
            | inr never ↦ absurd never
          ]
          | inr other ↦ inl (λ e. absurd (ground (arith, e, other)))
        ] in
      let (archived, deleted, lost) =
        delete_file_lem db1.log lf.fid lf (archive-IsValid cfg db1.log a.models.valid) refl
          a.sealed in
      (
        record db1 { log = without db1.log lf.fid archived },
        rw run (rw deleted),
        ap (λ q. (q, record db1 { log = without db1.log lf.fid archived }))
            (get_value_at-without db1.log lf.fid archived lost ts key (art.search db1.idx_tree key)
              (f key) (a.models.index key) (λ val there. gone val (a.rest key val there))),
        ground (arith, lost.2 lf.fid),
        ground (arith, lookup-remove lf.fid lf.fid db1.log.disk),
      )
