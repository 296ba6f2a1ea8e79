-- ===== src/Db/Merge/Scan.antt =====
-- The inner loop of `Merge` over a file of entries.
use lazy_db.Prelude.{
  ℕ, zero, suc, ◌+◌, ◌<◌, ◌≤◌, ◌≡◌, ◌⊎◌, sym, ap, ◌∙◌, true, false, none, some, List, [], ◌∷◌, ◌++◌,
  Bytes, length, ◌==◌, ◌||◌, arith, Bool-cases, Option, inl, inr, replicate, append_assoc,
  length-append,
}
use mathlib.Core.Path.{subst}
use lazy_db.Prelude.Res.{Res, ok}
use lazy_db.Prelude.Int.{ℤ}
use lazy_db.Std.GoMap.{nat_eq}
use lazy_db.Ds.Art.{Art}
use lazy_db.Ds.ConcurrentMap.Laws.{view}
use lazy_db.Logfile.{LogFile, read_log_entry}
use lazy_db.Logfile.Entry.{LogEntry, s_delete, max_header_size}
use lazy_db.Logfile.Codec.{entry_bytes, length-entry_bytes}
use lazy_db.Logfile.ReadBack.{stored}
use lazy_db.Db.Store.{Config, LogSet, contents}
use lazy_db.Db.Store.Room.{CanStore}
use lazy_db.Db.Index.{Value}
use lazy_db.Db.Index.Lookup.{Matches}
use lazy_db.Db.Str.{StrDb}
use lazy_db.Db.Str.Models.{Spec, Models}
use lazy_db.Db.Recovery.Replay.{log_bytes, AllWritten, Reads}
use lazy_db.Db.Recovery.NextEntry.{read_next, read_last}
use lazy_db.Db.Merge.{is_dead, merge_str, merge_entry, merge_loop, str_log, with_str_log}
use lazy_db.Db.Merge.Entries.{Live, Merged}
use lazy_db.Db.Merge.Strings.{merge_str-Merged}

-- The index value of a key lies at one of the entries that stand from `o` on: that entry is no
-- deletion, has the key, and is what the abstract store has for it.
abbrev pub Covered : Spec → Bytes → Value → ℕ → List LogEntry → Type 0
Covered f k val o [] = ⊥
Covered f k val o (e ∷ es) =
    ((val.offset ≡ o)
      × (e.key ≡ k)
      × ((e.stat == s_delete) ≡ false)
      × (f k ≡ some (e.value, e.expired_at)))
    ⊎ Covered f k val (o + length (entry_bytes e)) es

-- The index value had expired when its entry was looked at.
abbrev pub Dead : (ℕ → ℤ) → Value → Type 0
Dead clock val = (o : ℕ) × (is_dead val.expired_at (clock o) ≡ true)

Covered-behind :
    (f : Spec) (k : Bytes) (val : Value) (o : ℕ) (es : List LogEntry)
    → Covered f k val o es
    → o ≤ val.offset
Covered-behind f k val o [] h = absurd h
Covered-behind f k val o (e ∷ es) (inl h) = omega (arith, h.0)
Covered-behind f k val o (e ∷ es) (inr h) =
    omega (arith, Covered-behind f k val (o + length (entry_bytes e)) es h)

module _ ⦃art : Art Value⦄ (cfg : Config) (clock : ℕ → ℤ) (lf : LogFile) (f : Spec) where
  -- What holds when the loop is at `o`, in front of the entries `es`.
  pub record AtOffset (file : Bytes) (db : StrDb) (o : ℕ) (es : List LogEntry) : Type 0 where
    pub models : Models cfg db f
    pub sealed : view db.log.archived lf.fid ≡ some lf
    pub same_file : contents db.log.disk lf.fid ≡ file
    pub rest :
        (k : Bytes) (val : Value)
        → art.search db.idx_tree k ≡ some val
        → val.fid ≡ lf.fid
        → (Dead clock val × (val.offset < o)) ⊎ Covered f k val o es

  abbrev pub look : ℕ → LogEntry → StrDb → StrDb
  look o e db = (merge_entry str_log with_str_log (merge_str cfg) clock lf.fid o (stored e) db).1

  -- The entries that are written again can be stored.
  abbrev pub CanMerge : StrDb → ℕ → List LogEntry → Type 0
  CanMerge db o [] = Unit {0}
  CanMerge db o (e ∷ es) =
      CanStore cfg db.log (stored e) × CanMerge (look o e db) (o + length (entry_bytes e)) es

  at-Live :
      (file : Bytes) (db : StrDb) (o : ℕ) (e : LogEntry) (es : List LogEntry)
      → AtOffset file db o (e ∷ es)
      → Live db f lf.fid o e
  at-Live file db o e es a val there at_fid at_o = elim (a.rest e.key val there at_fid) [
    | inl (dead, before) ↦ absurd (omega (arith, before, at_o))
    | inr (inl (_, same, plain, now)) ↦ (plain, now)
    | inr (inr later) ↦ absurd (
        omega (
          arith,
          Covered-behind f e.key val (o + length (entry_bytes e)) es later,
          at_o,
          length-entry_bytes e,
        ))
  ]

  -- The expiry of an index value is that of the abstract store.
  expiry-Matches :
      (l : LogSet) (k : Bytes) (val : Value) (o : Option Value) (x : Option (Bytes × ℤ)) (v : Bytes)
      (t : ℤ)
      → Matches l k o x
      → o ≡ some val
      → x ≡ some (v, t)
      → val.expired_at ≡ t
  expiry-Matches l k val none x v t m h hx = absurd (ground (arith, h))
  expiry-Matches l k val (some w) none v t m h hx = absurd m
  expiry-Matches l k val (some w) (some (b, u)) v t m h hx =
      let same : w ≡ val = ground (arith, h) in
      let time : u ≡ t = ground (arith, hx) in
      sym (ap (λ (x : Value). x.expired_at) same) ∙ m.expiry ∙ time

  -- Behind an entry that is passed over.
  skip-AtOffset :
      (file : Bytes) (db : StrDb) (o : ℕ) (e : LogEntry) (es : List LogEntry)
      → ((e.stat == s_delete || is_dead e.expired_at (clock o)) ≡ true)
      → AtOffset file db o (e ∷ es)
      → AtOffset file db (o + length (entry_bytes e)) es
  skip-AtOffset file db o e es skip a = record {
    models = a.models;
    sealed = a.sealed;
    same_file = a.same_file;
    rest = λ k val there at_fid.
        let more = length-entry_bytes e in
        elim (a.rest k val there at_fid) [
          | inl (dead, before) ↦ inl (dead, omega (arith, before))
          | inr (inl (at, same, plain, now)) ↦
              let time =
                expiry-Matches db.log k val (art.search db.idx_tree k) (f k) e.value e.expired_at
                  (a.models.index k) there now in
              let dead : is_dead e.expired_at (clock o) ≡ true = ground (arith, skip, plain) in
              inl (
                (o, subst (λ t. is_dead t (clock o) ≡ true) (sym time) dead),
                omega (arith, at, more),
              )
          | inr (inr later) ↦ inr later
        ];
  }

  -- Behind an entry that was handed to `mergeStr`.
  Merged-AtOffset :
      (file : Bytes) (db db' : StrDb) (o : ℕ) (e : LogEntry) (es : List LogEntry)
      → AtOffset file db o (e ∷ es)
      → Merged cfg db db' f lf.fid o e
      → AtOffset file db' (o + length (entry_bytes e)) es
  Merged-AtOffset file db db' o e es a g =
      let (sealed, same) = g.seals.kept lf.fid lf a.sealed in
      record {
        models = g.models;
        sealed = sealed;
        same_file = same ∙ a.same_file;
        rest = λ k val there at_fid.
            let (was, away) = g.left k val there at_fid in
            elim (a.rest k val was at_fid) [
              | inl (dead, before) ↦ inl (dead, omega (arith, before))
              | inr (inl (at, own, plain, now)) ↦ absurd (away own at)
              | inr (inr later) ↦ inr later
            ];
      }

  look-AtOffset :
      (file : Bytes) (db : StrDb) (o : ℕ) (e : LogEntry) (es : List LogEntry)
      → AtOffset file db o (e ∷ es)
      → CanStore cfg db.log (stored e)
      → 0 < length e.key + length e.value
      → (db' : StrDb) × (merge_entry str_log with_str_log
            (merge_str cfg)
            clock
            lf.fid
            o
            (stored e)
            db
          ≡ (ok tt, db'))
        × AtOffset file db' (o + length (entry_bytes e)) es
  unfolding merge_entry
  look-AtOffset file db o e es a can some_byte =
      elim (Bool-cases (e.stat == s_delete || is_dead e.expired_at (clock o))) [
        | inl skip ↦ (db, rw skip, skip-AtOffset file db o e es skip a)
        | inr take ↦
            let (db', run, g) =
              merge_str-Merged cfg db f lf.fid o lf e a.models a.sealed can some_byte
                (at-Live file db o e es a) in
            (db', rw take run, Merged-AtOffset file db db' o e es a g)
      ]

  pub merge_loop-AtOffset :
      (es : List LogEntry) (n z : ℕ) (front file : Bytes) (o : ℕ) (db : StrDb)
      → Reads lf.io
      → AllWritten es
      → length es < n
      → max_header_size < z
      → file ≡ front ++ (log_bytes es ++ replicate z 0)
      → o ≡ length front
      → AtOffset file db o es
      → CanMerge db o es
      → (db' : StrDb) × (merge_loop str_log with_str_log (merge_str cfg) clock n lf o db
          ≡ (ok tt, db'))
        × AtOffset file db' (o + length (log_bytes es)) []
  unfolding merge_loop
  merge_loop-AtOffset es zero z front file o db r w more room whole at a can = absurd (omega arith)
  merge_loop-AtOffset [] (suc n) z front file o db r w more room whole at a can =
      let ends =
        ap (λ (b : Bytes). read_log_entry lf.io b o) a.same_file
        ∙ read_last lf.io file front o z r at room whole in
      (db, rw (ends, merge_loop), subst (λ (m : ℕ). AtOffset file db m []) (omega arith) a)
  merge_loop-AtOffset (e ∷ es) (suc n) z front file o db r (able, some_byte, w) more room whole at a
        (can, cans) =
      let b = entry_bytes e in
      let read =
        ap (λ (b : Bytes). read_log_entry lf.io b o) a.same_file
        ∙ read_next lf.io file front o z r at room e es (able, some_byte, w) whole in
      let (db1, run, a1) = look-AtOffset file db o e es a can some_byte in
      let rest : CanMerge db1 (o + length b) es =
        subst (λ (q : Res (Unit {0}) × StrDb). CanMerge q.1 (o + length b) es) run cans in
      let next_whole =
        whole
        ∙ ap (λ r. front ++ r) (append_assoc b (log_bytes es) (replicate z 0))
        ∙ sym (append_assoc front b (log_bytes es ++ replicate z 0)) in
      let (db2, runs, a2) =
        merge_loop-AtOffset es n z (front ++ b) file (o + length b) db1 r w (omega arith) room
          next_whole (omega (arith, at, length-append front b)) a1 rest in
      let sum : o + length b + length (log_bytes es) ≡ o + length (log_bytes (e ∷ es)) =
        omega (arith, length-append b (log_bytes es)) in
      (db2, rw (read, merge_loop) (rw run runs), subst (λ (m : ℕ). AtOffset file db2 m []) sum a2)
