-- ===== src/Db/Merge/Entries.antt =====
-- What the merge of an entry does to the index and to the log files.
use lazy_db.Prelude.{
  ℕ, ◌≡◌, ◌≢◌, sym, ap, ◌∙◌, true, false, some, Bytes, length, ◌==◌, ◌&&◌, if◌then◌else◌, arith,
  Bool-cases, Option-cases, inl, inr, bytes_eq, bytes_eq→eq, bytes_eq_iff,
}
use mathlib.Core.Path.{subst}
use lazy_db.Prelude.Res.{ok}
use lazy_db.Std.GoMap.{nat_eq}
use lazy_db.Ds.Art.{Art}
use lazy_db.Ds.ConcurrentMap.Laws.{view}
use lazy_db.Logfile.{LogFile}
use lazy_db.Logfile.Entry.{LogEntry, s_delete}
use lazy_db.Logfile.Codec.{entry_bytes}
use lazy_db.Db.Store.{Config, LogSet, ValuePos, value_type_string, write_log_entry}
use lazy_db.Db.Store.Valid.{Sealed}
use lazy_db.Db.Store.Room.{Stores}
use lazy_db.Db.Index.{Value, index_size}
use lazy_db.Db.Str.{StrDb}
use lazy_db.Db.Str.Models.{Spec, update, Models}
use lazy_db.Db.Trees.Writes.{indexed, update_index_runs}
use lazy_db.Db.Merge.{rewrite, or_old}

-- The newest position lies in no archived file.
pub newest-other :
    {cfg : Config} {l l' : LogSet} {e : LogEntry} {p : ValuePos} (fid : ℕ) (lf : LogFile)
    → Stores cfg l e p l'
    → view l.archived fid ≡ some lf
    → p.fid ≢ fid
newest-other fid lf s h =
    let v = (s.seals.kept fid lf h).0 in
    elim s.valid [
      | inl fresh ↦ absurd (ground (arith, fresh.no_archived fid, v))
      | inr (a, r) ↦ λ e. omega (arith, s.is_newest a r.is_active, r.older fid lf v, e)
    ]

module _ ⦃art : Art Value⦄ where
  -- The index value that lies at an entry: the entry is what the abstract store has.
  abbrev pub Live : StrDb → Spec → ℕ → ℕ → LogEntry → Type 0
  Live db f fid offset e =
      (val : Value)
      → art.search db.idx_tree e.key ≡ some val
      → val.fid ≡ fid
      → val.offset ≡ offset
      → ((e.stat == s_delete) ≡ false) × (f e.key ≡ some (e.value, e.expired_at))

  -- After an entry was looked at, no index value of its key lies at it.
  pub record Merged (cfg : Config) (db db' : StrDb) (f : Spec) (fid offset : ℕ) (e : LogEntry)
      : Type 0 where
    pub models : Models cfg db' f
    pub seals : Sealed db.log db'.log
    pub left :
        (k : Bytes) (val : Value)
        → art.search db'.idx_tree k ≡ some val
        → val.fid ≡ fid
        → (art.search db.idx_tree k ≡ some val) × (e.key ≡ k → val.offset ≢ offset)

  pub rewrite_miss :
      (cfg : Config) (tree : art.Tree) (fid offset : ℕ) (ent : LogEntry) (l : LogSet)
      → ((val : Value)
          → art.search tree ent.key ≡ some val
          → (val.fid == fid && val.offset == offset) ≡ false)
      → rewrite value_type_string cfg tree fid offset ent l ≡ (ok tree, l)
  unfolding rewrite
  rewrite_miss cfg tree fid offset ent l h = elim (Option-cases (art.search tree ent.key)) [
    | inl e ↦ rw (e, rewrite)
    | inr (val, e) ↦ rw (e, rewrite) (rw (h val e))
  ]

  pub rewrite_hit :
      (cfg : Config) (tree : art.Tree) (fid offset : ℕ) (ent : LogEntry) (l l1 : LogSet)
      (val : Value) (p : ValuePos)
      → art.search tree ent.key ≡ some val
      → (val.fid == fid && val.offset == offset) ≡ true
      → write_log_entry cfg ent l ≡ (ok p, l1)
      → index_size value_type_string ent p ≡ ok (length (entry_bytes ent))
      → rewrite value_type_string cfg tree fid offset ent l
        ≡ (ok (art.insert tree ent.key (indexed ent p (length (entry_bytes ent)))).0, l1)
  unfolding rewrite or_old
  rewrite_hit cfg tree fid offset ent l l1 val p there at wrote sized =
      let size = length (entry_bytes ent) in
      rw (there, rewrite)
        (rw at (
          rw wrote
            (ap (or_old tree) (update_index_runs value_type_string tree ent p size l1 sized))))

  -- The index value is at the entry, or not.
  pub at_entry :
      (val : Value) (fid offset : ℕ)
      → (val.fid == fid && val.offset == offset) ≡ true
      → (val.fid ≡ fid) × (val.offset ≡ offset)
  at_entry val fid offset h = ground (arith, h)

  pub update-same :
      (f : Spec) (e : LogEntry) (k : Bytes)
      → f e.key ≡ some (e.value, e.expired_at)
      → update f e.key (some (e.value, e.expired_at)) k ≡ f k
  update-same f e k h = elim (Bool-cases (bytes_eq e.key k)) [
    | inl same ↦ rw same (sym h ∙ ap f (bytes_eq→eq e.key k same))
    | inr other ↦ rw other
  ]

  pub hit_left :
      (tree : art.Tree) (key : Bytes) (new : Value) (fid offset : ℕ) (k : Bytes) (w : Value)
      → new.fid ≢ fid
      → art.search (art.insert tree key new).0 k ≡ some w
      → w.fid ≡ fid
      → (art.search tree k ≡ some w) × (key ≡ k → w.offset ≢ offset)
  hit_left tree key new fid offset k w other h at =
      let law = art.search-insert tree key new k in
      elim (Bool-cases (bytes_eq key k)) [
        | inl same ↦
            let is_new : some new ≡ some w =
              sym (
                subst
                  (λ b.
                    art.search (art.insert tree key new).0 k
                    ≡ (if b then some new else art.search tree k))
                  same law)
              ∙ h in
            absurd (other (ground (arith, is_new, at)))
        | inr diff ↦ (
          sym (
                subst
                  (λ b.
                    art.search (art.insert tree key new).0 k
                    ≡ (if b then some new else art.search tree k))
                  diff law)
              ∙ h,
          λ e. absurd (ground (arith, bytes_eq_iff key k, e, diff)),
        )
      ]
