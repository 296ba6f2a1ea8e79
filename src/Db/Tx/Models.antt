-- ===== src/Db/Tx/Models.antt =====
-- The loops of `Commit` against the abstract stores.
use lazy_db.Prelude.{ℕ, ◌+◌, ◌<◌, ◌≡◌, refl, sym, ◌∙◌, ap, false, List, [], ◌∷◌, length, ◌==◌, some}
use mathlib.Core.Path.{subst}
use lazy_db.Prelude.Res.{Res, ok}
use lazy_db.Prelude.Exec.{Exec, bind-ok}
use lazy_db.Ds.Art.{Art}
use lazy_db.Logfile.Entry.{LogEntry, s_delete}
use lazy_db.Logfile.Codec.{entry_bytes}
use lazy_db.Db.Store.{Config, ValuePos, value_type_string, value_type_set, write_log_entry}
use lazy_db.Db.Store.Room.{CanStore}
use lazy_db.Db.Store.Write.{write_log_entry-Stores}
use lazy_db.Db.Index.{Value, plain_entry, index_size}
use lazy_db.Db.Str
use lazy_db.Db.Str.{StrDb, finish_update, update_str}
use lazy_db.Db.Str.Models.{Spec, update, Models, ChanRoom, stored-Models, encoded_size_lem}
use lazy_db.Prelude.Int.{pos}
use lazy_db.Db.Trees
use lazy_db.Db.Trees.{TreeDb, tree_of}
use lazy_db.Db.Trees.Models.{Specs, update_at, TreesModel}
use lazy_db.Db.Trees.Writes.{update_tree-Models}
use lazy_db.Db.Tx.{PSet}
use lazy_db.Db.Tx.Commit.{
  committed, commit_entry, commit_entries, commit_member, commit_members, unchecked, ignored,
  swallow,
}

-- What the abstract store is after the pending entries.
abbrev pub apply_entries : Spec → List LogEntry → Spec
apply_entries f [] = f
apply_entries f (e ∷ es) = apply_entries (update f e.key (some (e.value, e.expired_at))) es

-- What the abstract sets are after the pending members.
abbrev pub apply_members : Specs → List PSet → Specs
apply_members g [] = g
apply_members g (ps ∷ pss) =
    apply_members (update_at g ps.e.key ps.sum (some (ps.e.value, ps.e.expired_at))) pss

unchecked-ok {ℓ} :
    {S A : Type ℓ} (m : Exec S A) (s s' : S) (a : A) → m s ≡ (ok a, s') → unchecked m s ≡ (ok a, s')
unfolding unchecked
unchecked-ok m s s' a e = rw e

ignored-ok {ℓ} :
    {S : Type ℓ} (m : Exec S (Unit {ℓ})) (s s' : S) → m s ≡ (ok tt, s') → ignored m s ≡ (ok tt, s')
unfolding ignored
ignored-ok m s s' e = ap swallow e

module _ ⦃art : Art Value⦄ where
  -- What the commit of one entry asks of the database.
  abbrev pub CanCommit : Config → StrDb → LogEntry → Type 0
  CanCommit cfg db e =
      CanStore cfg db.log (committed e)
      × (0 < length e.key + length e.value)
      × ((e.stat == s_delete) ≡ false)
      × ChanRoom db 1

  -- The same of all pending entries, each in the state that those before it leave.
  abbrev pub CanCommitAll : Config → StrDb → List LogEntry → Type 0
  CanCommitAll cfg db [] = Unit {0}
  CanCommitAll cfg db (e ∷ es) =
      CanCommit cfg db e × CanCommitAll cfg (commit_entry value_type_string cfg e db).1 es

  commit_entry-Models :
      (cfg : Config) (db : StrDb) (f : Spec) (e : LogEntry)
      → Models cfg db f
      → CanCommit cfg db e
      → (db' : StrDb) × (commit_entry value_type_string cfg e db ≡ (ok tt, db'))
        × Models cfg db' (update f e.key (some (e.value, e.expired_at)))
  unfolding commit_entry update_str
  commit_entry-Models cfg db f e m can =
      let (p, l1, db', wrote, updated, m') =
        stored-Models cfg db f (committed e) m can.0 can.1 can.2 can.3 in
      (
        db',
        bind-ok (unchecked (Str.on_log (write_log_entry cfg (committed e)))) _ db
              (record db { log = l1 }) p (unchecked-ok _ db (record db { log = l1 }) p (rw wrote))
            ∙ ignored-ok _ (record db { log = l1 }) db' updated,
        m',
      )

  pub commit_entries-Models :
      (cfg : Config) (db : StrDb) (f : Spec) (es : List LogEntry)
      → Models cfg db f
      → CanCommitAll cfg db es
      → (db' : StrDb) × (commit_entries value_type_string cfg es db ≡ (ok tt, db'))
        × Models cfg db' (apply_entries f es)
  unfolding commit_entries
  commit_entries-Models cfg db f [] m can = (db, refl, m)
  commit_entries-Models cfg db f (e ∷ es) m can =
      let (db1, run, m1) = commit_entry-Models cfg db f e m can.0 in
      let rest : CanCommitAll cfg db1 es =
        subst (λ (r : Res (Unit {0}) × StrDb). CanCommitAll cfg r.1 es) run can.1 in
      let (db2, runs, m2) =
        commit_entries-Models cfg db1 (update f e.key (some (e.value, e.expired_at))) es m1 rest in
      (db2, bind-ok (commit_entry value_type_string cfg e) _ db db1 tt run ∙ runs, m2)

  -- What the commit of one member of a set asks of the database.
  abbrev pub CanAdd : Config → TreeDb → PSet → Type 0
  CanAdd cfg db ps =
      CanStore cfg db.log (committed ps.e)
      × (0 < length ps.e.key + length ps.e.value)
      × ((ps.e.stat == s_delete) ≡ false)
      × (ps.e.expired_at ≡ pos 0)
      × ((tree : art.Tree) × (tree_of db ps.e.key ≡ some tree))

  abbrev pub CanAddAll : Config → TreeDb → List PSet → Type 0
  CanAddAll cfg db [] = Unit {0}
  CanAddAll cfg db (ps ∷ pss) = CanAdd cfg db ps × CanAddAll cfg (commit_member cfg ps db).1 pss

  size_in_set :
      (e : LogEntry) (p : ValuePos) (size : ℕ)
      → index_size value_type_set e (record p { entry_size = size }) ≡ ok size
  unfolding index_size
  size_in_set e p size = refl

  commit_member-Models :
      (cfg : Config) (db : TreeDb) (g : Specs) (ps : PSet)
      → TreesModel cfg db g
      → CanAdd cfg db ps
      → (db' : TreeDb) × (commit_member cfg ps db ≡ (ok tt, db'))
        × TreesModel cfg db' (update_at g ps.e.key ps.sum (some (ps.e.value, ps.e.expired_at)))
  unfolding commit_member
  commit_member-Models cfg db g ps m (can, some_byte, plain, time, (tree, there)) =
      let e = committed ps.e in
      let i = plain_entry ps.sum ps.mem in
      let (p, l1, wrote, s) = write_log_entry-Stores cfg db.log e m.valid can in
      let n = length (entry_bytes e) in
      let (db', runs, m') =
        update_tree-Models value_type_set cfg db g ps.e.key e i p (record p { entry_size = n }) n l1
          tree there m s can.encodable some_byte plain (sym time) (size_in_set i p n) refl refl in
      (
        db',
        bind-ok (unchecked (Trees.on_log (write_log_entry cfg e))) _ db (record db { log = l1 }) p
              (unchecked-ok _ db (record db { log = l1 }) p (rw wrote))
            ∙ rw (encoded_size_lem e can.encodable)
                (ignored-ok _ (record db { log = l1 }) db' runs),
        m',
      )

  pub commit_members-Models :
      (cfg : Config) (db : TreeDb) (g : Specs) (pss : List PSet)
      → TreesModel cfg db g
      → CanAddAll cfg db pss
      → (db' : TreeDb) × (commit_members cfg pss db ≡ (ok tt, db'))
        × TreesModel cfg db' (apply_members g pss)
  unfolding commit_members
  commit_members-Models cfg db g [] m can = (db, refl, m)
  commit_members-Models cfg db g (ps ∷ pss) m can =
      let (db1, run, m1) = commit_member-Models cfg db g ps m can.0 in
      let rest : CanAddAll cfg db1 pss =
        subst (λ (r : Res (Unit {0}) × TreeDb). CanAddAll cfg r.1 pss) run can.1 in
      let (db2, runs, m2) =
        commit_members-Models cfg db1
          (update_at g ps.e.key ps.sum (some (ps.e.value, ps.e.expired_at))) pss m1 rest in
      (db2, bind-ok (commit_member cfg ps) _ db db1 tt run ∙ runs, m2)
