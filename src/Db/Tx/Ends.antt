-- ===== src/Db/Tx/Ends.antt =====
-- `Commit` and `Rollback` as a whole, against the abstract stores.
use lazy_db.Prelude.{◌≡◌, inl, inr, refl, ◌∙◌, ap, false, true, [], arith}
use lazy_db.Prelude.Res.{ok, err, tx_closed, Res-cases}
use lazy_db.Ds.Art.{Art}
use lazy_db.Db.Store.{Config, value_type_string}
use lazy_db.Db.Index.{Value}
use lazy_db.Db.Str.{StrDb}
use lazy_db.Db.Str.Models.{Spec, Models}
use lazy_db.Db.Trees.{TreeDb}
use lazy_db.Db.Trees.Models.{Specs, TreesModel}
use lazy_db.Db.Tx.{Tx, TxDb, Data, RwMutex, pending, release, rollback, unlock, ended}
use lazy_db.Db.Tx.Commit.{
  commit_entries, commit_members, races, run_all, commit_all, commit, finish_commit,
}
use lazy_db.Db.Tx.Models.{
  apply_entries, apply_members, CanCommitAll, commit_entries-Models, CanAddAll,
  commit_members-Models,
}

module _ ⦃art : Art Value⦄ where
  commit_all_lem :
      (cfg : Config) (tx : Tx) (c : Data) (s : StrDb) (t : TreeDb)
      → races tx c ≡ false
      → tx.pending_list ≡ []
      → tx.pending_hash ≡ []
      → tx.pending_zset ≡ []
      → commit_entries value_type_string cfg tx.pending_str c.strings ≡ (ok tt, s)
      → commit_members cfg tx.pending_set c.sets ≡ (ok tt, t)
      → commit_all cfg tx c ≡ (ok tt, record c { strings = s; sets = t })
  unfolding commit_all run_all commit_entries
  commit_all_lem cfg tx c s t alone no_list no_hash no_zset run_s run_t =
      rw alone (rw run_s (rw (no_list, no_hash) (rw run_t (rw no_zset))))

  finish_commit_lem :
      (tx : Tx) (db : TxDb) (c : Data) (mu : RwMutex)
      → unlock tx.t_type db.mu ≡ ok mu
      → finish_commit tx db (ok tt, c) ≡ (ok tt, (ended tx, record db { mu = mu; content = c }))
  unfolding finish_commit release
  finish_commit_lem tx db c mu held = rw (held, release)

  commit_lem :
      (cfg : Config) (tx : Tx) (db : TxDb)
      → tx.has_db ≡ true
      → db.closed ≡ false
      → tx.status ≡ pending
      → commit cfg (tx, db) ≡ finish_commit tx db (commit_all cfg tx db.content)
  unfolding commit
  commit_lem cfg tx db up is_up waits = ground (arith, up, is_up, waits)

  -- `Commit` of an open transaction that is not being committed, with entries pending for the
  -- strings and the sets alone, on an open database whose strings stand for `f` and whose sets
  -- stand for `g`: where no two of the goroutines race (only one has entries, or the strings
  -- and the sets have an active log file, so that none enters a first file into the map of the
  -- active files) and the lock is held, it succeeds, applies the pending entries to `f` and the
  -- pending members to `g` in their order, leaves the log files of the other types, releases
  -- the lock and leaves a transaction that has ended; when its turn comes, each entry can be
  -- stored, is no deletion, has a key or a value that is not empty, one of the strings finds
  -- room for a value in the discard channel, and one of a member does not expire and finds a
  -- tree of its key.
  pub commit-Models :
      (cfg : Config) (tx : Tx) (db : TxDb) (f : Spec) (g : Specs) (mu : RwMutex)
      → tx.has_db ≡ true
      → db.closed ≡ false
      → tx.status ≡ pending
      → tx.pending_list ≡ []
      → tx.pending_hash ≡ []
      → tx.pending_zset ≡ []
      → races tx db.content ≡ false
      → unlock tx.t_type db.mu ≡ ok mu
      → Models cfg db.content.strings f
      → TreesModel cfg db.content.sets g
      → CanCommitAll cfg db.content.strings tx.pending_str
      → CanAddAll cfg db.content.sets tx.pending_set
      → (c : Data) × (commit cfg (tx, db) ≡ (ok tt, (ended tx, record db { mu = mu; content = c })))
        × Models cfg c.strings (apply_entries f tx.pending_str)
        × TreesModel cfg c.sets (apply_members g tx.pending_set)
        × (c.lists ≡ db.content.lists)
        × (c.hashes ≡ db.content.hashes)
        × (c.zsets ≡ db.content.zsets)
  commit-Models cfg tx db f g mu up is_up waits no_list no_hash no_zset alone held m n can_set
        can_add =
      let (s, run_s, ms) =
        commit_entries-Models cfg db.content.strings f tx.pending_str m can_set in
      let (t, run_t, mt) = commit_members-Models cfg db.content.sets g tx.pending_set n can_add in
      (
        record db.content { strings = s; sets = t },
        commit_lem cfg tx db up is_up waits
            ∙ ap (finish_commit tx db)
                (commit_all_lem cfg tx db.content s t alone no_list no_hash no_zset run_s run_t)
            ∙ finish_commit_lem tx db (record db.content { strings = s; sets = t }) mu held,
        ms,
        mt,
        refl,
        refl,
        refl,
      )

  -- `Rollback` that succeeds leaves the content of the database as it was, and after it both
  -- `Commit` and `Rollback` of the transaction answer `ErrTxClosed` and change nothing.
  pub rollback_ends :
      (cfg : Config) (tx tx' : Tx) (db db' : TxDb)
      → rollback (tx, db) ≡ (ok tt, (tx', db'))
      → (db'.content ≡ db.content)
        × (commit cfg (tx', db') ≡ (err tx_closed, (tx', db')))
        × (rollback (tx', db') ≡ (err tx_closed, (tx', db')))
  unfolding rollback release commit
  rollback_ends cfg tx tx' db db' e = elim (Res-cases (unlock tx.t_type db.mu)) [
    | inl (mu, h) ↦ ground (arith, e, h)
    | inr (inl (x, h)) ↦ absurd (ground (arith, e, h))
    | inr (inr h) ↦ absurd (ground (arith, e, h))
  ]
