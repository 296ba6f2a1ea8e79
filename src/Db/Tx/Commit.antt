-- ===== src/Db/Tx/Commit.antt =====
-- `Commit` of tx.go: five loops over the pending entries, each in a goroutine. Two of them that use
-- one tree, or the map of the active log files while one enters its first file there, are a data
-- race, which is `fatal` here; any others share nothing, and run one after the other.
use lazy_db.Prelude.{
  ℕ, suc, Bool, true, false, none, some, List, [], ◌∷◌, ◌++◌, length, ltb, ◌&&◌, ◌||◌, not,
  if◌then◌else◌,
}
use lazy_db.Prelude.Res.{Res, ok, err, fatal, tx_closed, database_closed}
use lazy_db.Prelude.Exec.{Exec, pure, lift, or_fatal, ◌>>=◌, ◌>>◌}
use lazy_db.Ds.Art.{Art}
use lazy_db.Logfile.Entry.{LogEntry, tx_commited}
use lazy_db.Db.Store.{
  Config, LogSet, ValueType, value_type_string, value_type_list, value_type_hash, value_type_set,
  value_type_zset, write_log_entry,
}
use lazy_db.Db.Index.{Value, plain_entry, encoded_size, update_index_tree}
use lazy_db.Db.Str
use lazy_db.Db.Str.{StrDb, finish_update}
use lazy_db.Db.Trees
use lazy_db.Db.Trees.{TreeDb, update_tree}
use lazy_db.Db.Tx.{Tx, TxDb, Data, PSet, is_committing, release}

-- An error that is not looked at: the nil that came with it is used.
unfoldable pub unchecked {ℓ} : {S A : Type ℓ} → Exec S A → Exec S A
unchecked m s = let (r, s') = m s in (or_fatal r, s')

-- An error that is dropped.
abbrev pub swallow {ℓ} : {S : Type ℓ} → Res (Unit {ℓ}) × S → Res (Unit {ℓ}) × S
swallow (ok u, s) = (ok tt, s)
swallow (err e, s) = (ok tt, s)
swallow (fatal, s) = (fatal, s)

unfoldable pub ignored {ℓ} : {S : Type ℓ} → Exec S (Unit {ℓ}) → Exec S (Unit {ℓ})
ignored m s = swallow (m s)

-- `e.TxStat = logfile.TxCommited`
abbrev pub committed : LogEntry → LogEntry
committed e = record e { tx_stat = tx_commited }

abbrev pub has_any {ℓ} : {A : Type ℓ} → List A → Bool
has_any [] = false
has_any (x ∷ xs) = true

abbrev pub when {ℓ} : {A : Type ℓ} → Bool → A → List A
when true a = a ∷ []
when false a = []

-- How many goroutines use the tree of the strings.
unfoldable pub on_tree : List (Bool × LogSet) → ℕ
on_tree [] = 0
on_tree ((true, l) ∷ work) = suc (on_tree work)
on_tree ((false, l) ∷ work) = on_tree work

-- Whether some type has no active log file: `getActiveLogFile` makes one and enters it into the map.
unfoldable pub makes_first : List (Bool × LogSet) → Bool
makes_first [] = false
makes_first ((b, l) ∷ work) =
    let rest = makes_first work in elim l.active [ none ↦ true | some lf ↦ rest ]

module _ ⦃art : Art Value⦄ where
  -- A round of the loops over entries: the log files are those of the type, the tree is that of
  -- the strings.
  unfoldable pub commit_entry : ValueType → Config → LogEntry → Exec StrDb (Unit {0})
  commit_entry typ cfg e = do
    value_pos ← unchecked (Str.on_log (write_log_entry cfg (committed e)))
    ignored (λ db.
        finish_update db (update_index_tree typ db.idx_tree (committed e) value_pos true db.log))

  unfoldable pub commit_entries : ValueType → Config → List LogEntry → Exec StrDb (Unit {0})
  commit_entries typ cfg [] = pure tt
  commit_entries typ cfg (e ∷ es) = do commit_entry typ cfg e; commit_entries typ cfg es

  -- A round of the loop over the members of sets.
  unfoldable pub commit_member : Config → PSet → Exec TreeDb (Unit {0})
  commit_member cfg ps = do
    value_pos ← unchecked (Trees.on_log (write_log_entry cfg (committed ps.e)))
    size ← lift (encoded_size (committed ps.e))
    ignored (
        update_tree value_type_set ps.e.key (plain_entry ps.sum ps.mem)
          (record value_pos { entry_size = size }))

  unfoldable pub commit_members : Config → List PSet → Exec TreeDb (Unit {0})
  commit_members cfg [] = pure tt
  commit_members cfg (ps ∷ pss) = do commit_member cfg ps; commit_members cfg pss

  -- The loops, each on the part of the database that it writes to.
  abbrev pub on_strings : Exec StrDb (Unit {0}) → Exec Data (Unit {0})
  on_strings m c = let (r, s) = m c.strings in (r, record c { strings = s })

  abbrev pub on_lists : Exec StrDb (Unit {0}) → Exec Data (Unit {0})
  on_lists m c =
      let (r, s) = m (record { idx_tree = c.strings.idx_tree; log = c.lists }) in
      (r, record c { strings = record c.strings { idx_tree = s.idx_tree }; lists = s.log })

  abbrev pub on_hashes : Exec StrDb (Unit {0}) → Exec Data (Unit {0})
  on_hashes m c =
      let (r, s) = m (record { idx_tree = c.strings.idx_tree; log = c.hashes }) in
      (r, record c { strings = record c.strings { idx_tree = s.idx_tree }; hashes = s.log })

  abbrev pub on_sets : Exec TreeDb (Unit {0}) → Exec Data (Unit {0})
  on_sets m c = let (r, s) = m c.sets in (r, record c { sets = s })

  abbrev pub on_zsets : Exec StrDb (Unit {0}) → Exec Data (Unit {0})
  on_zsets m c =
      let (r, s) = m (record { idx_tree = c.strings.idx_tree; log = c.zsets }) in
      (r, record c { strings = record c.strings { idx_tree = s.idx_tree }; zsets = s.log })

  unfoldable pub run_all : Config → Tx → Exec Data (Unit {0})
  unfolding commit_entries commit_members
  run_all cfg tx = do
    on_strings (commit_entries value_type_string cfg tx.pending_str)
    on_lists (commit_entries value_type_list cfg tx.pending_list)
    on_hashes (commit_entries value_type_hash cfg tx.pending_hash)
    on_sets (commit_members cfg tx.pending_set)
    on_zsets (commit_entries value_type_zset cfg tx.pending_zset)

  -- The goroutines that have entries: for each, whether it uses the tree of the strings, and the log
  -- files of its type.
  unfoldable pub working : Tx → Data → List (Bool × LogSet)
  working tx c =
      when (has_any tx.pending_str) (true, c.strings.log)
      ++ (when (has_any tx.pending_list) (true, c.lists)
          ++ (when (has_any tx.pending_hash) (true, c.hashes)
              ++ (when (has_any tx.pending_set) (false, c.sets.log)
                  ++ when (has_any tx.pending_zset) (true, c.zsets))))

  -- Two goroutines share a tree, or two read `activeLogFileMap` while one of them writes it.
  unfoldable pub races : Tx → Data → Bool
  races tx c =
      let work = working tx c in ltb 1 (on_tree work) || ltb 1 (length work) && makes_first work

  -- The five goroutines; what a data race does is left open by Go, and stands as the end of the
  -- process here.
  unfoldable pub commit_all : Config → Tx → Exec Data (Unit {0})
  commit_all cfg tx c = if races tx c then (fatal, c) else run_all cfg tx c

  -- `wg.Wait()` and what follows it.
  unfoldable pub finish_commit : Tx → TxDb → Res (Unit {0}) × Data → Res (Unit {0}) × (Tx × TxDb)
  finish_commit tx db (ok u, c) = release (tx, record db { content = c })
  finish_commit tx db (err e, c) = (err e, (tx, record db { content = c }))
  finish_commit tx db (fatal, c) = (fatal, (tx, record db { content = c }))

  -- `Commit`
  unfoldable pub commit : Config → Exec (Tx × TxDb) (Unit {0})
  commit cfg (tx, db) =
      if not tx.has_db
      then (err tx_closed, (tx, db))
      else if db.closed
      then (err database_closed, (tx, db))
      else if is_committing tx.status
      then (ok tt, (tx, db))
      else finish_commit tx db (commit_all cfg tx db.content)
