-- ===== src/Tests/Transactions.antt =====
-- A transaction with one value and one member of a set pending.
use lazy_db.Prelude.{inr, ◌≡◌, refl, false, true, ◌⊎◌, [], ◌∷◌, arith}
use lazy_db.Prelude.Res.{ok, err, tx_closed}
use lazy_db.Logfile.Entry.{LogEntry}
use lazy_db.Db.Index.{plain_entry}
use lazy_db.Db.Store.Room.{CanStore}
use lazy_db.Db.Str.Models.{Models}
use lazy_db.Db.Trees.Models.{TreesModel}
use lazy_db.Db.Tx.{
  Tx, TxDb, Data, PSet, RwMutex, rtx, rwtx, pending, begin, rollback, release, unlock, ended, lock,
  enter, new_tx, returned,
}
use lazy_db.Db.Tx.Commit.{commit, committed, races, working, on_tree, makes_first}
use lazy_db.Db.Tx.Locks.{Reach, here, next, begins, held}
use lazy_db.Db.Tx.Exclusion.{begin_proceeds, tx_exclusion}
use lazy_db.Db.Tx.Models.{apply_entries, apply_members}
use lazy_db.Db.Tx.Ends.{commit-Models, rollback_ends}
use lazy_db.Tests.{cfg, log0, key0, value0, trees, db0}
use lazy_db.Tests.Hashes.{tree_db, nothing, specs, has_tree}
use lazy_db.Tests.Merges.{new, log2, db2, spec2, log2-Ready, db2-Models, log2-CanStore}
use lazy_db.Std.GoMap
use lazy_db.Std.GoMap.{GoMap, bytes_eq_keys}
use lazy_db.Logfile.Limits.{small-IsEncodable}
use lazy_db.Db.Index.Lookup.{Follows-refl}
use lazy_db.Db.Trees.{TreeDb}
use lazy_db.Db.Trees.Models.{exchange}

abbrev content0 : Data ⦃art = trees⦄
content0 = record { strings = db0; lists = log0; hashes = log0; sets = tree_db; zsets = log0 }

abbrev mutex0 : RwMutex
mutex0 = record {
  readers = 0;
  writing = false;
  blocked = 0;
  admitted = 0;
  queue = 0;
  announced = false;
}

abbrev locked : RwMutex
locked = record mutex0 { writing = true }

abbrev opened : TxDb ⦃art = trees⦄
opened = record { mu = locked; closed = false; content = content0 }

abbrev empty_tx : Tx
empty_tx = record {
  id = 7;
  has_db = true;
  t_type = rwtx;
  status = pending;
  pending_str = [];
  pending_list = [];
  pending_set = [];
  pending_hash = [];
  pending_zset = [];
}

abbrev entry0 : LogEntry
entry0 = plain_entry key0 value0

abbrev member0 : PSet
member0 = record { e = entry0; sum = value0; mem = value0 }

abbrev full_tx : Tx
full_tx = record empty_tx { pending_str = entry0 ∷ []; pending_set = member0 ∷ [] }

entry0-CanStore : CanStore cfg log2 (committed entry0)
entry0-CanStore = log2-CanStore (committed entry0) (
    small-IsEncodable (committed entry0) refl (omega arith) 0 refl (omega arith) (omega arith)
      (omega arith))

-- Strings and sets that have active files.
abbrev no_sets : TreeDb ⦃art = trees⦄
no_sets = record { trees = []; log = log2 }

abbrev sets2 : TreeDb ⦃art = trees⦄
sets2 = record { trees = GoMap.insert key0 trees.new []; log = log2 }

sets2-Models : TreesModel ⦃art = trees⦄ cfg sets2 specs
unfolding GoMap.lookup
sets2-Models =
    exchange ⦃art = trees⦄ cfg no_sets log2 (λ j. nothing) key0 trees.new nothing 0
      (record { valid = inr (new, log2-Ready); index = λ key k. refl })
      (Follows-refl (inr (new, log2-Ready)) 0) (λ k. tt)

abbrev content2 : Data ⦃art = trees⦄
content2 = record content0 { strings = db2; sets = sets2 }

abbrev opened2 : TxDb ⦃art = trees⦄
opened2 = record opened { content = content2 }

no_race : races ⦃art = trees⦄ full_tx content2 ≡ false
unfolding races working on_tree makes_first
no_race = refl

commit-Models_example :
    (c : Data ⦃art = trees⦄) × (commit ⦃art = trees⦄ cfg (full_tx, opened2)
      ≡ (ok tt, (ended full_tx, record opened2 { mu = mutex0; content = c })))
    × Models ⦃art = trees⦄ cfg c.strings (apply_entries spec2 (entry0 ∷ []))
    × TreesModel ⦃art = trees⦄ cfg c.sets (apply_members specs (member0 ∷ []))
    × (c.lists ≡ log0)
    × (c.hashes ≡ log0)
    × (c.zsets ≡ log0)
unfolding unlock
commit-Models_example =
    commit-Models ⦃art = trees⦄ cfg full_tx opened2 spec2 specs mutex0 refl refl refl refl refl refl
      no_race refl db2-Models sets2-Models ((entry0-CanStore, omega arith, refl, omega arith), tt)
      ((entry0-CanStore, omega arith, refl, refl, (trees.new, has_tree)), tt)

begun : Reach ⦃art = trees⦄ cfg content0 opened (empty_tx ∷ [])
unfolding begin new_tx enter lock
begun = next here (begins (ok 7) rwtx empty_tx refl refl)

tx_exclusion_example :
    (held rwtx (empty_tx ∷ []) ≡ 0)
    ⊎ ((held rwtx (empty_tx ∷ []) ≡ 1) × (held rtx (empty_tx ∷ []) ≡ 0))
tx_exclusion_example = tx_exclusion ⦃art = trees⦄ cfg content0 opened (empty_tx ∷ []) begun refl

abbrev after : TxDb ⦃art = trees⦄
after = record opened { mu = mutex0 }

rolled_back : rollback ⦃art = trees⦄ (full_tx, opened) ≡ (ok tt, (ended full_tx, after))
unfolding rollback release unlock
rolled_back = refl

rollback_ends_example :
    (after.content ≡ content0)
    × (commit ⦃art = trees⦄ cfg (ended full_tx, after) ≡ (err tx_closed, (ended full_tx, after)))
    × (rollback ⦃art = trees⦄ (ended full_tx, after) ≡ (err tx_closed, (ended full_tx, after)))
rollback_ends_example =
    rollback_ends ⦃art = trees⦄ cfg full_tx (ended full_tx) opened after rolled_back

abbrev idle : TxDb ⦃art = trees⦄
idle = record { mu = mutex0; closed = false; content = content0 }

begin_proceeds_example :
    (tx : Tx) × (db' : TxDb ⦃art = trees⦄) × (begin ⦃art = trees⦄ (ok 7) rwtx idle
      ≡ returned (ok tx) db')
    × (tx.t_type ≡ rwtx)
    × (tx.has_db ≡ true)
begin_proceeds_example =
    begin_proceeds ⦃art = trees⦄ cfg content0 idle [] 7 rwtx here refl (refl, refl, refl, refl)
