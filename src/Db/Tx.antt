-- ===== src/Db/Tx.antt =====
-- tx.go, tx_str.go and tx_set.go: transactions on the lock of the database.
pub mod Commit
pub mod Locks
pub mod Effects
pub mod Exclusion
pub mod Models
pub mod Ends
use lazy_db.Prelude.{
  ℕ, zero, suc, ◌+◌, Bool, true, false, Option, none, some, List, [], ◌∷◌, ◌++◌, Bytes, length, ◌-◌,
  ◌==◌, ◌||◌, not, if◌then◌else◌,
}
use lazy_db.Prelude.Res.{Res, ok, err, fatal, tx_closed, tx_committing_rollback, database_closed}
use lazy_db.Prelude.Exec.{Exec}
use lazy_db.Ds.Art.{Art}
use lazy_db.Logfile.Entry.{LogEntry}
use lazy_db.Db.Store.{LogSet}
use lazy_db.Db.Index.{Value, plain_entry}
use lazy_db.Db.Str.{StrDb}
use lazy_db.Db.Trees.{TreeDb, open_tree}

-- `sync.RWMutex`: how many hold it for reading, whether one holds it for writing, how many calls of
-- `RLock` and of `Lock` wait, how many calls of `RLock` were let in by an `Unlock` and are still to
-- return, and whether a call of `Lock` waits for the readers: no call of `RLock` passes that one.
pub record RwMutex : Type 0 where
  pub readers : ℕ
  pub writing : Bool
  pub blocked : ℕ
  pub admitted : ℕ
  pub queue : ℕ
  pub announced : Bool

-- What a call of `RLock` or `Lock` comes to: it has the lock, or it waits.
pub data Locking : Type 0 where
  taken waits : RwMutex → Locking

-- `TxType`
pub data TxType : Type 0 where
  rtx rwtx : TxType

-- `TxStatus`
pub data TxStatus : Type 0 where
  pending committing : TxStatus

-- `pSet`
pub record PSet : Type 0 where
  pub e : LogEntry
  pub sum : Bytes
  pub mem : Bytes

-- `Tx`. There is one database, so of its pointer only whether it is nil is kept.
pub record Tx : Type 0 where
  pub id : ℕ
  pub has_db : Bool
  pub t_type : TxType
  pub status : TxStatus
  pub pending_str : List LogEntry
  pub pending_list : List LogEntry
  pub pending_set : List PSet
  pub pending_hash : List LogEntry
  pub pending_zset : List LogEntry

-- The transaction that `newTx` makes.
abbrev pub fresh_tx : ℕ → TxType → Tx
fresh_tx tx_id tx_type = record {
  id = tx_id;
  has_db = true;
  t_type = tx_type;
  status = pending;
  pending_str = [];
  pending_list = [];
  pending_set = [];
  pending_hash = [];
  pending_zset = [];
}

-- `newTx`. The identifier is what `generateTxID` returns: a number of the snowflake package.
unfoldable pub new_tx : Res ℕ → TxType → Res Tx
new_tx fatal tx_type = fatal
new_tx (err e) tx_type = err e
new_tx (ok tx_id) tx_type = ok (fresh_tx tx_id tx_type)

-- `tx.lock()`
unfoldable pub lock : TxType → RwMutex → Locking
lock rwtx mu =
    if mu.writing || mu.announced
    then waits (record mu { queue = mu.queue + 1 })
    else if mu.readers + mu.admitted == 0
    then taken (record mu { writing = true })
    else waits (record mu { queue = mu.queue + 1; announced = true })
lock rtx mu =
    if mu.writing || mu.announced
    then waits (record mu { blocked = mu.blocked + 1 })
    else taken (record mu { readers = mu.readers + 1 })

-- A call that waited returns with the lock: one of `RLock` that was let in, or one of `Lock` when
-- the readers are gone.
unfoldable pub wake : TxType → RwMutex → Option RwMutex
wake rwtx mu =
    if mu.writing || not (mu.readers + mu.admitted == 0) || mu.queue == 0
    then none
    else some (record mu { writing = true; queue = mu.queue - 1; announced = false })
wake rtx mu =
    if mu.admitted == 0
    then none
    else some (record mu { readers = mu.readers + 1; admitted = mu.admitted - 1 })

-- The next call of `Lock` begins to wait for the readers.
unfoldable pub announce : RwMutex → Option RwMutex
announce mu = if mu.writing || mu.queue == 0 then none else some (record mu { announced = true })

-- `RUnlock` on a lock without a reader ends the process.
unfoldable pub run_unlock : ℕ → RwMutex → Res RwMutex
run_unlock zero mu = fatal
run_unlock (suc n) mu = ok (record mu { readers = n })

-- `tx.unlock()`; `Unlock` lets in the calls of `RLock` that wait, and ends the process on a lock
-- that is not held, too.
unfoldable pub unlock : TxType → RwMutex → Res RwMutex
unlock rwtx mu =
    if mu.writing
    then ok (record mu { writing = false; blocked = 0; admitted = mu.admitted + mu.blocked })
    else fatal
unlock rtx mu = run_unlock mu.readers mu

-- What `Commit` and `Rollback` leave of a transaction.
abbrev pub ended : Tx → Tx
ended tx = record tx {
  has_db = false;
  status = pending;
  pending_str = [];
  pending_list = [];
  pending_set = [];
  pending_hash = [];
  pending_zset = [];
}

module _ ⦃art : Art Value⦄ where
  -- What a commit writes to: the strings, the sets, and the log files of the other types.
  pub record Data : Type 0 where
    pub strings : StrDb
    pub lists : LogSet
    pub hashes : LogSet
    pub sets : TreeDb
    pub zsets : LogSet

  -- The database as a transaction sees it.
  pub record TxDb : Type 0 where
    pub mu : RwMutex
    pub closed : Bool
    pub content : Data

  -- What a call of `Begin` comes to: it returns, or it waits for the lock.
  pub data Begun : Type 0 where
    returned : Res Tx → TxDb → Begun
    waiting : TxDb → Begun

  -- The end of `Begin`: on a closed database the lock that nobody took is released.
  unfoldable pub enter : Tx → TxDb → Begun
  enter tx db =
      if db.closed
      then elim (unlock tx.t_type db.mu) [
        | ok mu ↦ returned (err database_closed) (record db { mu = mu })
        | err e ↦ returned fatal db
        | fatal ↦ returned fatal db
      ]
      else elim (lock tx.t_type db.mu) [
        | taken mu ↦ returned (ok tx) (record db { mu = mu })
        | waits mu ↦ waiting (record db { mu = mu })
      ]

  -- `Begin`
  unfoldable pub begin : Res ℕ → TxType → TxDb → Begun
  unfolding new_tx
  begin tx_id tx_type db = elim (new_tx tx_id tx_type) [
    | ok tx ↦ enter tx db
    | err e ↦ returned (err e) db
    | fatal ↦ returned fatal db
  ]

  -- A call of `Begin` that waited gets the lock and returns.
  unfoldable pub resume : ℕ → TxType → TxDb → Option (Tx × TxDb)
  resume tx_id tx_type db = elim (wake tx_type db.mu) [
    | none ↦ none
    | some mu ↦ some (fresh_tx tx_id tx_type, record db { mu = mu })
  ]

  -- `tx.unlock()` and what follows it.
  unfoldable pub release : Exec (Tx × TxDb) (Unit {0})
  release (tx, db) = elim (unlock tx.t_type db.mu) [
    | ok mu ↦ (ok tt, (ended tx, record db { mu = mu }))
    | err e ↦ (fatal, (tx, db))
    | fatal ↦ (fatal, (tx, db))
  ]

  abbrev pub is_committing : TxStatus → Bool
  is_committing pending = false
  is_committing committing = true

  -- `Rollback`
  unfoldable pub rollback : Exec (Tx × TxDb) (Unit {0})
  rollback (tx, db) =
      if not tx.has_db
      then (err tx_closed, (tx, db))
      else if db.closed
      then (err database_closed, (tx, db))
      else if is_committing tx.status
      then (err tx_committing_rollback, (tx, db))
      else release (tx, db)

  -- `Set` of a transaction
  unfoldable pub tx_set : Bytes → Bytes → Tx → Tx
  tx_set key value tx = record tx { pending_str = tx.pending_str ++ plain_entry key value ∷ [] }

  -- The loop of `SAdd` of a transaction.
  unfoldable pub pending_members : (Bytes → Bytes) → Bytes → List Bytes → List PSet
  pending_members sum128 key [] = []
  pending_members sum128 key (mem ∷ members) =
      let rest = pending_members sum128 key members in
      if length mem == 0
      then rest
      else record { e = plain_entry key mem; sum = sum128 mem; mem = mem } ∷ rest

  -- `SAdd` of a transaction. After its end the database's pointer is nil.
  unfoldable pub tx_s_add : (Bytes → Bytes) → Bytes → List Bytes → Exec (Tx × TxDb) (Unit {0})
  unfolding open_tree
  tx_s_add sum128 key members (tx, db) =
      if not tx.has_db
      then (fatal, (tx, db))
      else let (r, sets) = open_tree key db.content.sets in
        (
          r,
          (
            record tx { pending_set = tx.pending_set ++ pending_members sum128 key members },
            record db { content = record db.content { sets = sets } },
          ),
        )
