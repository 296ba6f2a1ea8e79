-- ===== src/Db/Tx/Effects.antt =====
-- What each method of a transaction does to the lock of the database.
use lazy_db.Prelude.{ℕ, ◌≡◌, ◌⊎◌, inl, inr, refl, true, false, some, List, ◌∷◌, ◌++◌, Bytes, arith}
use lazy_db.Prelude.Res.{Res, Error, ok, err, fatal, Res-cases}
use lazy_db.Ds.Art.{Art}
use lazy_db.Db.Store.{Config}
use lazy_db.Db.Index.{Value}
use lazy_db.Db.Tx.{
  Tx, TxType, rtx, rwtx, new_tx, lock, unlock, run_unlock, TxDb, Data, enter, returned, waiting,
  begin, wake, resume, announce, RwMutex, release, rollback, tx_s_add,
}
use lazy_db.Db.Tx.Commit.{commit, commit_all, finish_commit}
use lazy_db.Db.Tx.Locks.{held-append, IsLocked}

module _ ⦃art : Art Value⦄ where
  -- What a method of a transaction does to the lock: nothing, or it ends the transaction.
  abbrev pub Keeps : Tx → TxDb → Tx × TxDb → Type 0
  Keeps tx db (tx', db') =
      (db'.closed ≡ db.closed)
      × (tx'.t_type ≡ tx.t_type)
      × (((db'.mu ≡ db.mu) × (tx'.has_db ≡ tx.has_db))
          ⊎ ((tx.has_db ≡ true) × (tx'.has_db ≡ false) × (unlock tx.t_type db.mu ≡ ok db'.mu)))

  release-Keeps : (tx : Tx) (db : TxDb) → tx.has_db ≡ true → Keeps tx db (release (tx, db)).1
  unfolding release
  release-Keeps tx db h = elim (Res-cases (unlock tx.t_type db.mu)) [
    | inl (mu, e) ↦ rw (e, release) (refl, refl, inr (h, refl, refl))
    | inr (inl (x, e)) ↦ rw (e, release) (refl, refl, inl (refl, refl))
    | inr (inr e) ↦ rw (e, release) (refl, refl, inl (refl, refl))
  ]

  pub rollback-Keeps : (tx : Tx) (db : TxDb) → Keeps tx db (rollback (tx, db)).1
  unfolding rollback
  rollback-Keeps tx db = ground (arith, release-Keeps tx db)

  finish-Keeps :
      (tx : Tx) (db : TxDb) (r : Res (Unit {0})) (c : Data)
      → tx.has_db ≡ true
      → Keeps tx db (finish_commit tx db (r, c)).1
  unfolding finish_commit
  finish-Keeps tx db (ok u) c h = release-Keeps tx (record db { content = c }) h
  finish-Keeps tx db (err e) c h = (refl, refl, inl (refl, refl))
  finish-Keeps tx db fatal c h = (refl, refl, inl (refl, refl))

  pub commit-Keeps : (cfg : Config) (tx : Tx) (db : TxDb) → Keeps tx db (commit cfg (tx, db)).1
  unfolding commit
  commit-Keeps cfg tx db =
      let (r, c) = commit_all cfg tx db.content in ground (arith, finish-Keeps tx db r c)

  pub adds-Keeps :
      (sum128 : Bytes → Bytes) (key : Bytes) (members : List Bytes) (tx : Tx) (db : TxDb)
      → Keeps tx db (tx_s_add sum128 key members (tx, db)).1
  unfolding tx_s_add
  adds-Keeps sum128 key members tx db = ground arith

  -- The lock after a method of a transaction that stands among others.
  pub moved-IsLocked :
      (xs ys : List Tx) (tx tx' : Tx) (db db' : TxDb)
      → Keeps tx db (tx', db')
      → IsLocked db.mu (xs ++ tx ∷ ys)
      → IsLocked db'.mu (xs ++ tx' ∷ ys)
  unfolding unlock run_unlock
  moved-IsLocked xs ys tx tx' db db' k l = ground (
    arith,
    held-append rtx xs (tx ∷ ys),
    held-append rtx xs (tx' ∷ ys),
    held-append rwtx xs (tx ∷ ys),
    held-append rwtx xs (tx' ∷ ys),
    k,
    l,
  )

  pub begin-IsLocked :
      (tx_id : Res ℕ) (typ : TxType) (tx : Tx) (db db' : TxDb) (txs : List Tx)
      → begin tx_id typ db ≡ returned (ok tx) db'
      → db.closed ≡ false
      → IsLocked db.mu txs
      → IsLocked db'.mu (tx ∷ txs)
  unfolding begin new_tx enter lock
  begin-IsLocked (ok n) typ tx db db' txs e up l = ground (arith, e, l)
  begin-IsLocked (err x) typ tx db db' txs e up l = absurd (ground (arith, e))
  begin-IsLocked fatal typ tx db db' txs e up l = absurd (ground (arith, e))

  pub refused-same :
      (tx_id : Res ℕ) (typ : TxType) (x : Error) (db db' : TxDb)
      → begin tx_id typ db ≡ returned (err x) db'
      → db.closed ≡ false
      → db' ≡ db
  unfolding begin new_tx enter lock
  refused-same (ok n) typ x db db' e up = ground (arith, e)
  refused-same (err y) typ x db db' e up = ground (arith, e)
  refused-same fatal typ x db db' e up = absurd (ground (arith, e))

  pub begin-closed :
      (tx_id : Res ℕ) (typ : TxType) (r : Res Tx) (db db' : TxDb)
      → begin tx_id typ db ≡ returned r db'
      → db'.closed ≡ db.closed
  unfolding begin new_tx enter lock
  begin-closed (ok n) typ r db db' e = elim (Res-cases (unlock typ db.mu)) [
    | inl (mu, h) ↦ ground (arith, e, h)
    | inr (inl (x, h)) ↦ ground (arith, e, h)
    | inr (inr h) ↦ ground (arith, e, h)
  ]
  begin-closed (err y) typ r db db' e = ground (arith, e)
  begin-closed fatal typ r db db' e = ground (arith, e)

  pub waiting-closed :
      (tx_id : Res ℕ) (typ : TxType) (db db' : TxDb)
      → begin tx_id typ db ≡ waiting db'
      → db'.closed ≡ db.closed
  unfolding begin new_tx enter lock
  waiting-closed (ok n) typ db db' e = elim (Res-cases (unlock typ db.mu)) [
    | inl (mu, h) ↦ ground (arith, e, h)
    | inr (inl (x, h)) ↦ ground (arith, e, h)
    | inr (inr h) ↦ ground (arith, e, h)
  ]
  waiting-closed (err y) typ db db' e = absurd (ground (arith, e))
  waiting-closed fatal typ db db' e = absurd (ground (arith, e))

  pub waiting-IsLocked :
      (tx_id : Res ℕ) (typ : TxType) (db db' : TxDb) (txs : List Tx)
      → begin tx_id typ db ≡ waiting db'
      → db.closed ≡ false
      → IsLocked db.mu txs
      → IsLocked db'.mu txs
  unfolding begin new_tx enter lock
  waiting-IsLocked (ok n) typ db db' txs e up l = ground (arith, e, l)
  waiting-IsLocked (err y) typ db db' txs e up l = absurd (ground (arith, e))
  waiting-IsLocked fatal typ db db' txs e up l = absurd (ground (arith, e))

  pub resume-closed :
      (tx_id : ℕ) (typ : TxType) (tx : Tx) (db db' : TxDb)
      → resume tx_id typ db ≡ some (tx, db')
      → db'.closed ≡ db.closed
  unfolding resume wake
  resume-closed tx_id typ tx db db' e = ground (arith, e)

  pub resume-IsLocked :
      (tx_id : ℕ) (typ : TxType) (tx : Tx) (db db' : TxDb) (txs : List Tx)
      → resume tx_id typ db ≡ some (tx, db')
      → IsLocked db.mu txs
      → IsLocked db'.mu (tx ∷ txs)
  unfolding resume wake
  resume-IsLocked tx_id typ tx db db' txs e l = ground (arith, e, l)

  pub announce-IsLocked :
      (mu mu' : RwMutex) (txs : List Tx)
      → announce mu ≡ some mu'
      → IsLocked mu txs
      → IsLocked mu' txs
  unfolding announce
  announce-IsLocked mu mu' txs e l = ground (arith, e, l)
