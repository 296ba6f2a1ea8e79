-- ===== src/Db/Tx/Locks.antt =====
-- What transactions do to the lock of the database: a relation of the steps that any number of
-- clients take, and what holds in every state that is reached.
use lazy_db.Prelude.{
  ℕ, ◌+◌, ◌≤◌, ◌≡◌, ◌⊎◌, Bool, true, false, some, List, [], ◌∷◌, ◌++◌, Bytes, arith, if◌then◌else◌,
}
use lazy_db.Prelude.Res.{Res, Error, ok, err}
use lazy_db.Ds.Art.{Art}
use lazy_db.Db.Store.{Config}
use lazy_db.Db.Index.{Value}
use lazy_db.Db.Tx.{
  RwMutex, Tx, TxType, rtx, rwtx, TxDb, Data, begin, returned, waiting, resume, announce, rollback,
  tx_set, tx_s_add,
}
use lazy_db.Db.Tx.Commit.{commit}

-- Whether a transaction is open with this type.
abbrev pub holds : TxType → Tx → ℕ
holds rtx tx = elim tx.t_type [ rtx ↦ if tx.has_db then 1 else 0 | rwtx ↦ 0 ]
holds rwtx tx = elim tx.t_type [ rtx ↦ 0 | rwtx ↦ if tx.has_db then 1 else 0 ]

-- The open transactions of a type.
abbrev pub held : TxType → List Tx → ℕ
held typ [] = 0
held typ (tx ∷ txs) = holds typ tx + held typ txs

pub held-append : (typ : TxType) (xs ys : List Tx) → held typ (xs ++ ys) ≡ held typ xs + held typ ys
held-append typ [] ys = omega arith
held-append typ (x ∷ xs) ys = omega (arith, held-append typ xs ys)

module _ ⦃art : Art Value⦄ where
  -- A step of some client: the database and the transactions before and after it.
  pub data Step (cfg : Config) (db : TxDb) (txs : List Tx) (db' : TxDb) (txs' : List Tx)
      : Type 0 where
    begins :
        (tx_id : Res ℕ) (typ : TxType) (tx : Tx)
        → begin tx_id typ db ≡ returned (ok tx) db'
        → txs' ≡ tx ∷ txs
        → Step cfg db txs db' txs'
    blocks :
        (tx_id : Res ℕ) (typ : TxType)
        → begin tx_id typ db ≡ waiting db'
        → txs' ≡ txs
        → Step cfg db txs db' txs'
    resumes :
        (tx_id : ℕ) (typ : TxType) (tx : Tx)
        → resume tx_id typ db ≡ some (tx, db')
        → txs' ≡ tx ∷ txs
        → Step cfg db txs db' txs'
    announces :
        (mu : RwMutex)
        → announce db.mu ≡ some mu
        → db' ≡ record db { mu = mu }
        → txs' ≡ txs
        → Step cfg db txs db' txs'
    refused :
        (tx_id : Res ℕ) (typ : TxType) (e : Error)
        → begin tx_id typ db ≡ returned (err e) db'
        → txs' ≡ txs
        → Step cfg db txs db' txs'
    rolls_back :
        (xs ys : List Tx) (tx tx' : Tx) (r : Res (Unit {0}))
        → txs ≡ xs ++ tx ∷ ys
        → rollback (tx, db) ≡ (r, (tx', db'))
        → txs' ≡ xs ++ tx' ∷ ys
        → Step cfg db txs db' txs'
    commits :
        (xs ys : List Tx) (tx tx' : Tx) (r : Res (Unit {0}))
        → txs ≡ xs ++ tx ∷ ys
        → commit cfg (tx, db) ≡ (r, (tx', db'))
        → txs' ≡ xs ++ tx' ∷ ys
        → Step cfg db txs db' txs'
    sets :
        (xs ys : List Tx) (tx : Tx) (key value : Bytes)
        → txs ≡ xs ++ tx ∷ ys
        → db' ≡ db
        → txs' ≡ xs ++ tx_set key value tx ∷ ys
        → Step cfg db txs db' txs'
    adds :
        (xs ys : List Tx) (tx tx' : Tx) (sum128 : Bytes → Bytes) (key : Bytes)
        (members : List Bytes) (r : Res (Unit {0}))
        → txs ≡ xs ++ tx ∷ ys
        → tx_s_add sum128 key members (tx, db) ≡ (r, (tx', db'))
        → txs' ≡ xs ++ tx' ∷ ys
        → Step cfg db txs db' txs'
    closes : db' ≡ record db { closed = true } → txs' ≡ txs → Step cfg db txs db' txs'

  -- What is reached from a database that was just opened.
  pub data Reach (cfg : Config) (content : Data) : TxDb → List Tx → Type 0 where
    here :
        Reach cfg content
          (record {
            mu = record {
              readers = 0;
              writing = false;
              blocked = 0;
              admitted = 0;
              queue = 0;
              announced = false;
            };
            closed = false;
            content = content;
          })
          []
    next :
        {db db' : TxDb} {txs txs' : List Tx}
        → Reach cfg content db txs
        → Step cfg db txs db' txs'
        → Reach cfg content db' txs'

  abbrev pub bit : Bool → ℕ
  bit b = if b then 1 else 0

  -- The lock counts the open transactions, a writer is alone, and one that waits for the readers is
  -- among those that wait.
  abbrev pub IsLocked : RwMutex → List Tx → Type 0
  IsLocked mu txs =
      (mu.readers ≡ held rtx txs)
      × (bit mu.writing ≡ held rwtx txs)
      × ((bit mu.writing ≡ 0) ⊎ ((mu.readers ≡ 0) × (mu.admitted ≡ 0)))
      × (bit mu.announced ≤ mu.queue)
