-- ===== src/Db/Tx/Exclusion.antt =====
-- That the lock of the database keeps a writer alone, in every state that is reached.
use lazy_db.Prelude.{
  ◌+◌, ℕ, zero, suc, ◌≤◌, ◌≡◌, ◌⊎◌, inl, refl, sym, ◌∙◌, true, false, Bool-cases, inr, ◌-◌, ap,
  List, ◌∷◌, ◌++◌, arith,
}
use mathlib.Core.Path.{subst}
use lazy_db.Prelude.Res.{Res, ok, err}
use lazy_db.Ds.Art.{Art}
use lazy_db.Db.Store.{Config}
use lazy_db.Db.Index.{Value}
use lazy_db.Db.Tx.{
  fresh_tx, begin, returned, taken, lock, enter, new_tx, RwMutex, Tx, TxType, rtx, rwtx, unlock,
  run_unlock, TxDb, Data, tx_set,
}
use lazy_db.Db.Tx.Locks.{
  Step, begins, blocks, resumes, announces, refused, rolls_back, commits, sets, adds, closes, here,
  next,
}
use lazy_db.Db.Tx.Locks.{IsLocked, held, held-append, Reach, bit}
use lazy_db.Db.Tx.Effects.{
  Keeps, rollback-Keeps, commit-Keeps, adds-Keeps, moved-IsLocked, begin-IsLocked, refused-same,
  waiting-closed, waiting-IsLocked, resume-closed, resume-IsLocked, announce-IsLocked, begin-closed,
}

module _ ⦃art : Art Value⦄ where
  -- What a step of an open database does: it was open before, and its lock goes on counting.
  abbrev Goes : TxDb → List Tx → TxDb → List Tx → Type 0
  Goes db txs db' txs' = (db.closed ≡ false) × (IsLocked db.mu txs → IsLocked db'.mu txs')

  method-Goes :
      (xs ys txs txs' : List Tx) (tx tx' : Tx) (db db' : TxDb)
      → txs ≡ xs ++ tx ∷ ys
      → Keeps tx db (tx', db')
      → txs' ≡ xs ++ tx' ∷ ys
      → db'.closed ≡ false
      → Goes db txs db' txs'
  method-Goes xs ys txs txs' tx tx' db db' s k s' up = (
    sym k.0 ∙ up,
    λ l.
        subst (λ (t : List Tx). IsLocked db'.mu t) (sym s')
          (moved-IsLocked xs ys tx tx' db db' k (subst (λ (t : List Tx). IsLocked db.mu t) s l)),
  )

  Step-Goes :
      (cfg : Config) (db db' : TxDb) (txs txs' : List Tx)
      → Step cfg db txs db' txs'
      → db'.closed ≡ false
      → Goes db txs db' txs'
  unfolding tx_set
  Step-Goes cfg db db' txs txs' (begins tx_id typ tx e s) up =
      let was = sym (begin-closed tx_id typ (ok tx) db db' e) ∙ up in
      (was, λ l. rw s (begin-IsLocked tx_id typ tx db db' txs e was l))
  Step-Goes cfg db db' txs txs' (refused tx_id typ x e s) up =
      let was = sym (begin-closed tx_id typ (err x) db db' e) ∙ up in
      (was, λ l. rw (s, refused-same tx_id typ x db db' e was) l)
  Step-Goes cfg db db' txs txs' (blocks tx_id typ e s) up =
      let was = sym (waiting-closed tx_id typ db db' e) ∙ up in
      (was, λ l. rw s (waiting-IsLocked tx_id typ db db' txs e was l))
  Step-Goes cfg db db' txs txs' (resumes tx_id typ tx e s) up = (
    sym (resume-closed tx_id typ tx db db' e) ∙ up,
    λ l. rw s (resume-IsLocked tx_id typ tx db db' txs e l),
  )
  Step-Goes cfg db db' txs txs' (announces mu e d s) up = (
    sym (ap (λ (d : TxDb). d.closed) d) ∙ up,
    λ l. rw (d, s) (announce-IsLocked db.mu mu txs e l),
  )
  Step-Goes cfg db db' txs txs' (rolls_back xs ys tx tx' r s e s') up =
      method-Goes xs ys txs txs' tx tx' db db' s
        (subst (λ (t : Res (Unit {0}) × (Tx × TxDb)). Keeps tx db t.1) e (rollback-Keeps tx db)) s'
        up
  Step-Goes cfg db db' txs txs' (commits xs ys tx tx' r s e s') up =
      method-Goes xs ys txs txs' tx tx' db db' s
        (subst (λ (t : Res (Unit {0}) × (Tx × TxDb)). Keeps tx db t.1) e (commit-Keeps cfg tx db))
        s' up
  Step-Goes cfg db db' txs txs' (sets xs ys tx key value s e s') up =
      method-Goes xs ys txs txs' tx (tx_set key value tx) db db' s
        (rw (e, tx_set) (refl, refl, inl (refl, refl))) s' up
  Step-Goes cfg db db' txs txs' (adds xs ys tx tx' sum128 key members r s e s') up =
      method-Goes xs ys txs txs' tx tx' db db' s
        (subst (λ (t : Res (Unit {0}) × (Tx × TxDb)). Keeps tx db t.1) e
          (adds-Keeps sum128 key members tx db))
        s' up
  Step-Goes cfg db db' txs txs' (closes e s) up = absurd (ground (arith, e, up))

  pub Reach-IsLocked :
      (cfg : Config) (content : Data) (db : TxDb) (txs : List Tx)
      → Reach cfg content db txs
      → db.closed ≡ false
      → IsLocked db.mu txs
  Reach-IsLocked cfg content db txs here up = (refl, refl, inl refl, omega arith)
  Reach-IsLocked cfg content db1 txs1 (next {db} {txs} r st) up =
      let g = Step-Goes cfg db db1 txs txs1 st up in g.1 (Reach-IsLocked cfg content db txs r g.0)

  -- In every state that clients reach from a newly opened database by beginning, filling,
  -- committing and rolling back transactions and by closing the database: while the database is
  -- open, there is no open read-write transaction, or there is one and none is open for
  -- reading.
  pub tx_exclusion :
      (cfg : Config) (content : Data) (db : TxDb) (txs : List Tx)
      → Reach cfg content db txs
      → db.closed ≡ false
      → (held rwtx txs ≡ 0) ⊎ ((held rwtx txs ≡ 1) × (held rtx txs ≡ 0))
  tx_exclusion cfg content db txs r up =
      let l = Reach-IsLocked cfg content db txs r up in ground (arith, l)

  held-open : (xs ys : List Tx) (tx : Tx) → tx.has_db ≡ true → 1 ≤ held tx.t_type (xs ++ tx ∷ ys)
  held-open xs ys tx h =
      ground (arith, h, held-append rtx xs (tx ∷ ys), held-append rwtx xs (tx ∷ ys))

  -- How often the lock is held in the way of a type.
  abbrev takers : TxType → RwMutex → ℕ
  takers rtx mu = mu.readers
  takers rwtx mu = bit mu.writing

  run_unlock_lem :
      (n : ℕ) (mu : RwMutex) → 1 ≤ n → run_unlock n mu ≡ ok (record mu { readers = n - 1 })
  unfolding run_unlock
  run_unlock_lem zero mu h = absurd (omega arith)
  run_unlock_lem (suc n) mu h =
      let same : n ≡ suc n - 1 = omega arith in ap (λ (k : ℕ). ok (record mu { readers = k })) same

  unlock-taken :
      (typ : TxType) (mu : RwMutex) → 1 ≤ takers typ mu → (mu' : RwMutex) × (unlock typ mu ≡ ok mu')
  unfolding unlock run_unlock
  unlock-taken rtx mu h = (record mu { readers = mu.readers - 1 }, run_unlock_lem mu.readers mu h)
  unlock-taken rwtx mu h = elim (Bool-cases mu.writing) [
    | inl w ↦
        (record mu { writing = false; blocked = 0; admitted = mu.admitted + mu.blocked }, rw w refl)
    | inr w ↦ absurd (ground (arith, w, h))
  ]

  takers-held :
      (typ : TxType) (mu : RwMutex) (txs : List Tx) → IsLocked mu txs → takers typ mu ≡ held typ txs
  takers-held rtx mu txs l = l.0
  takers-held rwtx mu txs l = l.1

  -- In every state that clients reach from a newly opened database, while it is open, the end
  -- of an open transaction releases a lock that is held: the release does not end the process.
  pub unlock_runs :
      (cfg : Config) (content : Data) (db : TxDb) (xs ys : List Tx) (tx : Tx)
      → Reach cfg content db (xs ++ tx ∷ ys)
      → db.closed ≡ false
      → tx.has_db ≡ true
      → (mu : RwMutex) × (unlock tx.t_type db.mu ≡ ok mu)
  unlock_runs cfg content db xs ys tx r up h =
      let l = Reach-IsLocked cfg content db (xs ++ tx ∷ ys) r up in
      unlock-taken tx.t_type db.mu
        (omega (arith, held-open xs ys tx h, takers-held tx.t_type db.mu (xs ++ tx ∷ ys) l))

  -- Nothing stands in the way of a transaction of this type: none is open for writing and none
  -- waits for that, and for a read-write transaction none reads or has been let in for that either.
  abbrev pub IsFree : TxType → RwMutex → List Tx → Type 0
  IsFree rtx mu txs = (held rwtx txs ≡ 0) × (mu.queue ≡ 0)
  IsFree rwtx mu txs = (held rwtx txs ≡ 0) × (mu.queue ≡ 0) × (held rtx txs ≡ 0) × (mu.admitted ≡ 0)

  lock-free :
      (typ : TxType) (mu : RwMutex) (txs : List Tx)
      → IsLocked mu txs
      → IsFree typ mu txs
      → (mu' : RwMutex) × (lock typ mu ≡ taken mu')
  unfolding lock
  lock-free rtx mu txs l f = (record mu { readers = mu.readers + 1 }, ground (arith, l, f))
  lock-free rwtx mu txs l f = (record mu { writing = true }, ground (arith, l, f))

  begin-free :
      (n : ℕ) (typ : TxType) (db : TxDb) (mu : RwMutex)
      → db.closed ≡ false
      → lock typ db.mu ≡ taken mu
      → begin (ok n) typ db ≡ returned (ok (fresh_tx n typ)) (record db { mu = mu })
  unfolding begin new_tx enter
  begin-free n typ db mu up free = ground (arith, up, free)

  -- In every state that clients reach from a newly opened database, while it is open: `Begin`
  -- with an identifier does not wait where no read-write transaction is open, no call for one
  -- waits and, if a read-write transaction is asked for, none is open for reading and no call
  -- for one has been let in; it gives an open transaction of the type.
  pub begin_proceeds :
      (cfg : Config) (content : Data) (db : TxDb) (txs : List Tx) (n : ℕ) (typ : TxType)
      → Reach cfg content db txs
      → db.closed ≡ false
      → IsFree typ db.mu txs
      → (tx : Tx) × (db' : TxDb) × (begin (ok n) typ db ≡ returned (ok tx) db')
        × (tx.t_type ≡ typ)
        × (tx.has_db ≡ true)
  begin_proceeds cfg content db txs n typ r up free =
      let l = Reach-IsLocked cfg content db txs r up in
      let (mu, e) = lock-free typ db.mu txs l free in
      (fresh_tx n typ, record db { mu = mu }, begin-free n typ db mu up e, refl, refl)
