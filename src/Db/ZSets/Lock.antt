-- ===== src/Db/ZSets/Lock.antt =====
-- The lock of the sorted sets, and how it is left.
use lazy_db.Prelude.{◌≡◌, refl, ap, true, false, Option, none, if◌then◌else◌, List, Bytes}
use lazy_db.Prelude.Res.{Res, ok, fatal}
use lazy_db.Prelude.Int.{ℤ}
use lazy_db.Std.Float.{Scores}
use lazy_db.Std.SkipList.{SkipList}
use lazy_db.Ds.Art.{Art}
use lazy_db.Db.Index.{Value}
use lazy_db.Db.Store.{Config}
use lazy_db.Db.Nodes.{Node}
use lazy_db.Db.ZSets.{ZDb, skl_of, z_card, z_score}
use lazy_db.Db.ZSets.Removes.{z_pop, z_pop_max, z_pop_min, z_rem, first_of, last_of}

module _ ⦃art : Art Value⦄ (fl : Scores) (sl : SkipList (Node fl)) where
  -- A method on a lock that is free.
  pub lock_is_free :
      {A : Type 0} (db : ZDb fl sl) (x : Res A × ZDb fl sl)
      → db.stuck ≡ false
      → (if db.stuck then (fatal, db) else x) ≡ x
  lock_is_free db x free = ap (λ b. if b then (fatal, db) else x) free

  abbrev stuck_db : ZDb fl sl → ZDb fl sl
  stuck_db db = record db { stuck = true }

  pop-missing :
      (pick : List (Node fl) → Option (Node fl)) (cfg : Config) (db : ZDb fl sl) (key : Bytes)
      (ts : ℤ)
      → db.stuck ≡ false
      → skl_of fl sl db key ≡ none
      → z_pop fl sl pick cfg key ts db ≡ (ok none, stuck_db db)
  unfolding z_pop
  pop-missing pick cfg db key ts free missing =
      rw (missing, z_pop) (lock_is_free db (ok none, stuck_db db) free)

  -- `ZPopMax` and `ZPopMin` of a key without a sorted set, on a free lock, answer nothing and
  -- leave the lock taken: `ZCard`, `ZScore` and `ZRem` of any key never return after it.
  pub pop_keeps_lock :
      (cfg : Config) (db : ZDb fl sl) (key other member : Bytes) (members : List Bytes) (ts : ℤ)
      → db.stuck ≡ false
      → skl_of fl sl db key ≡ none
      → (let left : ZDb fl sl = record db { stuck = true } in
          (z_pop_max fl sl cfg key ts db ≡ (ok none, left))
          × (z_pop_min fl sl cfg key ts db ≡ (ok none, left))
          × (z_card fl sl other left ≡ (fatal, left))
          × (z_score fl sl other member ts left ≡ (fatal, left))
          × (z_rem fl sl cfg other members ts left ≡ (fatal, left)))
  unfolding z_card z_score z_rem
  pop_keeps_lock cfg db key other member members ts free missing = (
    pop-missing last_of cfg db key ts free missing,
    pop-missing first_of cfg db key ts free missing,
    refl,
    refl,
    refl,
  )
