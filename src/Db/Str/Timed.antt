-- ===== src/Db/Str/Timed.antt =====
-- `Expire`, `Persist` and the counter of str.go against the abstract store.
use lazy_db.Prelude.{◌≡◌, false, Option, none, some, Bytes, Option-cases, inl, inr}
use mathlib.Core.Path.{subst}
use lazy_db.Prelude.Res.{ok, err, key_not_found}
use lazy_db.Prelude.Exec.{Exec}
use lazy_db.Prelude.Int.{ℤ, pos, ◌+ℤ◌, leb_ℤ}
use lazy_db.Std.Clock.{unix}
use lazy_db.Std.Decimal.{format_int}
use lazy_db.Ds.Art.{Art}
use lazy_db.Db.Store.{Config}
use lazy_db.Db.Index.{Value}
use lazy_db.Db.Str.{StrDb, expire, persist}
use lazy_db.Db.Str.Counter.{incr_decr_by}
use lazy_db.Db.StrValues.{bytes_of, number_of, add64, overflows}
use lazy_db.Db.Str.Models.{Spec, update, Models, store_entry-Models}
use lazy_db.Db.Str.Commands.{
  shown, reply-shown, reply-hidden, CanSet, Does, get_value_lem, find_lem, set-Models,
  set_ex-Models,
}

module _ ⦃art : Art Value⦄ where
  -- On a shown value a step does as `Does` says, and else it fails and changes nothing.
  abbrev pub DoesIfShown :
      Config → Option Bytes → Exec StrDb (Unit {0}) → StrDb → (Bytes → Spec) → Type 0
  DoesIfShown cfg none m db f = m db ≡ (err key_not_found, db)
  DoesIfShown cfg (some v) m db f = Does cfg m db tt (f v)

  -- With a positive duration `Expire` stores the value that the key shows again with the second
  -- of now plus the duration as its expiry, and answers `ErrKeyNotFound` and changes nothing
  -- where the key shows none; the value can be stored.
  pub expire-Models :
      (cfg : Config) (db : StrDb) (f : Spec) (key : Bytes) (duration now : ℤ)
      → Models cfg db f
      → leb_ℤ duration (pos 0) ≡ false
      → CanSet cfg db key (bytes_of (shown (unix now) (f key))) (unix (now +ℤ duration))
      → DoesIfShown cfg
          (shown (unix now) (f key))
          (expire cfg key duration now)
          db
          (λ v. update f key (some (v, unix (now +ℤ duration))))
  unfolding expire
  expire-Models cfg db f key duration now m positive can =
      let found = get_value_lem cfg db f key (unix now) m in
      elim (Option-cases (shown (unix now) (f key))) [
        | inl e ↦
            let missing = reply-hidden (unix now) (f key) e in
            rw (e) (rw (positive) (rw (found, missing)))
        | inr (v, e) ↦
            let (db', run, m') =
              set_ex-Models cfg db f key v duration now m
                (subst (λ x. CanSet cfg db key (bytes_of x) (unix (now +ℤ duration))) e can) in
            let there = reply-shown (unix now) (f key) v e in
            rw (e) (db', rw positive (rw (found, there) run), m')
      ]

  -- `Persist` stores the value that the key shows again without an expiry, and answers
  -- `ErrKeyNotFound` and changes nothing where the key shows none; the value can be stored.
  pub persist-Models :
      (cfg : Config) (db : StrDb) (f : Spec) (key : Bytes) (ts : ℤ)
      → Models cfg db f
      → CanSet cfg db key (bytes_of (shown ts (f key))) (pos 0)
      → DoesIfShown cfg
          (shown ts (f key))
          (persist cfg key ts)
          db
          (λ v. update f key (some (v, pos 0)))
  unfolding persist
  persist-Models cfg db f key ts m can =
      let found = get_value_lem cfg db f key ts m in
      elim (Option-cases (shown ts (f key))) [
        | inl e ↦ rw e (rw (found, reply-hidden ts (f key) e))
        | inr (v, e) ↦
            let (db', run, m') =
              set-Models cfg db f key v m
                (subst (λ x. CanSet cfg db key (bytes_of x) (pos 0)) e can) in
            rw e (db', rw (found, reply-shown ts (f key) v e) run, m')
      ]

  -- Where the value that a key shows, or "0" in the place of a missing or empty one, reads as a
  -- number, and the sum with the increment does not overflow, `incrDecrBy` answers the sum and
  -- leaves a database that stands for the store with the sum in decimal and without an expiry;
  -- the new value can be stored.
  pub incr_decr_by-Models :
      (cfg : Config) (db : StrDb) (f : Spec) (key : Bytes) (n incr ts : ℤ)
      → Models cfg db f
      → number_of (bytes_of (shown ts (f key))) ≡ ok n
      → overflows incr n ≡ false
      → CanSet cfg db key (format_int (add64 n incr)) (pos 0)
      → Does cfg
          (incr_decr_by cfg key incr ts)
          db
          (add64 n incr)
          (update f key (some (format_int (add64 n incr), pos 0)))
  unfolding incr_decr_by
  incr_decr_by-Models cfg db f key n incr ts m is_number fits can =
      let (db', run, m') =
        store_entry-Models cfg db f key (format_int (add64 n incr)) (pos 0) m can.0 can.1 can.2 in
      (db', rw (find_lem cfg db f key ts m) (rw is_number (rw fits (rw run))), m')
