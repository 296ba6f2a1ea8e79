-- ===== src/Db/Str/Counter.antt =====
-- str.go: `Incr`, `IncrBy`, `Decr`, `DecrBy` and their helper.
use lazy_db.Prelude.{Bytes, if◌then◌else◌}
use lazy_db.Prelude.Res.{integer_overflow}
use lazy_db.Prelude.Exec.{Exec, pure, raise, lift, ◌>>=◌, ◌>>◌}
use lazy_db.Prelude.Int.{ℤ, pos, negsuc}
use lazy_db.Std.Decimal.{format_int}
use lazy_db.Ds.Art.{Art}
use lazy_db.Db.Store.{Config}
use lazy_db.Db.Index.{Value, plain_entry}
use lazy_db.Db.StrValues.{bytes_of, number_of, add64, neg64, overflows}
use lazy_db.Db.Str.{StrDb, store_entry, find_str}

module _ ⦃art : Art Value⦄ where
  -- `incrDecrBy`
  unfoldable pub incr_decr_by : Config → Bytes → ℤ → ℤ → Exec StrDb ℤ
  incr_decr_by cfg key incr ts = do
    val ← find_str key ts
    n ← lift (number_of (bytes_of val))
    if overflows incr n
        then raise integer_overflow
        else do let sum = add64 n incr; store_entry cfg (plain_entry key (format_int sum)); pure sum

  -- `Incr`, `IncrBy`, `Decr`, `DecrBy`
  unfoldable pub incr : Config → Bytes → ℤ → Exec StrDb ℤ
  incr cfg key ts = incr_decr_by cfg key (pos 1) ts

  unfoldable pub incr_by : Config → Bytes → ℤ → ℤ → Exec StrDb ℤ
  incr_by cfg key n ts = incr_decr_by cfg key n ts

  unfoldable pub decr : Config → Bytes → ℤ → Exec StrDb ℤ
  decr cfg key ts = incr_decr_by cfg key (negsuc 0) ts

  unfoldable pub decr_by : Config → Bytes → ℤ → ℤ → Exec StrDb ℤ
  decr_by cfg key n ts = incr_decr_by cfg key (neg64 n) ts
