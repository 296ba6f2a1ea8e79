-- ===== src/Tests/Strings.antt =====
-- The string commands, each on a database without a value.
use lazy_db.Prelude.{ℕ, ◌^◌, ◌<◌, ◌≡◌, refl, ap, false, none, some, [], ◌∷◌, Bytes, arith, length}
use lazy_db.Prelude.Res.{ok, err, key_not_found}
use lazy_db.Prelude.Int.{ℤ, pos, ◌+ℤ◌, signed64, word64}
use lazy_db.Std.Clock.{unix}
use lazy_db.Std.Decimal.{format_int, digits, parse_int, in_range_pos, parse_unsigned, parse_digits}
use lazy_db.Db.Store.{LogSet, ValuePos, write_log_entry}
use lazy_db.Db.Store.Room.{CanStore, Stores}
use lazy_db.Db.Store.Write.{write_log_entry-Stores}
use lazy_db.Db.Index.{plain_entry, delete_entry}
use lazy_db.Db.Index.Lookup.{timed_entry}
use lazy_db.Db.StrValues.{number_of, add64, overflows}
use lazy_db.Db.Str.{StrDb, store_entry, get, delete_key, expire}
use lazy_db.Db.Str.Counter.{incr_decr_by}
use lazy_db.Db.Str.Models.{update, Models, get-Models, store_entry-Models}
use lazy_db.Db.Str.Deletes.{delete_key-Models}
use lazy_db.Db.Str.Commands.{CanSet, Does}
use lazy_db.Db.Str.Timed.{DoesIfShown, expire-Models, incr_decr_by-Models}
use lazy_db.Tests.{
  cfg, log0, key0, value0, trees, db0, spec0, log0-IsValid, db0-Models, log0-CanStore,
}

-- A value can be stored with an expiry that is small.
can_set :
    (v : Bytes) (t : ℤ) (n : ℕ)
    → t ≡ pos n
    → n < 2 ^ 48
    → length v < 2 ^ 27
    → CanSet ⦃art = trees⦄ cfg db0 key0 v t
can_set v t n e h hv = (
  log0-CanStore (timed_entry key0 v t) refl (omega arith) n e h (omega arith) hv,
  omega arith,
  omega arith,
)

can_delete : CanStore cfg log0 (delete_entry key0)
can_delete =
    log0-CanStore (delete_entry key0) refl (omega arith) 0 refl (omega arith) (omega arith)
      (omega arith)

write_log_entry-Stores_example :
    (p : ValuePos) × (l' : LogSet) × (write_log_entry cfg (plain_entry key0 value0) log0
      ≡ (ok p, l'))
    × Stores cfg log0 (plain_entry key0 value0) p l'
write_log_entry-Stores_example =
    write_log_entry-Stores cfg log0 (plain_entry key0 value0) log0-IsValid
      (can_set value0 (pos 0) 0 refl (omega arith) (omega arith)).0

store_entry-Models_example :
    (db' : StrDb ⦃art = trees⦄) × (store_entry ⦃art = trees⦄ cfg
        (timed_entry key0 value0 (pos 0))
        db0
      ≡ (ok tt, db'))
    × Models ⦃art = trees⦄ cfg db' (update spec0 key0 (some (value0, pos 0)))
store_entry-Models_example =
    store_entry-Models ⦃art = trees⦄ cfg db0 spec0 key0 value0 (pos 0) db0-Models
      (can_set value0 (pos 0) 0 refl (omega arith) (omega arith)).0 (omega arith) (omega arith)

get-Models_example : get ⦃art = trees⦄ key0 (pos 5) db0 ≡ (err key_not_found, db0)
get-Models_example = get-Models ⦃art = trees⦄ cfg db0 spec0 key0 (pos 5) db0-Models

delete_key-Models_example :
    (db' : StrDb ⦃art = trees⦄) × (delete_key ⦃art = trees⦄ cfg key0 db0 ≡ (ok tt, db'))
    × Models ⦃art = trees⦄ cfg db' (update spec0 key0 none)
delete_key-Models_example =
    delete_key-Models ⦃art = trees⦄ cfg db0 spec0 key0 db0-Models can_delete (omega arith)

number_of-zero : number_of [] ≡ ok (pos 0)
unfolding number_of parse_int in_range_pos parse_unsigned parse_digits
number_of-zero = refl

zero-overflows : overflows (pos 7) (pos 0) ≡ false
unfolding overflows
zero-overflows = refl

seven : format_int (add64 (pos 0) (pos 7)) ≡ b'7' ∷ []
unfolding format_int add64 signed64 word64 digits
seven = refl

incr_decr_by-Models_example :
    Does ⦃art = trees⦄ cfg
      (incr_decr_by ⦃art = trees⦄ cfg key0 (pos 7) (pos 5))
      db0
      (add64 (pos 0) (pos 7))
      (update spec0 key0 (some (format_int (add64 (pos 0) (pos 7)), pos 0)))
incr_decr_by-Models_example =
    incr_decr_by-Models ⦃art = trees⦄ cfg db0 spec0 key0 (pos 0) (pos 7) (pos 5) db0-Models
      number_of-zero zero-overflows
      (can_set (format_int (add64 (pos 0) (pos 7))) (pos 0) 0 refl (omega arith)
        (omega (arith, ap (λ (b : Bytes). length b) seven)))

expire_time : unix (pos 2000000000 +ℤ pos 5000000000) ≡ pos 7
unfolding unix ◌+ℤ◌
expire_time = refl

expire-Models_example :
    DoesIfShown ⦃art = trees⦄ cfg none
      (expire ⦃art = trees⦄ cfg key0 (pos 5000000000) (pos 2000000000))
      db0
      (λ v. update spec0 key0 (some (v, unix (pos 2000000000 +ℤ pos 5000000000))))
expire-Models_example =
    expire-Models ⦃art = trees⦄ cfg db0 spec0 key0 (pos 5000000000) (pos 2000000000) db0-Models refl
      (can_set [] (unix (pos 2000000000 +ℤ pos 5000000000)) 7 expire_time (omega arith)
        (omega arith))
