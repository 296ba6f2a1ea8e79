-- ===== src/Db/Str/Ranges.antt =====
-- `GetRange` of str.go against the abstract store.
use lazy_db.Prelude.{
  ℕ, ◌+◌, ◌-◌, ◌≤◌, ◌<◌, ◌≡◌, refl, Option, none, some, Bytes, length, take, drop,
}
use lazy_db.Prelude.Res.{Res, ok, err, key_not_found}
use lazy_db.Prelude.Int.{ℤ}
use lazy_db.Ds.Art.{Art}
use lazy_db.Db.Store.{Config}
use lazy_db.Db.Index.{Value}
use lazy_db.Db.StrValues.Numbers.{Denotes, cut_range_lem}
use lazy_db.Db.Str.{StrDb, get_range}
use lazy_db.Db.Str.Models.{Spec, Models}
use lazy_db.Db.Str.Commands.{shown, reply-shown, reply-hidden, get_value_lem}

-- The bounds stand for the indexes i and j of the value, where there is one.
abbrev pub Within : Option Bytes → ℤ → ℤ → ℕ → ℕ → Type 0
Within none start stop i j = Unit {0}
Within (some v) start stop i j =
    Denotes (length v) start i × Denotes (length v) stop j × (i ≤ j) × (j < length v)

-- The bytes from i to j, both included.
abbrev pub part_of : Option Bytes → ℕ → ℕ → Res Bytes
part_of none i j = err key_not_found
part_of (some v) i j = ok (take (j + 1 - i) (drop i v))

module _ ⦃art : Art Value⦄ where
  get_range_lem :
      (cfg : Config) (db : StrDb) (f : Spec) (key : Bytes) (start stop ts : ℤ) (i j : ℕ)
      (x : Option Bytes)
      → Models cfg db f
      → shown ts (f key) ≡ x
      → Within x start stop i j
      → get_range key start stop ts db ≡ (part_of x i j, db)
  unfolding get_range
  get_range_lem cfg db f key start stop ts i j none m e within =
      rw (get_value_lem cfg db f key ts m) (rw (reply-hidden ts (f key) e) refl)
  get_range_lem cfg db f key start stop ts i j (some v) m e (d1, d2, le, lt) =
      rw (get_value_lem cfg db f key ts m)
        (rw (reply-shown ts (f key) v e) (rw (cut_range_lem v start stop i j d1 d2 le lt) refl))

  -- On a database that stands for an abstract store, `GetRange` of a key that shows a value,
  -- between two bounds that stand for the indexes i and j of the value, from the front or by a
  -- negative number from the end, with i at most j and j an index of the value, answers the
  -- bytes from i to j, both included; of a key that shows none it answers `ErrKeyNotFound`,
  -- whatever the bounds are; the database stays as it was.
  pub get_range-Models :
      (cfg : Config) (db : StrDb) (f : Spec) (key : Bytes) (start stop ts : ℤ) (i j : ℕ)
      → Models cfg db f
      → Within (shown ts (f key)) start stop i j
      → get_range key start stop ts db ≡ (part_of (shown ts (f key)) i j, db)
  get_range-Models cfg db f key start stop ts i j m within =
      get_range_lem cfg db f key start stop ts i j (shown ts (f key)) m refl within
