-- ===== src/Db/Str/Scan.antt =====
-- str.go: `Count`, `Scan` and `GetStrsKeys`.
use lazy_db.Prelude.{ℕ, Bool, Option, none, some, List, [], ◌∷◌, Bytes, if◌then◌else◌}
use lazy_db.Prelude.Res.{ok}
use lazy_db.Prelude.Exec.{Exec, pure, ◌>>=◌}
use lazy_db.Prelude.Int.{ℤ, pos, leb_ℤ}
use lazy_db.Ds.Art.{Art, prefix_scan}
use lazy_db.Db.Index.{Value, get_value}
use lazy_db.Db.StrValues.{value_or_missing, live_keys}
use lazy_db.Db.Str.{StrDb}

module _ ⦃art : Art Value⦄ where
  -- `Count`: the keys of the index, expired or not.
  unfoldable pub count : StrDb → ℕ
  count db = art.size db.idx_tree

  -- The loop of `Scan` over the keys that the tree gave.
  scan_loop : (Bytes → Bool) → ℤ → List Bytes → Exec StrDb (List (Bytes × Option Bytes))
  scan_loop matches ts [] = pure []
  scan_loop matches ts (key ∷ keys) =
      let skip = scan_loop matches ts keys in
      let visit : Exec StrDb (List (Bytes × Option Bytes)) = (do
        val ← λ db. (value_or_missing (get_value db.idx_tree key ts db.log), db)
        values ← scan_loop matches ts keys
        pure (elim val [ none ↦ values | some v ↦ (key, v) ∷ values ])) in
      if matches key then visit else skip

  -- `Scan`. `matches` is the compiled pattern, and passes every key where there is none. The code
  -- gives keys and values in one list, here they are pairs.
  unfoldable pub scan : Bytes → (Bytes → Bool) → ℤ → ℤ → Exec StrDb (List (Bytes × Option Bytes))
  unfolding scan_loop
  scan prefix matches count ts db =
      if leb_ℤ count (pos 0)
      then (ok [], db)
      else scan_loop matches ts (prefix_scan art db.idx_tree prefix count) db

  -- `GetStrsKeys`
  unfoldable pub get_strs_keys : ℤ → StrDb → List Bytes
  unfolding live_keys
  get_strs_keys ts db = live_keys ts (art.leaves db.idx_tree)
