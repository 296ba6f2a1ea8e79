-- ===== src/Db/ZSets/Removes.antt =====
-- zset.go: the methods that change a score or remove members.
use lazy_db.Prelude.{
  ℕ, zero, suc, Bool, true, false, Option, none, some, List, [], ◌∷◌, Bytes, length, if◌then◌else◌,
}
use lazy_db.Prelude.Res.{Res, ok, err, fatal, key_not_found}
use lazy_db.Prelude.Exec.{Exec, pure, lift, ◌>>=◌, ◌>>◌}
use lazy_db.Prelude.Int.{ℤ, pos, pos_part}
use lazy_db.Std.Float.{Scores}
use lazy_db.Std.SkipList.{SkipList}
use lazy_db.Ds.Art.{Art}
use lazy_db.Db.Store.{Config, write_log_entry}
use lazy_db.Db.Index.{Value, delete_entry, get_value}
use lazy_db.Db.Keys.{encode_key}
use lazy_db.Db.StrValues.{bytes_of}
use lazy_db.Db.Trees
use lazy_db.Db.Trees.{tree_of, delete_in, discard_both}
use lazy_db.Db.Nodes.{Node, byte_to_float64, float64_to_byte, int_min}
use lazy_db.Db.ZSets.{ZDb, skl_of, locked, on_base, on_skl, node, z_score, z_add}

-- A lookup whose `ErrKeyNotFound` is no error.
abbrev pub or_missing {ℓ} : {A : Type ℓ} → Res A → Res (Option A)
or_missing (ok a) = ok (some a)
or_missing (err key_not_found) = ok none
or_missing (err e) = err e
or_missing fatal = fatal

abbrev pub first_of {ℓ} : {A : Type ℓ} → List A → Option A
first_of [] = none
first_of (x ∷ xs) = some x

abbrev pub last_of {ℓ} : {A : Type ℓ} → List A → Option A
last_of [] = none
last_of (x ∷ []) = some x
last_of (x ∷ y ∷ xs) = last_of (y ∷ xs)

module _ ⦃art : Art Value⦄ (fl : Scores) (sl : SkipList (Node fl)) where
  -- `score, _ := db.ZScore(key, member)`
  abbrev pub or_zero : Res fl.F → Res fl.F
  or_zero (ok s) = ok s
  or_zero (err e) = ok fl.zero_f
  or_zero fatal = fatal

  -- `ZIncrBy`
  unfoldable pub z_incr_by : Config → Bytes → fl.F → Bytes → ℤ → Exec (ZDb fl sl) fl.F
  z_incr_by cfg key increment member ts = do
    score ← λ db. let (r, db') = z_score fl sl key member ts db in (or_zero r, db')
    z_add fl sl cfg key (float64_to_byte fl (fl.add_f score increment) ∷ member ∷ []) ts
    pure (fl.add_f score increment)

  -- `db.getValue(idx.tree, zSetKey, valueTypeZSet)`
  unfoldable pub find_value : Bytes → Bytes → ℤ → Exec (ZDb fl sl) (Option (Option Bytes))
  find_value key zset_key ts db = elim (tree_of db.base key) [
    | none ↦ (fatal, db)
    | some tree ↦ (or_missing (get_value tree zset_key ts db.base.log), db)
  ]

  -- A round of the loop of `ZRem`: whether the member was there. The entry of the deletion is
  -- written in any case.
  unfoldable pub rem_member : Config → Bytes → Bytes → ℤ → Exec (ZDb fl sl) Bool
  rem_member cfg key member ts = do
    zset_key ← lift (encode_key key member)
    p ← on_base fl sl (Trees.on_log (write_log_entry cfg (delete_entry zset_key)))
    value ← find_value key zset_key ts
    elim value [
      | none ↦ pure false
      | some v ↦ do
        (val, updated) ← on_base fl sl (delete_in key zset_key)
        score ← lift (byte_to_float64 fl (bytes_of v))
        on_skl fl sl key (λ skl. sl.delete skl (node fl sl score member))
        on_base fl sl (discard_both val updated p (delete_entry zset_key))
        pure true
    ]

  rem_loop : Config → Bytes → List Bytes → ℤ → Exec (ZDb fl sl) ℕ
  rem_loop cfg key [] ts = pure 0
  rem_loop cfg key (member ∷ members) ts = do
    there ← rem_member cfg key member ts
    count ← rem_loop cfg key members ts
    pure (if there then suc count else count)

  -- `ZRem`
  unfoldable pub z_rem : Config → Bytes → List Bytes → ℤ → Exec (ZDb fl sl) ℕ
  unfolding rem_loop
  z_rem cfg key members ts = locked fl sl (λ db. elim (tree_of db.base key) [
    | none ↦ (ok 0, db)
    | some tree ↦ rem_loop cfg key members ts db
  ])

  -- `return nil, 0, nil` without an unlock.
  abbrev pub left_locked : {A : Type 0} → A → Exec (ZDb fl sl) A
  left_locked a db = (ok a, record db { stuck = true })

  -- What `ZPopMax` and `ZPopMin` do alike; `pick` is the element of the highest or lowest rank.
  unfoldable pub z_pop :
      (List (Node fl) → Option (Node fl))
      → Config
      → Bytes
      → ℤ
      → Exec (ZDb fl sl) (Option (Bytes × fl.F))
  z_pop pick cfg key ts = locked fl sl (λ db. elim (skl_of fl sl db key) [
    | none ↦ left_locked none db
    | some skl ↦ elim (pick (sl.nodes skl)) [
      | none ↦ left_locked none db
      | some n ↦ (z_rem cfg key (n.member ∷ []) ts >> pure (some (n.member, n.score))) db
    ]
  ])

  -- `ZPopMax`
  abbrev pub z_pop_max : Config → Bytes → ℤ → Exec (ZDb fl sl) (Option (Bytes × fl.F))
  z_pop_max = z_pop last_of

  -- `ZPopMin`
  abbrev pub z_pop_min : Config → Bytes → ℤ → Exec (ZDb fl sl) (Option (Bytes × fl.F))
  z_pop_min = z_pop first_of

  pop_loop :
      (List (Node fl) → Option (Node fl))
      → Config
      → Bytes
      → ℕ
      → ℤ
      → Exec (ZDb fl sl) (List (Option (Bytes × fl.F)))
  pop_loop pick cfg key zero ts = pure []
  pop_loop pick cfg key (suc n) ts = do
    one ← z_pop pick cfg key ts
    rest ← pop_loop pick cfg key n ts
    pure (one ∷ rest)

  -- What `ZPopMaxWithCount` and `ZPopMinWithCount` do alike.
  unfoldable pub z_pop_with_count :
      (List (Node fl) → Option (Node fl))
      → Config
      → Bytes
      → ℤ
      → ℤ
      → Exec (ZDb fl sl) (List (Option (Bytes × fl.F)))
  unfolding pop_loop
  z_pop_with_count pick cfg key count ts = locked fl sl (λ db. elim (skl_of fl sl db key) [
    | none ↦ left_locked [] db
    | some skl ↦
        pop_loop pick cfg key (pos_part (int_min count (pos (length (sl.nodes skl))))) ts db
  ])

  abbrev pub z_pop_max_with_count :
      Config → Bytes → ℤ → ℤ → Exec (ZDb fl sl) (List (Option (Bytes × fl.F)))
  z_pop_max_with_count = z_pop_with_count last_of

  abbrev pub z_pop_min_with_count :
      Config → Bytes → ℤ → ℤ → Exec (ZDb fl sl) (List (Option (Bytes × fl.F)))
  z_pop_min_with_count = z_pop_with_count first_of
