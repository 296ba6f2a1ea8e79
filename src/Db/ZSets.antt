-- ===== src/Db/ZSets.antt =====
-- zset.go: a sorted set has a tree of the members' scores, which lead to the log files, and a skip
-- list of the members in order. A method holds the lock of the index, so it is one step; `ts` is
-- the clock in seconds.
pub mod Ranges
pub mod Lock
pub mod Removes
pub mod Models
pub mod Spans
use lazy_db.Prelude.{
  ℕ, zero, suc, ◌+◌, ◌%◌, ◌≡◌, Bool, true, false, Option, none, some, List, [], ◌∷◌, Bytes, length,
  ltb, ◌==◌, ◌&&◌, ◌||◌, if◌then◌else◌,
}
use lazy_db.Prelude.Res.{
  Res, ok, err, fatal, invalid_param, zset_key_not_exist, zset_member_not_exist,
}
use lazy_db.Prelude.Exec.{Exec, pure, raise, lift, ◌>>=◌, ◌>>◌}
use lazy_db.Prelude.Int.{ℤ, pos, ◌-ℤ◌}
use lazy_db.Std.Float.{Scores}
use lazy_db.Std.SkipList.{SkipList}
use lazy_db.Std.GoMap
use lazy_db.Std.GoMap.{GoMap, bytes_eq_keys}
use lazy_db.Ds.Art.{Art, tree_get}
use lazy_db.Logfile.Entry.{LogEntry}
use lazy_db.Db.Store.{Config, ValuePos, value_type_zset, write_log_entry}
use lazy_db.Db.Index.{Value, plain_entry, get_value, update_index_tree}
use lazy_db.Db.Keys.{encode_key}
use lazy_db.Db.StrValues.{bytes_of}
use lazy_db.Db.Trees
use lazy_db.Db.Trees.{TreeDb, tree_of, open_tree}
use lazy_db.Db.Nodes.{Node, byte_to_float64}

module _ ⦃art : Art Value⦄ (fl : Scores) (sl : SkipList (Node fl)) where
  -- `zSetIndex`: the trees and the skip lists of the `ZSetIndex` of each key, which come and stay
  -- together. `stuck` tells that a method returned without unlocking the mutex.
  pub record ZDb : Type 0 where
    pub base : TreeDb
    pub skls : GoMap Bytes sl.SList
    pub stuck : Bool

  -- A step on the trees and the log files.
  abbrev pub on_base : {A : Type 0} → Exec TreeDb A → Exec ZDb A
  on_base m db = let (r, b) = m db.base in (r, record db { base = b })

  abbrev pub skl_of : ZDb → Bytes → Option sl.SList
  skl_of db key = GoMap.lookup key db.skls

  -- A method begins with the lock. Where that was left locked, the call never returns.
  abbrev pub locked : {A : Type 0} → Exec ZDb A → Exec ZDb A
  locked m db = if db.stuck then (fatal, db) else m db

  -- A change of the skip list of a key; one that is not there is a nil pointer.
  unfoldable pub on_skl : Bytes → (sl.SList → sl.SList) → Exec ZDb (Unit {0})
  on_skl key f db = elim (skl_of db key) [
    | none ↦ (fatal, db)
    | some skl ↦ (ok tt, record db { skls = GoMap.insert key (f skl) db.skls })
  ]

  abbrev pub node : fl.F → Bytes → Node fl
  node score member = record { score = score; member = member }

  -- `if db.zSetIndex.indexes[strKey] == nil`: a new tree and a new skip list.
  unfoldable pub open_index : Bytes → Exec ZDb (Unit {0})
  unfolding open_tree
  open_index key db = elim (tree_of db.base key) [
    | some tree ↦ (ok tt, db)
    | none ↦
        let (r, b) = open_tree key db.base in
        (r, record db { base = b; skls = GoMap.insert key sl.new db.skls })
  ]

  -- `db.getValue(tree, zsetKey, valueTypeZSet)`
  unfoldable pub read_score : Bytes → Bytes → ℤ → Exec ZDb (Option Bytes)
  read_score key zset_key ts db = elim (tree_of db.base key) [
    | none ↦ (fatal, db)
    | some tree ↦ (get_value tree zset_key ts db.base.log, db)
  ]

  -- The old score of a member leaves the skip list.
  unfoldable pub drop_old : Bytes → Bytes → Bytes → ℤ → Exec ZDb (Unit {0})
  drop_old key zset_key member ts db = elim (tree_of db.base key) [
    | none ↦ (fatal, db)
    | some tree ↦ elim (tree_get {V = Value} tree zset_key) [
      | none ↦ (ok tt, db)
      | some val ↦
          (do
            ori_score ← read_score key zset_key ts
            score ← lift (byte_to_float64 fl (bytes_of ori_score))
            on_skl key (λ skl. sl.delete skl (node score member)))
            db
    ]
  ]

  -- `db.updateIndexTree(valueTypeZSet, tree, entry, valPos, true)`
  unfoldable pub update_z : Bytes → LogEntry → ValuePos → Exec TreeDb (Unit {0})
  update_z key entry val_pos b = elim (tree_of b key) [
    | none ↦ (fatal, b)
    | some tree ↦
        Trees.finish_update key b (update_index_tree value_type_zset tree entry val_pos true b.log)
  ]

  -- A round of the loop of `ZAdd`.
  unfoldable pub add_pair : Config → Bytes → Bytes → Bytes → ℤ → Exec ZDb (Unit {0})
  add_pair cfg key score member ts = do
    zset_key ← lift (encode_key key member)
    val_pos ← on_base (Trees.on_log (write_log_entry cfg (plain_entry zset_key score)))
    drop_old key zset_key member ts
    on_base (update_z key (plain_entry zset_key score) val_pos)
    s ← lift (byte_to_float64 fl score)
    on_skl key (λ skl. sl.insert skl (node s member))

  add_pairs : Config → Bytes → List Bytes → ℤ → Exec ZDb (Unit {0})
  add_pairs cfg key [] ts = pure tt
  add_pairs cfg key (score ∷ []) ts = pure tt
  add_pairs cfg key (score ∷ member ∷ args) ts = do
    add_pair cfg key score member ts
    add_pairs cfg key args ts

  -- `ZAdd`
  unfoldable pub z_add : Config → Bytes → List Bytes → ℤ → Exec ZDb (Unit {0})
  unfolding add_pairs
  z_add cfg key args ts =
      if length args % 2 == 1
      then raise invalid_param
      else if length args == 0
      then pure tt
      else locked (open_index key >> add_pairs cfg key args ts)

  -- The end of `ZScore`.
  unfoldable pub score_of : Res (Option Bytes) → Res fl.F
  score_of (ok val) = byte_to_float64 fl (bytes_of val)
  score_of (err e) = err zset_member_not_exist
  score_of fatal = fatal

  unfoldable pub find_score : Bytes → Bytes → ℤ → Exec ZDb fl.F
  find_score key member ts db = elim (tree_of db.base key) [
    | none ↦ (err zset_key_not_exist, db)
    | some tree ↦
        (do
          zset_key ← lift (encode_key key member)
          lift (score_of (get_value tree zset_key ts db.base.log)))
          db
  ]

  -- `ZScore`
  unfoldable pub z_score : Bytes → Bytes → ℤ → Exec ZDb fl.F
  z_score key member ts = locked (find_score key member ts)

  -- `ZCard`
  unfoldable pub z_card : Bytes → Exec ZDb ℕ
  z_card key = locked (λ db. elim (tree_of db.base key) [
    | none ↦ (ok 0, db)
    | some tree ↦ (ok (art.size tree), db)
  ])

  -- A number that the skip list of the key gives.
  abbrev from_skl : {A : Type 0} → Bytes → (sl.SList → A) → Exec ZDb A
  from_skl key f db = elim (skl_of db key) [ none ↦ (fatal, db) | some skl ↦ (ok (f skl), db) ]

  -- `ZRank`
  unfoldable pub z_rank : Bytes → Bytes → ℤ → Exec ZDb ℤ
  z_rank key member ts = do
    score ← z_score key member ts
    from_skl key (λ skl. pos (sl.get_rank skl (node score member)) -ℤ pos 1)

  -- `ZRevRank`
  unfoldable pub z_rev_rank : Bytes → Bytes → ℤ → Exec ZDb ℤ
  z_rev_rank key member ts = do
    score ← z_score key member ts
    from_skl key (λ skl. pos (length (sl.nodes skl)) -ℤ pos (sl.get_rank skl (node score member)))
