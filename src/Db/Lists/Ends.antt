-- ===== src/Db/Lists/Ends.antt =====
-- list.go: `push` and `pop`.
use lazy_db.Prelude.{ℕ, Bool, Option, none, some, Bytes, leb, ◌==◌, ◌||◌, not, if◌then◌else◌}
use lazy_db.Prelude.Res.{ok, err, fatal}
use lazy_db.Prelude.Exec.{Exec, pure, ◌>>=◌, ◌>>◌}
use lazy_db.Prelude.Int.{ℤ}
use lazy_db.Std.GoMap
use lazy_db.Std.GoMap.{GoMap, bytes_eq_keys}
use lazy_db.Ds.Art.{Art}
use lazy_db.Db.Store.{Config, value_type_list, write_log_entry}
use lazy_db.Db.Index.{Value, plain_entry, delete_entry, get_value}
use lazy_db.Db.Trees.{TreeDb, tree_of, on_log, store_in}
use lazy_db.Db.Lists.{initial_list_seq, add32, sub32, encode_list_key, l_meta, meta_of, save_l_meta}

module _ ⦃art : Art Value⦄ where
  -- `push`
  unfoldable pub push : Config → Bytes → Bytes → Bool → ℤ → Exec TreeDb (Unit {0})
  push cfg key arg is_left ts = do
    (head_seq, tail_seq) ← λ db. (meta_of key ts db, db)
    let s = if is_left then head_seq else tail_seq
    store_in value_type_list cfg key (plain_entry (encode_list_key key s) arg)
    (if is_left
        then save_l_meta cfg key (sub32 head_seq 1) tail_seq
        else save_l_meta cfg key head_seq (add32 tail_seq 1))

  -- `_ = db.saveLMeta(…)`: an error is passed over.
  unfoldable pub try_save : Config → Bytes → ℕ → ℕ → Exec TreeDb (Unit {0})
  try_save cfg key head_seq tail_seq db =
      let (r, db') = save_l_meta cfg key head_seq tail_seq db in
      (elim r [ ok u ↦ ok tt | err e ↦ ok tt | fatal ↦ fatal ], db')

  -- `delete(db.listIndex.trees, string(key))`
  abbrev pub drop_tree : Bytes → Exec TreeDb (Unit {0})
  drop_tree key db = (ok tt, record db { trees = GoMap.remove key db.trees })

  -- The end of `pop`: an empty list is reset, and its tree is dropped.
  unfoldable pub end_pop : Config → Bytes → ℕ → ℕ → Exec TreeDb (Unit {0})
  end_pop cfg key head_seq tail_seq =
      if sub32 (sub32 tail_seq head_seq) 1 == 0
      then (do
        (if not (head_seq == initial_list_seq) || not (tail_seq == add32 initial_list_seq 1)
            then try_save cfg key initial_list_seq (add32 initial_list_seq 1)
            else pure tt)
        drop_tree key)
      else pure tt

  -- The part of `pop` behind the lookup of the value. Where the entry of the deletion cannot be
  -- written the code answers nil without an error.
  unfoldable pub take_out :
      Config → Bytes → Bool → ℕ → ℕ → Bytes → Option Bytes → Exec TreeDb (Option Bytes)
  take_out cfg key is_left head_seq tail_seq list_key value db =
      let head_seq' = if is_left then add32 head_seq 1 else head_seq in
      let tail_seq' = if is_left then tail_seq else sub32 tail_seq 1 in
      let (r, db') = on_log (write_log_entry cfg (delete_entry list_key)) db in
      elim r [
        | ok p ↦
            (do
              save_l_meta cfg key head_seq' tail_seq'
              end_pop cfg key head_seq' tail_seq'
              pure value)
              db'
        | err e ↦ (ok none, db')
        | fatal ↦ (fatal, db')
      ]

  -- `pop` of a list that has a tree.
  unfoldable pub pop_tree : Config → Bytes → Bool → ℤ → art.Tree → Exec TreeDb (Option Bytes)
  pop_tree cfg key is_left ts tree = do
    (head_seq, tail_seq) ← λ db. (l_meta tree key ts db, db)
    let s = if is_left then add32 head_seq 1 else sub32 tail_seq 1
    let list_key = encode_list_key key s
    let take : Exec TreeDb (Option Bytes) = λ db. elim (get_value tree list_key ts db.log) [
      | ok value ↦ take_out cfg key is_left head_seq tail_seq list_key value db
      | err e ↦ (ok none, db)
      | fatal ↦ (fatal, db)
    ]
    (if leb (sub32 (sub32 tail_seq head_seq) 1) 0 then pure none else take)

  -- `pop`
  unfoldable pub pop : Config → Bytes → Bool → ℤ → Exec TreeDb (Option Bytes)
  pop cfg key is_left ts db = elim (tree_of db key) [
    | none ↦ (ok none, db)
    | some tree ↦ pop_tree cfg key is_left ts tree db
  ]
