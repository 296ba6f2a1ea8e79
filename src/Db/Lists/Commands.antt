-- ===== src/Db/Lists/Commands.antt =====
-- list.go: the methods on lists.
use lazy_db.Prelude.{
  ℕ, zero, suc, ◌+◌, ◌-◌, Bool, true, false, Option, none, some, List, [], ◌∷◌, Bytes, length, leb,
  ltb, ◌==◌, ◌||◌, if◌then◌else◌,
}
use lazy_db.Prelude.Res.{Res, ok, err, fatal, key_not_found, wrong_index}
use lazy_db.Prelude.Exec.{Exec, pure, raise, ◌>>=◌, ◌>>◌}
use lazy_db.Prelude.Int.{ℤ}
use lazy_db.Std.GoMap.{bytes_eq_keys}
use lazy_db.Ds.Art.{Art}
use lazy_db.Db.Store.{Config, value_type_list}
use lazy_db.Db.Index.{Value, plain_entry, get_value}
use lazy_db.Db.Trees.{TreeDb, tree_of, open_tree, store_in}
use lazy_db.Db.Lists.{add32, sub32, encode_list_key, l_sequence, l_meta}
use lazy_db.Db.Lists.Ends.{push, pop}

module _ ⦃art : Art Value⦄ where
  push_all : Config → Bytes → List Bytes → Bool → ℤ → Exec TreeDb (Unit {0})
  push_all cfg key [] is_left ts = pure tt
  push_all cfg key (arg ∷ args) is_left ts = do
    push cfg key arg is_left ts
    push_all cfg key args is_left ts

  -- `LPush` and `RPush`
  unfoldable pub push_to : Config → Bytes → List Bytes → Bool → ℤ → Exec TreeDb (Unit {0})
  unfolding push_all
  push_to cfg key args is_left ts =
      if length args == 0 then pure tt else do open_tree key; push_all cfg key args is_left ts

  -- `LPushX` and `RPushX`
  unfoldable pub push_x : Config → Bytes → List Bytes → Bool → ℤ → Exec TreeDb (Unit {0})
  unfolding push_all
  push_x cfg key args is_left ts =
      let push_known : Exec TreeDb (Unit {0}) = λ db. elim (tree_of db key) [
        | none ↦ (err key_not_found, db)
        | some tree ↦ push_all cfg key args is_left ts db
      ] in
      if length args == 0 then pure tt else push_known

  unfoldable pub l_push : Config → Bytes → List Bytes → ℤ → Exec TreeDb (Unit {0})
  l_push cfg key args ts = push_to cfg key args true ts

  unfoldable pub r_push : Config → Bytes → List Bytes → ℤ → Exec TreeDb (Unit {0})
  r_push cfg key args ts = push_to cfg key args false ts

  unfoldable pub l_push_x : Config → Bytes → List Bytes → ℤ → Exec TreeDb (Unit {0})
  l_push_x cfg key args ts = push_x cfg key args true ts

  unfoldable pub r_push_x : Config → Bytes → List Bytes → ℤ → Exec TreeDb (Unit {0})
  r_push_x cfg key args ts = push_x cfg key args false ts

  unfoldable pub l_pop : Config → Bytes → ℤ → Exec TreeDb (Option Bytes)
  l_pop cfg key ts = pop cfg key true ts

  unfoldable pub r_pop : Config → Bytes → ℤ → Exec TreeDb (Option Bytes)
  r_pop cfg key ts = pop cfg key false ts

  -- The number of the element at an index of a list, which must lie between its ends.
  unfoldable pub find_seq : art.Tree → Bytes → ℤ → ℤ → Exec TreeDb ℕ
  find_seq tree key index ts = do
    (head_seq, tail_seq) ← λ db. (l_meta tree key ts db, db)
    let s = l_sequence head_seq tail_seq index
    (if leb s head_seq || leb tail_seq s then raise wrong_index else pure s)

  -- `LSet`
  unfoldable pub l_set : Config → Bytes → ℤ → Bytes → ℤ → Exec TreeDb (Unit {0})
  l_set cfg key index value ts db = elim (tree_of db key) [
    | none ↦ (err key_not_found, db)
    | some tree ↦
        (do
          s ← find_seq tree key index ts
          store_in value_type_list cfg key (plain_entry (encode_list_key key s) value))
          db
  ]

  -- `LIndex`
  unfoldable pub l_index : Bytes → ℤ → ℤ → Exec TreeDb (Option Bytes)
  l_index key index ts db = elim (tree_of db key) [
    | none ↦ (err key_not_found, db)
    | some tree ↦
        (do
          s ← find_seq tree key index ts
          λ db'. (get_value tree (encode_list_key key s) ts db'.log, db'))
          db
  ]

  -- `LLen`: 0 on any error.
  unfoldable pub l_len : Bytes → ℤ → TreeDb → Res ℕ
  l_len key ts db = elim (tree_of db key) [
    | none ↦ ok 0
    | some tree ↦ elim (l_meta tree key ts db) [
      | ok (head_seq, tail_seq) ↦ ok (sub32 (sub32 tail_seq head_seq) 1)
      | err e ↦ ok 0
      | fatal ↦ fatal
    ]
  ]

  -- The loop of `LRange`: `n` numbers from `seq` on.
  unfoldable pub range_loop : ℕ → art.Tree → Bytes → ℕ → ℤ → Exec TreeDb (List (Option Bytes))
  range_loop zero tree key seq ts = pure []
  range_loop (suc n) tree key seq ts = do
    value ← λ db. (get_value tree (encode_list_key key seq) ts db.log, db)
    values ← range_loop n tree key (seq + 1) ts
    pure (value ∷ values)

  -- `LRange` between two numbers: they are cut to the list.
  unfoldable pub range_seqs :
      art.Tree → Bytes → ℕ → ℕ → ℕ → ℕ → ℤ → Exec TreeDb (List (Option Bytes))
  unfolding range_loop
  range_seqs tree key head_seq tail_seq start_seq stop_seq ts =
      let start = if leb start_seq head_seq then add32 head_seq 1 else start_seq in
      let stop = if leb tail_seq stop_seq then sub32 tail_seq 1 else stop_seq in
      if ltb stop_seq start_seq || leb tail_seq start_seq || leb stop_seq head_seq
      then raise wrong_index
      else range_loop (add32 stop 1 - start) tree key start ts

  -- `LRange`
  unfoldable pub l_range : Bytes → ℤ → ℤ → ℤ → Exec TreeDb (List (Option Bytes))
  l_range key start stop ts db = elim (tree_of db key) [
    | none ↦ (err key_not_found, db)
    | some tree ↦
        (do
          (head_seq, tail_seq) ← λ db'. (l_meta tree key ts db', db')
          range_seqs tree key head_seq tail_seq (l_sequence head_seq tail_seq start)
              (l_sequence head_seq tail_seq stop) ts)
          db
  ]

  -- `LMove`
  unfoldable pub l_move : Config → Bytes → Bytes → Bool → Bool → ℤ → Exec TreeDb (Option Bytes)
  l_move cfg source_key dist_key source_is_left dist_is_left ts = do
    val ← pop cfg source_key source_is_left ts
    elim val [
      | none ↦ pure none
      | some v ↦ do open_tree dist_key; push cfg dist_key v dist_is_left ts; pure (some v)
    ]
