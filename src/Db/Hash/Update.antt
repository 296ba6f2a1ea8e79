-- ===== src/Db/Hash/Update.antt =====
-- hash.go: `HSet`, `HSetNX` and `HDel`.
use lazy_db.Prelude.{
  ℕ, ◌+◌, ◌%◌, Bool, Option, none, some, List, [], ◌∷◌, Bytes, length, ◌==◌, if◌then◌else◌,
}
use lazy_db.Prelude.Res.{Res, ok, err, fatal, key_not_found, invalid_param}
use lazy_db.Prelude.Exec.{Exec, pure, raise, lift, ◌>>=◌, ◌>>◌}
use lazy_db.Prelude.Int.{ℤ}
use lazy_db.Ds.Art.{Art}
use lazy_db.Db.Store.{Config, value_type_hash, write_log_entry}
use lazy_db.Db.Index.{Value, plain_entry, delete_entry}
use lazy_db.Db.Keys.{encode_key}
use lazy_db.Db.Trees.{TreeDb, tree_of, on_log, open_tree, store_in, delete_in, discard_both}
use lazy_db.Db.Hash.{get_field}

module _ ⦃art : Art Value⦄ where
  -- A round of the loop of `HSet`.
  unfoldable pub set_field : Config → Bytes → Bytes → Bytes → Exec TreeDb (Unit {0})
  set_field cfg key field value = do
    hash_key ← lift (encode_key key field)
    store_in value_type_hash cfg key (plain_entry hash_key value)

  set_loop : Config → Bytes → List Bytes → Exec TreeDb (Unit {0})
  set_loop cfg key [] = pure tt
  set_loop cfg key (field ∷ []) = pure tt
  set_loop cfg key (field ∷ value ∷ args) = do set_field cfg key field value; set_loop cfg key args

  -- `HSet`
  unfoldable pub h_set : Config → Bytes → List Bytes → Exec TreeDb (Unit {0})
  unfolding set_loop
  h_set cfg key args =
      if length args % 2 == 1
      then raise invalid_param
      else if length args == 0
      then pure tt
      else (do open_tree key; set_loop cfg key args)

  -- The end of `HSetNX`, over what the lookup of the field gave.
  unfoldable pub set_if_missing :
      Config → Bytes → Bytes → Bytes → Res (Option Bytes) → Exec TreeDb (Unit {0})
  set_if_missing cfg key field value (ok v) = pure tt
  set_if_missing cfg key field value (err key_not_found) = set_field cfg key field value
  set_if_missing cfg key field value (err e) = raise e
  set_if_missing cfg key field value fatal = lift fatal

  -- The lookup of a field in the tree of its key.
  unfoldable pub find_field : Bytes → Bytes → ℤ → TreeDb → Res (Option Bytes)
  find_field key field ts db = elim (tree_of db key) [
    | none ↦ fatal
    | some tree ↦ get_field tree key field ts db
  ]

  -- `HSetNX`
  unfoldable pub h_set_nx : Config → Bytes → Bytes → Bytes → ℤ → Exec TreeDb (Unit {0})
  h_set_nx cfg key field value ts = do
    open_tree key
    λ db. set_if_missing cfg key field value (find_field key field ts db) db

  -- A round of the loop of `HDel`: whether the field was there.
  unfoldable pub delete_field : Config → Bytes → Bytes → Exec TreeDb Bool
  delete_field cfg key field = do
    hash_key ← lift (encode_key key field)
    let entry = delete_entry hash_key
    p ← on_log (write_log_entry cfg entry)
    (val, updated) ← delete_in key hash_key
    discard_both val updated p entry
    pure updated

  -- The loop of `HDel`. The count that the code returns beside an error is left out.
  del_loop : Config → Bytes → List Bytes → ℕ → Exec TreeDb ℕ
  del_loop cfg key [] count = pure count
  del_loop cfg key (field ∷ fields) count = do
    updated ← delete_field cfg key field
    del_loop cfg key fields (if updated then count + 1 else count)

  -- `HDel`
  unfoldable pub h_del : Config → Bytes → List Bytes → Exec TreeDb ℕ
  unfolding del_loop
  h_del cfg key fields db = elim (tree_of db key) [
    | none ↦ (ok 0, db)
    | some tree ↦ del_loop cfg key fields 0 db
  ]
