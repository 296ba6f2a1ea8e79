-- ===== src/Db/Hash.antt =====
-- hash.go: a hash has one tree, whose keys are made of the key and the field.
pub mod Update
pub mod Models
pub mod SetNx
use lazy_db.Prelude.{
  ℕ, zero, suc, ◌+◌, ◌%◌, ◌≡◌, Bool, true, false, Option, none, some, List, [], ◌∷◌, Bytes, length,
  ◌==◌, if◌then◌else◌,
}
use lazy_db.Prelude.Res.{Res, Error, ok, err, fatal, key_not_found, invalid_param, ◌>>=◌}
use lazy_db.Prelude.Exec
use lazy_db.Prelude.Exec.{Exec, pure, raise, lift, continue}
use lazy_db.Prelude.Int.{ℤ}
use lazy_db.Ds.Art.{Art}
use lazy_db.Logfile.Entry.{LogEntry}
use lazy_db.Db.Store.{Config, value_type_hash, write_log_entry}
use lazy_db.Db.Index.{Value, plain_entry, delete_entry, get_value}
use lazy_db.Db.StrValues.{or_nil, value_or_missing}
use lazy_db.Db.Keys.{encode_key, decode_key}
use lazy_db.Db.Trees.{TreeDb, tree_of, on_log, open_tree, store_in, delete_in, discard_both}

module _ ⦃art : Art Value⦄ where
  -- `db.getValue(idxTree, encodeKey(key, field), valueTypeHash)`
  unfoldable pub get_field : art.Tree → Bytes → Bytes → ℤ → TreeDb → Res (Option Bytes)
  get_field tree key field ts db = do
    hash_key ← encode_key key field
    get_value tree hash_key ts db.log

  -- `HGet`
  unfoldable pub h_get : Bytes → Bytes → ℤ → TreeDb → Res (Option Bytes)
  h_get key field ts db = elim (tree_of db key) [
    | none ↦ ok none
    | some tree ↦ or_nil (get_field tree key field ts db)
  ]

  abbrev to_exists : Res (Option Bytes) → Res Bool
  to_exists (ok v) = ok true
  to_exists (err key_not_found) = ok false
  to_exists (err e) = err e
  to_exists fatal = fatal

  -- `HExists`
  unfoldable pub h_exists : Bytes → Bytes → ℤ → TreeDb → Res Bool
  h_exists key field ts db = elim (tree_of db key) [
    | none ↦ ok false
    | some tree ↦ to_exists (get_field tree key field ts db)
  ]

  -- The fields and values of the leaves that a lookup finds.
  get_all_loop : art.Tree → List (Bytes × Value) → ℤ → TreeDb → Res (List (Option Bytes))
  get_all_loop tree [] ts db = ok []
  get_all_loop tree ((k, _) ∷ rest) ts db = do
    value ← value_or_missing (get_value tree k ts db.log)
    elim value [
      | none ↦ get_all_loop tree rest ts db
      | some v ↦ do
        (key, field) ← decode_key k
        results ← get_all_loop tree rest ts db
        ok (some field ∷ v ∷ results)
    ]

  -- `HGetAll`
  unfoldable pub h_get_all : Bytes → ℤ → TreeDb → Res (List (Option Bytes))
  unfolding get_all_loop
  h_get_all key ts db = elim (tree_of db key) [
    | none ↦ ok []
    | some tree ↦ get_all_loop tree (art.leaves tree) ts db
  ]

  keys_loop : List (Bytes × Value) → Res (List Bytes)
  keys_loop [] = ok []
  keys_loop ((k, _) ∷ rest) = do
    (key, field) ← decode_key k
    fields ← keys_loop rest
    ok (field ∷ fields)

  -- `HKeys`
  unfoldable pub h_keys : Bytes → TreeDb → Res (List Bytes)
  unfolding keys_loop
  h_keys key db = elim (tree_of db key) [ none ↦ ok [] | some tree ↦ keys_loop (art.leaves tree) ]

  vals_loop : art.Tree → List (Bytes × Value) → ℤ → TreeDb → Res (List (Option Bytes))
  vals_loop tree [] ts db = ok []
  vals_loop tree ((k, _) ∷ rest) ts db = do
    value ← value_or_missing (get_value tree k ts db.log)
    values ← vals_loop tree rest ts db
    ok (elim value [ none ↦ values | some v ↦ v ∷ values ])

  -- `HVals`
  unfoldable pub h_vals : Bytes → ℤ → TreeDb → Res (List (Option Bytes))
  unfolding vals_loop
  h_vals key ts db = elim (tree_of db key) [
    | none ↦ ok []
    | some tree ↦ vals_loop tree (art.leaves tree) ts db
  ]

  m_get_loop : art.Tree → Bytes → List Bytes → ℤ → TreeDb → Res (List (Option Bytes))
  m_get_loop tree key [] ts db = ok []
  m_get_loop tree key (field ∷ fields) ts db = do
    value ← value_or_missing (get_field tree key field ts db)
    values ← m_get_loop tree key fields ts db
    ok (elim value [ none ↦ values | some v ↦ v ∷ values ])

  -- `HMGet`
  unfoldable pub h_m_get : Bytes → List Bytes → ℤ → TreeDb → Res (List (Option Bytes))
  unfolding m_get_loop
  h_m_get key fields ts db = elim (tree_of db key) [
    | none ↦ ok []
    | some tree ↦ m_get_loop tree key fields ts db
  ]

  -- `HLen`
  unfoldable pub h_len : Bytes → TreeDb → ℕ
  h_len key db = elim (tree_of db key) [ none ↦ 0 | some tree ↦ art.size tree ]
