-- ===== src/Db/Str.antt =====
-- str.go and tx_str.go: the methods on strings. A method holds the lock of the string index, so it
-- is one step; `ts` is the clock in seconds, `now` in nanoseconds.
pub mod Multi
pub mod Counter
pub mod Scan
pub mod Models
pub mod Deletes
pub mod Commands
pub mod Ranges
pub mod Reads
pub mod Timed
use lazy_db.Prelude.{
  ℕ, zero, suc, ◌+◌, ◌-◌, ◌%◌, ◌^◌, ◌≤◌, ◌≡◌, Bool, true, false, Option, none, some, List, [], ◌∷◌,
  ◌++◌, Bytes, length, take, drop, ltb, leb, ◌==◌, ◌&&◌, ◌||◌, not, if◌then◌else◌, is_some,
}
use lazy_db.Prelude.Res.{
  Res, Error, ok, err, fatal, key_not_found, invalid_param, wrong_value_type, integer_overflow,
}
use lazy_db.Prelude.Exec.{Exec, pure, raise, lift, gets, continue, ◌>>=◌, ◌>>◌}
use lazy_db.Prelude.Int.{
  ℤ, pos, negsuc, ◌+ℤ◌, ◌-ℤ◌, ltb_ℤ, leb_ℤ, pos_part, is_zero, signed64, word64,
}
use lazy_db.Std.Clock.{unix}
use lazy_db.Std.Decimal.{parse_int, format_int}
use lazy_db.Ds.Art.{Art, tree_get, tree_put, tree_delete, prefix_scan}
use lazy_db.Logfile.Entry.{LogEntry}
use lazy_db.Db.StrValues.{bytes_of, or_nil, cut_range}
use lazy_db.Db.Store.{Config, LogSet, ValuePos, value_type_string, write_log_entry}
use lazy_db.Db.Index.{
  Value, plain_entry, delete_entry, has_expired, send_value, send_discard, get_value,
  update_index_tree, encoded_size,
}

module _ ⦃art : Art Value⦄ where
  -- The index of the strings and their log files.
  pub record StrDb : Type 0 where
    pub idx_tree : art.Tree
    pub log : LogSet

  -- A step on the log files.
  abbrev pub on_log : {A : Type 0} → Exec LogSet A → Exec StrDb A
  on_log m db = let (r, l) = m db.log in (r, record db { log = l })

  -- `db.getValue(db.strIndex.idxTree, key, valueTypeString)`
  abbrev pub lookup_str : Bytes → ℤ → Exec StrDb (Option Bytes)
  lookup_str key ts db = (get_value db.idx_tree key ts db.log, db)

  -- The tree and the log files go back into the database.
  unfoldable pub finish_update : StrDb → Res art.Tree × LogSet → Res (Unit {0}) × StrDb
  finish_update db (ok t, l) = (ok tt, record { idx_tree = t; log = l })
  finish_update db (err e, l) = (err e, record db { log = l })
  finish_update db (fatal, l) = (fatal, record db { log = l })

  -- `db.updateIndexTree(valueTypeString, db.strIndex.idxTree, entry, valuePos, true)`
  unfoldable pub update_str : LogEntry → ValuePos → Exec StrDb (Unit {0})
  update_str entry v_pos db =
      finish_update db (update_index_tree value_type_string db.idx_tree entry v_pos true db.log)

  -- `db.strIndex.idxTree.Delete(key)`
  abbrev take_key : Bytes → Exec StrDb (Option Value × Bool)
  take_key key db =
      let (t, del_val, updated) = tree_delete db.idx_tree key in
      (ok (del_val, updated), record db { idx_tree = t })

  -- `writeLogEntry` and `updateIndexTree`, as every method that stores a value ends.
  unfoldable pub store_entry : Config → LogEntry → Exec StrDb (Unit {0})
  store_entry cfg entry = do
    value_pos ← on_log (write_log_entry cfg entry)
    update_str entry value_pos

  -- `Set`
  unfoldable pub set : Config → Bytes → Bytes → Exec StrDb (Unit {0})
  set cfg key value = store_entry cfg (plain_entry key value)

  -- `Get`
  unfoldable pub get : Bytes → ℤ → Exec StrDb (Option Bytes)
  get key ts = lookup_str key ts

  -- `GetRange`
  unfoldable pub get_range : Bytes → ℤ → ℤ → ℤ → Exec StrDb Bytes
  get_range key start stop ts = do
    val ← lookup_str key ts
    pure (cut_range (bytes_of val) start stop)

  -- The value of a key, nil where it has none.
  abbrev pub find_str : Bytes → ℤ → Exec StrDb (Option Bytes)
  find_str key ts db = (or_nil (get_value db.idx_tree key ts db.log), db)

  -- The end of `GetDel` and of `Delete`: the entry of the deletion is written, the key leaves the
  -- index, and both the old entry and the new one count as dead.
  unfoldable pub delete_key : Config → Bytes → Exec StrDb (Unit {0})
  delete_key cfg key = do
    p ← on_log (write_log_entry cfg (delete_entry key))
    (del_val, updated) ← take_key key
    on_log (send_discard del_val updated)
    size ← lift (encoded_size (delete_entry key))
    on_log (send_value p.fid size)

  -- `Delete`
  unfoldable pub delete : Config → Bytes → Exec StrDb (Unit {0})
  delete cfg key = delete_key cfg key

  -- `GetDel`
  unfoldable pub get_del : Config → Bytes → ℤ → Exec StrDb (Option Bytes)
  get_del cfg key ts = do
    val ← find_str key ts
    elim val [ none ↦ pure none | some v ↦ do delete_key cfg key; pure (some v) ]

  -- `SetEX`
  unfoldable pub set_ex : Config → Bytes → Bytes → ℤ → ℤ → Exec StrDb (Unit {0})
  set_ex cfg key value duration now =
      store_entry cfg (record (plain_entry key value) { expired_at = unix (now +ℤ duration) })

  -- `SetNX`
  unfoldable pub set_nx : Config → Bytes → Bytes → ℤ → Exec StrDb (Unit {0})
  set_nx cfg key value ts = do
    val ← find_str key ts
    elim val [ some v ↦ pure tt | none ↦ store_entry cfg (plain_entry key value) ]

  -- `Append`
  unfoldable pub append : Config → Bytes → Bytes → ℤ → Exec StrDb (Unit {0})
  append cfg key value ts = do
    val ← find_str key ts
    store_entry cfg (plain_entry key (bytes_of val ++ value))

  -- `StrLen`: 0 on any error.
  unfoldable pub str_len : Bytes → ℤ → StrDb → Res ℕ
  str_len key ts db = elim (get_value db.idx_tree key ts db.log) [
    | ok val ↦ ok (length (bytes_of val))
    | err e ↦ ok 0
    | fatal ↦ fatal
  ]

  -- `Expire`. Between the lookup and `SetEX` the lock is free; no other call comes in between here.
  unfoldable pub expire : Config → Bytes → ℤ → ℤ → Exec StrDb (Unit {0})
  expire cfg key duration now =
      if leb_ℤ duration (pos 0)
      then pure tt
      else do val ← lookup_str key (unix now); set_ex cfg key (bytes_of val) duration now

  -- `TTL`
  unfoldable pub ttl : Bytes → ℤ → StrDb → Res ℤ
  ttl key ts db = elim (tree_get {V = Value} db.idx_tree key) [
    | none ↦ err key_not_found
    | some node ↦ ok (if is_zero node.expired_at then pos 0 else node.expired_at -ℤ ts)
  ]

  -- `Persist`, with the same gap as `Expire`.
  unfoldable pub persist : Config → Bytes → ℤ → Exec StrDb (Unit {0})
  persist cfg key ts = do val ← lookup_str key ts; set cfg key (bytes_of val)
