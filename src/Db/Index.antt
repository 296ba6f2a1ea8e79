-- ===== src/Db/Index.antt =====
-- The index: where the newest entry of a key lies (index.go, and `sendDiscard` of db.go).
-- The clock is an argument: `ts` is `time.Now().Unix()` of the call.
pub mod Lookup
use lazy_db.Prelude.{
  ℕ, ◌+◌, ◌≡◌, Bool, true, false, Option, none, some, List, [], ◌∷◌, Bytes, length, ltb, leb, ◌==◌,
  ◌&&◌, ◌||◌, not, if◌then◌else◌,
}
use lazy_db.Prelude.Res.{Res, ok, err, fatal, key_not_found}
use lazy_db.Prelude.Exec.{Exec, pure, raise, lift, gets, continue, ◌>>=◌, ◌>>◌}
use lazy_db.Prelude.Int.{ℤ, pos, is_zero, ltb_ℤ}
use lazy_db.Ds.Art.{Art, tree_get, tree_put, tree_delete}
use lazy_db.Logfile.Entry.{LogEntry, encode_entry, empty_entry, s_delete}
use lazy_db.Db.Discard.{Discard, send}
use lazy_db.Db.Store.{
  Config, ValueType, value_type_string, value_type_list, value_type_hash, value_type_set,
  value_type_zset, LogSet, ValuePos, read_entry,
}

-- `Value`: the fields that the indexes keep.
pub record Value : Type 0 where
  pub fid : ℕ
  pub offset : ℕ
  pub entry_size : ℕ
  pub expired_at : ℤ

-- `&logfile.LogEntry{Key: key, Value: value}`
abbrev pub plain_entry : Bytes → Bytes → LogEntry
plain_entry key value = record empty_entry { key = key; value = value }

-- `&logfile.LogEntry{Key: key, Stat: logfile.SDelete}`
abbrev pub delete_entry : Bytes → LogEntry
delete_entry key = record empty_entry { key = key; stat = s_delete }

-- `ent.Value`: nil when the entry has neither key nor value.
unfoldable pub value_slice : LogEntry → Option Bytes
value_slice e = if length e.key == 0 && length e.value == 0 then none else some e.value

-- `t != 0 && t < ts`
abbrev pub has_expired : ℤ → ℤ → Bool
has_expired t ts = not (is_zero t) && ltb_ℤ t ts

-- `db.discardsMap[typ].valChan <- node`, or the end of the process.
unfoldable pub send_value : ℕ → ℕ → Exec LogSet (Unit {0})
send_value fid entry_size l = elim (send l.discard fid entry_size) [
  | ok d ↦ (ok tt, record l { discard = d })
  | err e ↦ (err e, l)
  | fatal ↦ (fatal, l)
]

-- `sendDiscard`
unfoldable pub send_discard : Option Value → Bool → Exec LogSet (Unit {0})
send_discard none updated = pure tt
send_discard (some node) false = pure tt
send_discard (some node) true =
    if node.entry_size == 0 then pure tt else send_value node.fid node.entry_size

-- The end of `getValue`, over the entry that was read.
unfoldable pub check_entry : ℤ → LogEntry → Res (Option Bytes)
check_entry ts ent =
    if ent.stat == s_delete || has_expired ent.expired_at ts
    then err key_not_found
    else ok (value_slice ent)

-- `_, size := logfile.EncodeEntry(entry)`
unfoldable pub encoded_size : LogEntry → Res ℕ
encoded_size e = elim (encode_entry e) [ ok (buf, size) ↦ ok size | err x ↦ err x | fatal ↦ fatal ]

-- The size that `updateIndexTree` keeps: it encodes the entry again for two of the types.
unfoldable pub index_size : ValueType → LogEntry → ValuePos → Res ℕ
index_size value_type_string entry v_pos = encoded_size entry
index_size value_type_list entry v_pos = encoded_size entry
index_size value_type_hash entry v_pos = ok v_pos.entry_size
index_size value_type_set entry v_pos = ok v_pos.entry_size
index_size value_type_zset entry v_pos = ok v_pos.entry_size

-- The middle of `getValue`, over the value of the index.
unfoldable pub get_value_at : ℤ → LogSet → Option Value → Res (Option Bytes)
get_value_at ts l none = err key_not_found
get_value_at ts l (some val) =
    if has_expired val.expired_at ts
    then err key_not_found
    else elim (read_entry l val.fid val.offset) [
      | ok ent ↦ check_entry ts ent
      | err e ↦ err e
      | fatal ↦ fatal
    ]

module _ ⦃art : Art Value⦄ where
  -- `getValue`
  unfoldable pub get_value : art.Tree → Bytes → ℤ → LogSet → Res (Option Bytes)
  get_value idx_tree key ts l = get_value_at ts l (tree_get idx_tree key)

  -- `updateIndexTree`: the tree after the call.
  unfoldable pub update_index_tree :
      ValueType → art.Tree → LogEntry → ValuePos → Bool → Exec LogSet art.Tree
  unfolding index_size
  update_index_tree typ idx_tree entry v_pos discards = do
    size ← lift (index_size typ entry v_pos)
    let (idx_tree, old_val, updated) = tree_put idx_tree entry.key (record {
      fid = v_pos.fid;
      offset = v_pos.offset;
      entry_size = size;
      expired_at = entry.expired_at;
    })
    (if discards then send_discard old_val updated else pure tt)
    pure idx_tree
