-- ===== src/Db/Lists.antt =====
-- list.go: a list lies between two sequence numbers, which its meta entry keeps; the tree of the
-- list has an entry for each number between them.
pub mod Numbers
pub mod Deque
pub mod Pushes
pub mod Pops
pub mod Emptied
pub mod Reads
pub mod Ends
pub mod Commands
use lazy_db.Prelude.{
  ℕ, zero, suc, ◌+◌, ◌-◌, ◌%◌, ◌^◌, ◌≡◌, Bool, true, false, Option, none, some, List, [], ◌∷◌, ◌++◌,
  Bytes, length, drop, ◌==◌, ◌&&◌, ◌||◌, not, if◌then◌else◌,
}
use lazy_db.Prelude.Res.{Res, Error, ok, err, fatal, key_not_found, ◌>>=◌}
use lazy_db.Prelude.Exec.{Exec}
use lazy_db.Prelude.Int.{ℤ, pos, negsuc}
use lazy_db.Std.Endian.{put_u32, get_u32}
use lazy_db.Std.GoMap
use lazy_db.Std.GoMap.{GoMap, bytes_eq_keys}
use lazy_db.Ds.Art.{Art}
use lazy_db.Logfile.Entry.{LogEntry, s_list_meta}
use lazy_db.Db.Store.{Config, value_type_list, write_log_entry}
use lazy_db.Db.Index.{Value, plain_entry, delete_entry, get_value}
use lazy_db.Db.StrValues.{or_nil, bytes_of}
use lazy_db.Db.Trees.{TreeDb, tree_of, on_log, store_in}

-- `uint32(math.MaxUint32 / 2)`
abbrev pub initial_list_seq : ℕ
initial_list_seq = 2147483647

-- `uint32` arithmetic.
abbrev pub add32 : ℕ → ℕ → ℕ
add32 a b = (a + b) % 2 ^ 32

abbrev pub sub32 : ℕ → ℕ → ℕ
sub32 a b = (a + 2 ^ 32 - b) % 2 ^ 32

-- `encodeListKey`
unfoldable pub encode_list_key : Bytes → ℕ → Bytes
encode_list_key key seq = put_u32 seq ++ key

-- `decodeListKey`
unfoldable pub decode_list_key : Bytes → Res (Bytes × ℕ)
decode_list_key buf = do seq ← get_u32 buf; ok (drop 4 buf, seq)

-- `lSequence`: the number of the element at an index; a negative index counts from the end.
unfoldable pub l_sequence : ℕ → ℕ → ℤ → ℕ
l_sequence head_seq tail_seq (pos n) = add32 (add32 head_seq (n % 2 ^ 32)) 1
l_sequence head_seq tail_seq (negsuc n) = sub32 tail_seq ((n + 1) % 2 ^ 32)

-- The two numbers that the value of the meta entry has; an empty value stands for a new list.
unfoldable pub decode_meta : Bytes → Res (ℕ × ℕ)
decode_meta value =
    if length value == 0
    then ok (initial_list_seq, add32 initial_list_seq 1)
    else do head_seq ← get_u32 value; tail_seq ← get_u32 (drop 4 value); ok (head_seq, tail_seq)

module _ ⦃art : Art Value⦄ where
  -- `lMeta`
  unfoldable pub l_meta : art.Tree → Bytes → ℤ → TreeDb → Res (ℕ × ℕ)
  l_meta tree key ts db = do
    value ← or_nil (get_value tree key ts db.log)
    decode_meta (bytes_of value)

  -- `lMeta` of the list of a key; without a tree it dereferences a nil pointer.
  unfoldable pub meta_of : Bytes → ℤ → TreeDb → Res (ℕ × ℕ)
  meta_of key ts db = elim (tree_of db key) [ none ↦ fatal | some tree ↦ l_meta tree key ts db ]

  -- `saveLMeta`
  unfoldable pub save_l_meta : Config → Bytes → ℕ → ℕ → Exec TreeDb (Unit {0})
  save_l_meta cfg key head_seq tail_seq =
      store_in value_type_list cfg key
        (record (plain_entry key (put_u32 head_seq ++ put_u32 tail_seq)) { stat = s_list_meta })
