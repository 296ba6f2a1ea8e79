-- ===== src/Tests/Queues.antt =====
-- A list of two elements in an archived file, and an empty active file.
pub mod Ends
pub mod Last
use lazy_db.Prelude.{
  ℕ, ◌+◌, ◌≤◌, ◌<◌, ◌≡◌, refl, sym, ◌∙◌, ◌==◌, inl, inr, true, false, none, some, [], ◌∷◌, ◌++◌,
  Bytes, length, replicate, arith, bytes_eq, bytes_eq_refl, if◌then◌else◌,
}
use mathlib.Core.Path.{subst}
use lazy_db.Prelude.Res.{ok}
use lazy_db.Prelude.Int.{pos, negsuc, word64, signed64}
use lazy_db.Std.Endian.{put_u32}
use lazy_db.Std.Varint.{put_varint, put_uvarint, put_groups, zigzag}
use lazy_db.Std.GoMap
use lazy_db.Std.GoMap.{bytes_eq_keys, lookup-insert}
use lazy_db.Ds.Art.{lookup-nil}
use lazy_db.Logfile.Entry.{LogEntry, s_delete}
use lazy_db.Logfile.Codec.{fields, IsEncodable, entry_bytes}
use lazy_db.Logfile.Limits.{small-IsEncodable}
use lazy_db.Db.Store.{LogSet, contents, value_type_list, write_log_entry}
use lazy_db.Db.Store.Valid.{Ready, Holds, find_archived}
use lazy_db.Db.Store.Append.{written, appended, appended-Ready}
use lazy_db.Db.Store.Room.{CanStore, position}
use lazy_db.Db.Store.Fits.{write_fits}
use lazy_db.Db.Index.{Value, plain_entry, delete_entry}
use lazy_db.Db.Index.Lookup.{Leads, Matches, Follows-refl}
use lazy_db.Std.OsFile.{StandsAt}
use lazy_db.Db.Recovery.Replay.{log_bytes}
use lazy_db.Db.Str.Models.{Spec, update, Matches-update}
use lazy_db.Db.Trees.{TreeDb, tree_of, store_in}
use lazy_db.Db.Trees.Models.{Specs, TreesModel, exchange}
use lazy_db.Db.Trees.Writes.{store_in_log}
use lazy_db.Db.Lists.{initial_list_seq, add32, encode_list_key}
use lazy_db.Db.Lists.Emptied.{CanReset, pop_last-Models}
use lazy_db.Db.Lists.Deque.{IsList, IsList-with_meta, with_meta, elems_apart}
use lazy_db.Db.Lists.Pushes.{meta_entry, push-Models}
use lazy_db.Db.Lists.Pops.{pop-Models}
use lazy_db.Db.Lists.Reads.{l_index-Models, l_range-Models}
use lazy_db.Db.Lists.Commands.{l_index, l_range}
use lazy_db.Db.Lists.Ends.{push, pop}
use lazy_db.Tests.{cfg, discard0, key0, value0, trees}
use lazy_db.Tests.Merges.{old, new, archived}

abbrev nothing : Spec
nothing = λ k. none

abbrev elem_key : ℕ → Bytes
elem_key s = encode_list_key key0 s

abbrev first : LogEntry
first = plain_entry (elem_key 8) value0

abbrev second : LogEntry
second = plain_entry (elem_key 9) key0

abbrev meta : LogEntry
meta = meta_entry key0 7 10

-- The meta entry of a list with the first element alone.
abbrev single : LogEntry
single = meta_entry key0 7 9

abbrev file0 : Bytes
file0 = log_bytes (first ∷ second ∷ meta ∷ single ∷ []) ++ replicate 30 0

abbrev log3 : LogSet
log3 = record {
  disk = (1, file0) ∷ (2, replicate 100 0) ∷ [];
  active = some new;
  archived = archived.0;
  fids = 1 ∷ 2 ∷ [];
  discard = discard0;
}

log3-Ready : Ready cfg log3 new
unfolding contents GoMap.lookup
log3-Ready = record {
  is_active = refl;
  same_io = refl;
  long = omega arith;
  map_valid = archived.1;
  own_fid = λ k a h. let v = archived.2 k in ground (arith, v, h);
  older = λ k a h. let v = archived.2 k in ground (arith, v, h);
}

file0-contents : contents log3.disk 1 ≡ file0
unfolding contents GoMap.lookup
file0-contents = refl

entry-Holds :
    (offset : ℕ) (e : LogEntry)
    → StandsAt file0 offset (entry_bytes e)
    → offset ≤ 75
    → offset + length (entry_bytes e) ≤ 100
    → Holds log3 1 offset e
unfolding put_u32 fields put_varint put_uvarint put_groups zigzag word64 signed64 encode_list_key
entry-Holds offset e (before, after, at, len) start end = record {
  lf = old;
  is_found = find_archived cfg log3 new log3-Ready 1 old (archived.2 1);
  named = refl;
  stands = (before, after, file0-contents ∙ at, len);
  readable = rw file0-contents (omega arith, omega arith);
  closed = λ a h at. absurd (ground (arith, h, at));
}

first-StandsAt : StandsAt file0 0 (entry_bytes first)
unfolding put_u32 fields put_varint put_uvarint put_groups zigzag word64 signed64 encode_list_key
first-StandsAt = ([], log_bytes (second ∷ meta ∷ single ∷ []) ++ replicate 30 0, refl, refl)

second-StandsAt : StandsAt file0 16 (entry_bytes second)
unfolding put_u32 fields put_varint put_uvarint put_groups zigzag word64 signed64 encode_list_key
second-StandsAt = (entry_bytes first, log_bytes (meta ∷ single ∷ []) ++ replicate 30 0, refl, refl)

meta-StandsAt : StandsAt file0 32 (entry_bytes meta)
unfolding put_u32 fields put_varint put_uvarint put_groups zigzag word64 signed64 encode_list_key
meta-StandsAt =
    (entry_bytes first ++ entry_bytes second, log_bytes (single ∷ []) ++ replicate 30 0, refl, refl)

single-StandsAt : StandsAt file0 51 (entry_bytes single)
unfolding put_u32 fields put_varint put_uvarint put_groups zigzag word64 signed64 encode_list_key
single-StandsAt = (log_bytes (first ∷ second ∷ meta ∷ []), replicate 30 0, refl, refl)

short_key : (s : ℕ) → length (elem_key s) ≡ 5
unfolding encode_list_key put_u32
short_key s = refl

short-IsEncodable :
    (e : LogEntry)
    → e.tx_id ≡ 0
    → e.tx_stat < 64
    → e.expired_at ≡ pos 0
    → length e.key ≤ 5
    → length e.value ≤ 8
    → IsEncodable e
short-IsEncodable e id stat time hk hv =
    small-IsEncodable e id stat 0 time (omega arith) (omega arith) (omega arith)

short_value : (a b : ℕ) → length (put_u32 a ++ put_u32 b) ≡ 8
unfolding put_u32
short_value a b = refl

first-IsEncodable : IsEncodable first
first-IsEncodable =
    short-IsEncodable first refl (omega arith) refl (omega (arith, short_key 8)) (omega arith)

second-IsEncodable : IsEncodable second
second-IsEncodable =
    short-IsEncodable second refl (omega arith) refl (omega (arith, short_key 9)) (omega arith)

meta-IsEncodable : IsEncodable meta
meta-IsEncodable =
    short-IsEncodable meta refl (omega arith) refl (omega arith) (omega (arith, short_value 7 10))

first-size : length (entry_bytes first) ≡ 16
unfolding put_u32 fields put_varint put_uvarint put_groups zigzag word64 signed64 encode_list_key
first-size = refl

second-size : length (entry_bytes second) ≡ 16
unfolding put_u32 fields put_varint put_uvarint put_groups zigzag word64 signed64 encode_list_key
second-size = refl

meta-size : length (entry_bytes meta) ≡ 19
unfolding put_u32 fields put_varint put_uvarint put_groups zigzag word64 signed64
meta-size = refl

abbrev at : ℕ → ℕ → Value
at offset size = record { fid = 1; offset = offset; entry_size = size; expired_at = pos 0 }

entry-Leads :
    (offset size : ℕ) (e : LogEntry)
    → Holds log3 1 offset e
    → IsEncodable e
    → e.expired_at ≡ pos 0
    → 0 < length e.key + length e.value
    → (e.stat == s_delete) ≡ false
    → Leads log3 (at offset size) e.value (pos 0)
entry-Leads offset size e held able time some_byte plain = record {
  e = e;
  held = held;
  expiry = refl;
  encodable = able;
  some_byte = some_byte;
  plain = plain;
  has_value = refl;
  has_expiry = time;
}

-- What the index of the list has, entry by entry.
abbrev tree1 : trees.Tree
tree1 = (trees.insert trees.new (elem_key 8) (at 0 16)).0

abbrev tree2 : trees.Tree
tree2 = (trees.insert tree1 (elem_key 9) (at 16 16)).0

abbrev tree3 : trees.Tree
tree3 = (trees.insert tree2 key0 (at 32 19)).0

abbrev spec1 : Spec
spec1 = update nothing (elem_key 8) (some (value0, pos 0))

abbrev spec2 : Spec
spec2 = update spec1 (elem_key 9) (some (key0, pos 0))

abbrev spec3 : Spec
spec3 = with_meta spec2 key0 7 2

matches1 : (k : Bytes) → Matches log3 k (trees.search tree1 k) (spec1 k)
matches1 =
    Matches-update ⦃art = trees⦄ cfg log3 log3 trees.new tree1 nothing (elem_key 8) 0
      (some (at 0 16)) (some (value0, pos 0)) (Follows-refl (inr (new, log3-Ready)) 0)
      (λ k. rw (lookup-nil Value k) tt)
      (entry-Leads 0 16 first
        (entry-Holds 0 first first-StandsAt (omega arith) (omega (arith, first-size)))
        first-IsEncodable refl (omega arith) refl)
      (trees.search-insert trees.new (elem_key 8) (at 0 16))

matches2 : (k : Bytes) → Matches log3 k (trees.search tree2 k) (spec2 k)
matches2 =
    Matches-update ⦃art = trees⦄ cfg log3 log3 tree1 tree2 spec1 (elem_key 9) 0 (some (at 16 16))
      (some (key0, pos 0)) (Follows-refl (inr (new, log3-Ready)) 0) matches1
      (entry-Leads 16 16 second
        (entry-Holds 16 second second-StandsAt (omega arith) (omega (arith, second-size)))
        second-IsEncodable refl (omega arith) refl)
      (trees.search-insert tree1 (elem_key 9) (at 16 16))

matches3 : (k : Bytes) → Matches log3 k (trees.search tree3 k) (spec3 k)
matches3 =
    Matches-update ⦃art = trees⦄ cfg log3 log3 tree2 tree3 spec2 key0 0 (some (at 32 19))
      (some (meta.value, pos 0)) (Follows-refl (inr (new, log3-Ready)) 0) matches2
      (entry-Leads 32 19 meta
        (entry-Holds 32 meta meta-StandsAt (omega arith) (omega (arith, meta-size)))
        meta-IsEncodable refl (omega arith) refl)
      (trees.search-insert tree2 key0 (at 32 19))

abbrev no_lists : TreeDb ⦃art = trees⦄
no_lists = record { trees = []; log = log3 }

abbrev list_db : TreeDb ⦃art = trees⦄
list_db = record { trees = GoMap.insert key0 tree3 []; log = log3 }

abbrev specs : Specs
specs = λ j. if bytes_eq key0 j then spec3 else nothing

list_db-Models : TreesModel ⦃art = trees⦄ cfg list_db specs
unfolding GoMap.lookup
list_db-Models =
    exchange ⦃art = trees⦄ cfg no_lists log3 (λ j. nothing) key0 tree3 spec3 0
      (record { valid = inr (new, log3-Ready); index = λ key k. refl })
      (Follows-refl (inr (new, log3-Ready)) 0) matches3

has_tree : tree_of ⦃art = trees⦄ list_db key0 ≡ some tree3
has_tree = ground (arith, lookup-insert {V = trees.Tree} key0 key0 tree3 [], bytes_eq_refl key0)

two_elems : IsList (specs key0) key0 7 (value0 ∷ key0 ∷ [])
two_elems = rw (bytes_eq_refl key0) (
    IsList-with_meta spec2 key0 7 (value0 ∷ key0 ∷ [])
      (
        rw (elems_apart key0 9 8 (omega arith) (omega arith) refl, bytes_eq_refl (elem_key 8)) refl,
        (rw (bytes_eq_refl (elem_key 9)) refl, tt),
      )
      (omega arith))

log3-CanStore : (e : LogEntry) → IsEncodable e → CanStore cfg log3 e
log3-CanStore e able = record {
  usable = record { positive = omega arith; supported = λ h. cc };
  encodable = able;
  room = inl (ground arith);
  slots = omega arith;
  next_fid = λ lf h. ground (arith, h);
}

-- The same behind a first entry.
behind-CanStore :
    (e i : LogEntry)
    → IsEncodable i
    → length (entry_bytes e) ≤ 20
    → CanStore cfg (appended log3 new (entry_bytes e)) i
behind-CanStore e i able short = record {
  usable = record { positive = omega arith; supported = λ h. cc };
  encodable = able;
  room = inl (ground (arith, short));
  slots = omega arith;
  next_fid = λ lf h. ground (arith, h);
}

wrote :
    (e : LogEntry)
    → IsEncodable e
    → length (entry_bytes e) ≤ 20
    → write_log_entry cfg e log3 ≡ (ok (position new e), appended log3 new (entry_bytes e))
wrote e able short =
    write_fits cfg log3 new e log3-Ready able (omega (arith, short)) (inl (omega arith))
