-- ===== src/Tests/Queues/Ends.antt =====
-- A push and a pop at the ends of the list, and its reads.
use lazy_db.Prelude.{
  ℕ, ◌≤◌, ◌≡◌, refl, sym, true, false, some, [], ◌∷◌, Bytes, length, arith, bytes_eq,
}
use mathlib.Core.Path.{subst}
use lazy_db.Prelude.Res.{ok}
use lazy_db.Prelude.Int.{pos, negsuc, word64, signed64}
use lazy_db.Std.Endian.{put_u32}
use lazy_db.Std.Varint.{put_varint, put_uvarint, put_groups, zigzag}
use lazy_db.Std.GoMap.{bytes_eq_keys}
use lazy_db.Logfile.Entry.{LogEntry}
use lazy_db.Logfile.Codec.{fields, IsEncodable, entry_bytes}
use lazy_db.Db.Store.{LogSet, value_type_list}
use lazy_db.Db.Store.Append.{appended}
use lazy_db.Db.Store.Room.{CanStore, position}
use lazy_db.Db.Index.{plain_entry, delete_entry}
use lazy_db.Db.Trees.{TreeDb}
use lazy_db.Db.Trees.Models.{Specs, TreesModel}
use lazy_db.Db.Trees.Writes.{store_in_log}
use lazy_db.Db.Lists.{encode_list_key}
use lazy_db.Db.Lists.Deque.{IsList}
use lazy_db.Db.Lists.Pushes.{meta_entry, push-Models}
use lazy_db.Db.Lists.Pops.{pop-Models}
use lazy_db.Db.Lists.Reads.{l_range-Models}
use lazy_db.Db.Lists.Commands.{l_range}
use lazy_db.Db.Lists.Ends.{push, pop}
use lazy_db.Tests.{cfg, key0, value0, trees}
use lazy_db.Tests.Merges.{new}
use lazy_db.Tests.Queues.{
  elem_key, log3, short_key, short-IsEncodable, short_value, tree3, list_db, specs, list_db-Models,
  has_tree, two_elems, log3-CanStore, behind-CanStore, wrote,
}

abbrev third : LogEntry
third = plain_entry (elem_key 10) value0

abbrev longer : LogEntry
longer = meta_entry key0 7 11

abbrev pub removal : LogEntry
removal = delete_entry (elem_key 8)

abbrev shorter : LogEntry
shorter = meta_entry key0 8 10

third-IsEncodable : IsEncodable third
third-IsEncodable =
    short-IsEncodable third refl (omega arith) refl (omega (arith, short_key 10)) (omega arith)

pub removal-IsEncodable : IsEncodable removal
removal-IsEncodable =
    short-IsEncodable removal refl (omega arith) refl (omega (arith, short_key 8)) (omega arith)

third-size : length (entry_bytes third) ≤ 20
unfolding put_u32 fields put_varint put_uvarint put_groups zigzag word64 signed64 encode_list_key
third-size = omega arith

pub removal-size : length (entry_bytes removal) ≤ 20
unfolding put_u32 fields put_varint put_uvarint put_groups zigzag word64 signed64 encode_list_key
removal-size = omega arith

pub meta_entry-IsEncodable : (a b : ℕ) → IsEncodable (meta_entry key0 a b)
meta_entry-IsEncodable a b =
    short-IsEncodable (meta_entry key0 a b) refl (omega arith) refl (omega arith)
      (omega (arith, short_value a b))

push-Models_example :
    (db' : TreeDb ⦃art = trees⦄) × (g' : Specs) × (push ⦃art = trees⦄ cfg key0 value0 false
        (pos 5)
        list_db
      ≡ (ok tt, db'))
    × TreesModel ⦃art = trees⦄ cfg db' g'
    × IsList (g' key0) key0 7 (value0 ∷ key0 ∷ value0 ∷ [])
    × ((j : Bytes) → bytes_eq key0 j ≡ false → g' j ≡ specs j)
push-Models_example =
    push-Models ⦃art = trees⦄ cfg list_db specs key0 value0 false (pos 5) tree3 7
      (value0 ∷ key0 ∷ []) has_tree list_db-Models two_elems (omega arith) (omega arith)
      (
        log3-CanStore third third-IsEncodable,
        subst (λ (l : LogSet). CanStore cfg l longer)
            (sym (
              store_in_log ⦃art = trees⦄ value_type_list cfg list_db key0 third tree3
                (position new third) (appended log3 new (entry_bytes third)) has_tree
                third-IsEncodable refl (wrote third third-IsEncodable third-size)))
            (behind-CanStore third longer (meta_entry-IsEncodable 7 11) third-size),
      )

pop-Models_example :
    (db' : TreeDb ⦃art = trees⦄) × (g' : Specs) × (pop ⦃art = trees⦄ cfg key0 true (pos 5) list_db
      ≡ (ok (some value0), db'))
    × TreesModel ⦃art = trees⦄ cfg db' g'
    × IsList (g' key0) key0 8 (key0 ∷ [])
    × ((j : Bytes) → bytes_eq key0 j ≡ false → g' j ≡ specs j)
pop-Models_example =
    pop-Models ⦃art = trees⦄ cfg list_db specs key0 value0 true (pos 5) tree3 7 (key0 ∷ []) has_tree
      list_db-Models two_elems (omega arith)
      (
        log3-CanStore removal removal-IsEncodable,
        subst (λ (r : _ × LogSet). CanStore cfg r.1 shorter)
            (sym (wrote removal removal-IsEncodable removal-size))
            (behind-CanStore removal shorter (meta_entry-IsEncodable 8 10) removal-size),
      )

l_range-Models_example :
    l_range ⦃art = trees⦄ key0 (pos 0) (negsuc 0) (pos 5) list_db
    ≡ (ok (some value0 ∷ some key0 ∷ []), list_db)
l_range-Models_example =
    l_range-Models ⦃art = trees⦄ cfg list_db specs key0 (pos 0) (negsuc 0) (pos 5) tree3 7 []
      (key0 ∷ []) [] value0 has_tree list_db-Models two_elems refl refl
