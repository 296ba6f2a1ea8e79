-- ===== src/Tests/Queues/Last.antt =====
-- The pop of the only element of a list.
use lazy_db.Prelude.{
  none, ◌≤◌, ◌≡◌, refl, sym, inl, inr, true, false, some, [], ◌∷◌, Bytes, length, arith, bytes_eq,
  bytes_eq_refl, if◌then◌else◌,
}
use mathlib.Core.Path.{subst}
use lazy_db.Prelude.Res.{ok}
use lazy_db.Prelude.Int.{pos, word64, signed64}
use lazy_db.Std.Endian.{put_u32}
use lazy_db.Std.Varint.{put_varint, put_uvarint, put_groups, zigzag}
use lazy_db.Std.GoMap
use lazy_db.Std.GoMap.{bytes_eq_keys, lookup-insert}
use lazy_db.Logfile.Entry.{LogEntry}
use lazy_db.Logfile.Codec.{fields, IsEncodable, entry_bytes}
use lazy_db.Db.Store.{LogSet, value_type_list, write_log_entry}
use lazy_db.Db.Store.Append.{written, appended, appended-Ready}
use lazy_db.Db.Store.Room.{CanStore, position}
use lazy_db.Db.Store.Fits.{write_fits}
use lazy_db.Db.Index.Lookup.{Matches, Follows-refl}
use lazy_db.Db.Str.Models.{Spec, Matches-update}
use lazy_db.Db.Trees.{TreeDb, tree_of, store_in}
use lazy_db.Db.Trees.Models.{Specs, TreesModel, exchange}
use lazy_db.Db.Trees.Writes.{store_in_log}
use lazy_db.Db.Lists.{initial_list_seq, add32}
use lazy_db.Db.Lists.Emptied.{ResetLog, log_behind, CanReset, pop_last-Models}
use lazy_db.Db.Lists.Deque.{IsList, IsList-with_meta, with_meta}
use lazy_db.Db.Lists.Pushes.{meta_entry}
use lazy_db.Db.Lists.Ends.{pop}
use lazy_db.Tests.{cfg, key0, value0, trees}
use lazy_db.Tests.Merges.{new}
use lazy_db.Tests.Queues.{
  nothing, elem_key, single, log3, log3-Ready, entry-Holds, single-StandsAt, at, entry-Leads, tree1,
  spec1, matches1, no_lists, log3-CanStore, behind-CanStore, wrote,
}
use lazy_db.Tests.Queues.Ends.{removal, removal-IsEncodable, removal-size, meta_entry-IsEncodable}

single-size : length (entry_bytes single) ≡ 19
unfolding put_u32 fields put_varint put_uvarint put_groups zigzag word64 signed64
single-size = refl

abbrev one_tree : trees.Tree
one_tree = (trees.insert tree1 key0 (at 51 19)).0

abbrev one_spec : Spec
one_spec = with_meta spec1 key0 7 1

one_matches : (k : Bytes) → Matches log3 k (trees.search one_tree k) (one_spec k)
one_matches =
    Matches-update ⦃art = trees⦄ cfg log3 log3 tree1 one_tree spec1 key0 0 (some (at 51 19))
      (some (single.value, pos 0)) (Follows-refl (inr (new, log3-Ready)) 0) matches1
      (entry-Leads 51 19 single
        (entry-Holds 51 single single-StandsAt (omega arith) (omega (arith, single-size)))
        (meta_entry-IsEncodable 7 9) refl (omega arith) refl)
      (trees.search-insert tree1 key0 (at 51 19))

abbrev one_db : TreeDb ⦃art = trees⦄
one_db = record { trees = GoMap.insert key0 one_tree []; log = log3 }

abbrev one_specs : Specs
one_specs = λ j. if bytes_eq key0 j then one_spec else nothing

one_db-Models : TreesModel ⦃art = trees⦄ cfg one_db one_specs
unfolding GoMap.lookup
one_db-Models =
    exchange ⦃art = trees⦄ cfg no_lists log3 (λ j. nothing) key0 one_tree one_spec 0
      (record { valid = inr (new, log3-Ready); index = λ key k. refl })
      (Follows-refl (inr (new, log3-Ready)) 0) one_matches

has_one : tree_of ⦃art = trees⦄ one_db key0 ≡ some one_tree
has_one = ground (arith, lookup-insert {V = trees.Tree} key0 key0 one_tree [], bytes_eq_refl key0)

one_elem : IsList (one_specs key0) key0 7 (value0 ∷ [])
one_elem = rw (bytes_eq_refl key0) (
    IsList-with_meta spec1 key0 7 (value0 ∷ []) (rw (bytes_eq_refl (elem_key 8)) refl, tt)
      (omega arith))

abbrev behind : LogEntry → LogSet
behind e = appended log3 new (entry_bytes e)

abbrev emptied_meta : LogEntry
emptied_meta = meta_entry key0 8 9

emptied-size : length (entry_bytes emptied_meta) ≤ 20
unfolding put_u32 fields put_varint put_uvarint put_groups zigzag word64 signed64
emptied-size = omega arith

-- The same behind two entries.
third-CanStore :
    (e e2 i : LogEntry)
    → IsEncodable i
    → length (entry_bytes e) ≤ 20
    → length (entry_bytes e2) ≤ 20
    → CanStore cfg (appended (behind e) (written new (entry_bytes e)) (entry_bytes e2)) i
third-CanStore e e2 i able short short2 = record {
  usable = record { positive = omega arith; supported = λ h. cc };
  encodable = able;
  room = inl (ground (arith, short, short2));
  slots = omega arith;
  next_fid = λ lf h. ground (arith, h);
}

wrote_behind :
    (e e2 : LogEntry)
    → IsEncodable e2
    → length (entry_bytes e) ≤ 20
    → length (entry_bytes e2) ≤ 20
    → write_log_entry cfg e2 (behind e) ≡ (
      ok (position (written new (entry_bytes e)) e2),
      appended (behind e) (written new (entry_bytes e)) (entry_bytes e2),
    )
wrote_behind e e2 able short short2 =
    write_fits cfg (behind e) (written new (entry_bytes e)) e2
      (appended-Ready cfg log3 new log3-Ready (entry_bytes e)) able (omega (arith, short, short2))
      (inl (omega (arith, short)))

abbrev after_removal : LogSet → TreeDb ⦃art = trees⦄
after_removal l = record one_db { log = l }

reset_room :
    CanReset ⦃art = trees⦄ cfg
      (store_in ⦃art = trees⦄ value_type_list cfg key0 emptied_meta
        (after_removal (write_log_entry cfg removal log3).1)).1
      key0
reset_room =
    let e = removal in
    let lf = written new (entry_bytes e) in
    subst
      (λ (r : _ × LogSet).
        CanReset ⦃art = trees⦄ cfg
          (store_in ⦃art = trees⦄ value_type_list cfg key0 emptied_meta (after_removal r.1)).1 key0)
      (sym (wrote e removal-IsEncodable removal-size))
      (subst
        (λ (l : LogSet).
          CanStore cfg l (meta_entry key0 initial_list_seq (add32 initial_list_seq 1)))
        (sym (
          store_in_log ⦃art = trees⦄ value_type_list cfg (after_removal (behind e)) key0
            emptied_meta one_tree (position lf emptied_meta)
            (appended (behind e) lf (entry_bytes emptied_meta)) has_one (meta_entry-IsEncodable 8 9)
            refl
            (wrote_behind e emptied_meta (meta_entry-IsEncodable 8 9) removal-size emptied-size)))
        (third-CanStore e emptied_meta _
          (meta_entry-IsEncodable initial_list_seq (add32 initial_list_seq 1)) removal-size
          emptied-size))

pop_last-Models_example :
    (db' : TreeDb ⦃art = trees⦄) × (g' : Specs) × (pop ⦃art = trees⦄ cfg key0 true (pos 5) one_db
      ≡ (ok (some value0), db'))
    × TreesModel ⦃art = trees⦄ cfg db' g'
    × IsList (g' key0) key0 initial_list_seq []
    × (tree_of ⦃art = trees⦄ db' key0 ≡ none)
    × ResetLog ⦃art = trees⦄ cfg key0 false
        (log_behind ⦃art = trees⦄ cfg one_db key0 true 7)
        db'.log
    × ((j : Bytes) → bytes_eq key0 j ≡ false → g' j ≡ one_specs j)
pop_last-Models_example =
    pop_last-Models ⦃art = trees⦄ cfg one_db one_specs key0 value0 true (pos 5) one_tree 7 has_one
      one_db-Models one_elem
      (
        log3-CanStore removal removal-IsEncodable,
        subst (λ (r : _ × LogSet). CanStore cfg r.1 emptied_meta)
            (sym (wrote removal removal-IsEncodable removal-size))
            (behind-CanStore removal emptied_meta (meta_entry-IsEncodable 8 9) removal-size),
        reset_room,
      )
