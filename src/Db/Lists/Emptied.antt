-- ===== src/Db/Lists/Emptied.antt =====
-- `pop` of the last element of a list: the meta entry is reset, and the tree of the key goes.
use lazy_db.Prelude.{
  ℕ, suc, ◌+◌, ◌^◌, ◌<◌, ◌≡◌, refl, sym, ap, ◌∙◌, Bool, true, false, Option, none, some, [], ◌∷◌,
  Bytes, leb, ◌==◌, ◌||◌, not, arith, bytes_eq, bytes_eq_refl, Bool-cases, inl, inr, if◌then◌else◌,
}
use mathlib.Core.Path.{subst}
use lazy_db.Prelude.Res.{Res, ok}
use lazy_db.Prelude.Int.{ℤ, pos}
use lazy_db.Std.GoMap
use lazy_db.Std.GoMap.{GoMap, bytes_eq_keys, lookup-remove}
use lazy_db.Ds.Art.{Art}
use lazy_db.Db.Store.{Config, LogSet, ValuePos, value_type_list, write_log_entry}
use lazy_db.Db.Store.Valid.{IsValid}
use lazy_db.Db.Store.Room.{CanStore}
use lazy_db.Db.Store.Write.{write_log_entry-Stores}
use lazy_db.Db.Index.{Value, delete_entry, get_value}
use lazy_db.Db.Str.Models.{Spec, Stores-Follows}
use lazy_db.Db.Trees.{TreeDb, tree_of, store_in}
use lazy_db.Db.Trees.Models.{Specs, update_at, TreesModel, TreesModel-Follows, has_tree_lem}
use lazy_db.Db.Trees.Writes.{store_in-Models, store_in_log}
use lazy_db.Db.Lists.{
  initial_list_seq, add32, sub32, decode_meta, encode_list_key, l_meta, save_l_meta,
}
use lazy_db.Db.Lists.Deque.{IsList, Elems}
use lazy_db.Db.Lists.Pushes.{meta_entry, l_meta_lem, length-meta}
use lazy_db.Db.Lists.Pops.{
  head_popped, taken, elem_found, taken_lem, new_head, new_tail, take_out_runs, pop_runs,
}
use lazy_db.Db.Lists.Ends.{try_save, take_out, end_pop, pop}

-- The abstract store of a key without a tree.
abbrev pub emptied : Specs → Bytes → Specs
emptied g key j = if bytes_eq key j then (λ k. none) else g j

last_elem :
    (h : Spec) (key : Bytes) (head_seq : ℕ) (x : Bytes) (is_left : Bool)
    → Elems h key (suc head_seq) (x ∷ [])
    → h (encode_list_key key (taken is_left head_seq 0)) ≡ some (x, pos 0)
last_elem h key head_seq x true es = es.0
last_elem h key head_seq x false es =
    subst (λ (n : ℕ). h (encode_list_key key n) ≡ some (x, pos 0)) (omega arith) es.0

module _ ⦃art : Art Value⦄ where
  drop_tree-Models :
      (cfg : Config) (db : TreeDb) (g : Specs) (key : Bytes)
      → TreesModel cfg db g
      → TreesModel cfg (record db { trees = GoMap.remove key db.trees }) (emptied g key)
  drop_tree-Models cfg db g key m = record {
    valid = m.valid;
    index = λ j. elim (Bool-cases (bytes_eq key j)) [
      | inl e ↦ rw (lookup-remove key j db.trees, e) (λ k. refl)
      | inr e ↦ rw (lookup-remove key j db.trees, e) (m.index j)
    ];
  }

  -- The meta entry of an empty list.
  abbrev pub CanReset : Config → TreeDb → Bytes → Type 0
  CanReset cfg db key =
      CanStore cfg db.log (meta_entry key initial_list_seq (add32 initial_list_seq 1))

  emptied_twice :
      (g : Specs) (key k : Bytes) (x : Option (Bytes × ℤ)) (j : Bytes)
      → emptied (update_at g key k x) key j ≡ emptied g key j
  emptied_twice g key k x j = elim (Bool-cases (bytes_eq key j)) [
    | inl e ↦ rw e refl
    | inr e ↦ rw e refl
  ]

  try_save_lem :
      (cfg : Config) (key : Bytes) (head_seq tail_seq : ℕ) (db db1 : TreeDb)
      → save_l_meta cfg key head_seq tail_seq db ≡ (ok tt, db1)
      → try_save cfg key head_seq tail_seq db ≡ (ok tt, db1)
  unfolding try_save
  try_save_lem cfg key head_seq tail_seq db db1 saved = rw saved

  -- What becomes of the log files: the meta entry is written with the initial numbers, unless it
  -- has them.
  abbrev pub ResetLog : Config → Bytes → Bool → LogSet → LogSet → Type 0
  ResetLog cfg key true l l' = l' ≡ l
  ResetLog cfg key false l l' =
      (p : ValuePos) × (write_log_entry cfg (meta_entry key initial_list_seq (initial_list_seq + 1))
          l
        ≡ (ok p, l'))

  tree_gone :
      (trees : GoMap Bytes art.Tree) (key : Bytes)
      → GoMap.lookup key (GoMap.remove key trees) ≡ none
  tree_gone trees key = rw (lookup-remove key key trees, bytes_eq_refl key) refl

  reset_written :
      (cfg : Config) (db db1 : TreeDb) (key : Bytes) (tree : art.Tree)
      → tree_of db key ≡ some tree
      → IsValid cfg db.log
      → CanReset cfg db key
      → store_in value_type_list cfg key
          (meta_entry key initial_list_seq (add32 initial_list_seq 1))
          db
        ≡ (ok tt, db1)
      → ResetLog cfg key false db.log db1.log
  reset_written cfg db db1 key tree there valid can saved =
      let me = meta_entry key initial_list_seq (add32 initial_list_seq 1) in
      let (p, l1, wrote, s) = write_log_entry-Stores cfg db.log me valid can in
      let same : l1 ≡ db1.log =
        sym (
          store_in_log value_type_list cfg db key me tree p l1 there can.encodable s.entry_size
            wrote)
        ∙ ap (λ (r : Res (Unit {0}) × TreeDb). r.1.log) saved in
      (p, wrote ∙ ap (λ (l : LogSet). (ok p, l)) same)

  -- What `pop` leaves of an emptied list.
  pub record Emptied (cfg : Config) (key : Bytes) (head_seq : ℕ) (l : LogSet) (g : Specs)
      (db' : TreeDb) (g' : Specs) : Type 0 where
    pub stands : TreesModel cfg db' g'
    pub no_tree : tree_of db' key ≡ none
    pub is_reset : ResetLog cfg key (head_seq == initial_list_seq) l db'.log
    pub same : (j : Bytes) → g' j ≡ emptied g key j

  end_pop-Models :
      (cfg : Config) (db : TreeDb) (g : Specs) (key : Bytes) (head_seq : ℕ) (tree : art.Tree)
      → tree_of db key ≡ some tree
      → TreesModel cfg db g
      → head_seq + 1 < 2 ^ 32
      → CanReset cfg db key
      → (db' : TreeDb) × (g' : Specs) × (end_pop cfg key head_seq (head_seq + 1) db ≡ (ok tt, db'))
        × Emptied cfg key head_seq db.log g db' g'
  unfolding end_pop save_l_meta
  end_pop-Models cfg db g key head_seq tree there m below can =
      let last : (sub32 (sub32 (head_seq + 1) head_seq) 1 == 0) ≡ true = ground arith in
      let test =
        not (head_seq == initial_list_seq) || not (head_seq + 1 == add32 initial_list_seq 1) in
      elim (Bool-cases (head_seq == initial_list_seq)) [
        | inr moved ↦
            let me = meta_entry key initial_list_seq (add32 initial_list_seq 1) in
            let (db1, saved, m1) =
              store_in-Models value_type_list cfg db g key me tree there m can
                (omega (arith, length-meta initial_list_seq (add32 initial_list_seq 1))) refl in
            let g1 = update_at g key key (some (me.value, pos 0)) in
            let tested : test ≡ true = ground (arith, moved) in
            (
              record db1 { trees = GoMap.remove key db1.trees },
              emptied g1 key,
              rw last (
                  rw tested (
                    rw
                      (
                        try_save_lem cfg key initial_list_seq (add32 initial_list_seq 1) db db1
                            saved,
                        if◌then◌else◌,
                      )
                      refl)),
              record {
                stands = drop_tree-Models cfg db1 g1 key m1;
                no_tree = tree_gone db1.trees key;
                is_reset = rw moved (reset_written cfg db db1 key tree there m.valid can saved);
                same = emptied_twice g key key (some (me.value, pos 0));
              },
            )
        | inl fresh ↦
            let tested : test ≡ false = ground (arith, fresh) in
            (
              record db { trees = GoMap.remove key db.trees },
              emptied g key,
              rw last (rw tested refl),
              record {
                stands = drop_tree-Models cfg db g key m;
                no_tree = tree_gone db.trees key;
                is_reset = rw fresh refl;
                same = λ j. refl;
              },
            )
      ]

  empty-IsList :
      (g' g : Specs) (key : Bytes)
      → ((j : Bytes) → g' j ≡ emptied g key j)
      → IsList (g' key) key initial_list_seq []
  unfolding decode_meta
  empty-IsList g' g key same =
      let none_at : IsList (emptied g key key) key initial_list_seq [] =
        rw (bytes_eq_refl key) (record { meta = λ ts. refl; elems = tt; below = omega arith }) in
      subst (λ (h : Spec). IsList h key initial_list_seq []) (sym (same key)) none_at

  -- The log files behind the deletion and the meta entry.
  abbrev pub log_behind : Config → TreeDb → Bytes → Bool → ℕ → LogSet
  log_behind cfg db key is_left head_seq =
      let e = delete_entry (encode_list_key key (taken is_left head_seq 0)) in
      let hd = head_popped is_left head_seq in
      let db1 : TreeDb = record db { log = (write_log_entry cfg e db.log).1 } in
      (store_in value_type_list cfg key (meta_entry key hd (hd + 1)) db1).1.log

  -- What the pop of the last element asks: that of any pop, and the reset of the meta entry.
  abbrev pub CanEmpty : Config → TreeDb → Bytes → Bool → ℕ → Type 0
  CanEmpty cfg db key is_left head_seq =
      let e = delete_entry (encode_list_key key (taken is_left head_seq 0)) in
      let hd = head_popped is_left head_seq in
      let db1 : TreeDb = record db { log = (write_log_entry cfg e db.log).1 } in
      CanStore cfg db.log e
      × CanStore cfg (write_log_entry cfg e db.log).1 (meta_entry key hd (hd + 1))
      × CanReset cfg (store_in value_type_list cfg key (meta_entry key hd (hd + 1)) db1).1 key

  -- `pop` at either end of a list of one element on a database that stands for abstract trees
  -- answers that element, leaves the key without a tree, and, unless the head number behind the
  -- element is the initial one, writes the meta entry with the initial numbers behind the
  -- deletion and the meta entry of the pop, where else it writes nothing more: the new trees
  -- have the empty list with the initial numbers under that key, and what they had under other
  -- keys; the key has a tree, and the entry of the deletion, the meta entry behind it and the
  -- one of the reset can be stored.
  pub pop_last-Models :
      (cfg : Config) (db : TreeDb) (g : Specs) (key x : Bytes) (is_left : Bool) (ts : ℤ)
      (tree : art.Tree) (head_seq : ℕ)
      → tree_of db key ≡ some tree
      → TreesModel cfg db g
      → IsList (g key) key head_seq (x ∷ [])
      → CanEmpty cfg db key is_left head_seq
      → (db' : TreeDb) × (g' : Specs) × (pop cfg key is_left ts db ≡ (ok (some x), db'))
        × TreesModel cfg db' g'
        × IsList (g' key) key initial_list_seq []
        × (tree_of db' key ≡ none)
        × ResetLog cfg key
            (head_popped is_left head_seq == initial_list_seq)
            (log_behind cfg db key is_left head_seq)
            db'.log
        × ((j : Bytes) → bytes_eq key j ≡ false → g' j ≡ g j)
  pop_last-Models cfg db g key x is_left ts tree head_seq there m list can =
      let k = encode_list_key key (taken is_left head_seq 0) in
      let hd = head_popped is_left head_seq in
      let me = meta_entry key hd (hd + 1) in
      let (p, l1, wrote, s) = write_log_entry-Stores cfg db.log (delete_entry k) m.valid can.0 in
      let m1 = TreesModel-Follows m (Stores-Follows s) in
      let can_meta : CanStore cfg l1 me =
        subst (λ (r : _ × LogSet). CanStore cfg r.1 me) wrote can.1 in
      let (db2, saved, m2) =
        store_in-Models value_type_list cfg (record db { log = l1 }) g key me tree there m1 can_meta
          (omega (arith, length-meta hd (hd + 1))) refl in
      let can_reset : CanReset cfg db2 key =
        subst (λ (r : _ × TreeDb). CanReset cfg r.1 key) saved
          (subst
            (λ (r : _ × LogSet).
              CanReset cfg (store_in value_type_list cfg key me (record db { log = r.1 })).1 key)
            wrote can.2) in
      let g2 = update_at g key key (some (me.value, pos 0)) in
      let has : g2 key key ≡ some (me.value, pos 0) =
        rw (bytes_eq_refl key) (rw (bytes_eq_refl key) refl) in
      let (tree2, there2) = has_tree_lem key key (me.value, pos 0) m2 has in
      let below : head_seq + 1 + 1 < 2 ^ 32 = list.below in
      let hd_below : hd + 1 < 2 ^ 32 = ground (arith, below) in
      let (db3, g3, ended, gone) =
        end_pop-Models cfg db2 g2 key hd tree2 there2 m2 hd_below can_reset in
      let behind : db2.log ≡ log_behind cfg db key is_left head_seq = sym (
        ap
          (λ (r : _ × LogSet).
            (store_in value_type_list cfg key me (record db { log = r.1 })).1.log)
          wrote
        ∙ ap (λ (r : _ × TreeDb). r.1.log) saved) in
      let metas : l_meta tree key ts db ≡ ok (head_seq, head_seq + 1 + 1) =
        l_meta_lem cfg db g key ts tree m there ∙ list.meta ts in
      let named = ap (encode_list_key key) (sym (taken_lem is_left head_seq 0 below)) in
      let elem : g key k ≡ some (x, pos 0) = last_elem (g key) key head_seq x is_left list.elems in
      let found = elem_found cfg db g key k x ts tree m there elem in
      let some_elem : leb (sub32 (sub32 (head_seq + 1 + 1) head_seq) 1) 0 ≡ false = ground arith in
      let took =
        take_out_runs cfg db db2 db3 key k x is_left p l1 head_seq (head_seq + 1 + 1) hd (hd + 1)
          wrote (new_head is_left head_seq 0 below)
          (new_tail is_left head_seq 0 below ∙ omega arith) saved ended in
      (
        db3,
        g3,
        pop_runs cfg db db3 key x is_left ts tree head_seq (head_seq + 1 + 1) some_elem there metas
            (subst (λ i. get_value tree i ts db.log ≡ ok (some x)) named found)
            (subst
              (λ i.
                take_out cfg key is_left head_seq (head_seq + 1 + 1) i (some x) db
                ≡ (ok (some x), db3))
              named took),
        gone.stands,
        empty-IsList g3 g2 key gone.same,
        gone.no_tree,
        subst (λ (l : LogSet). ResetLog cfg key (hd == initial_list_seq) l db3.log) behind
            gone.is_reset,
        λ j other. gone.same j ∙ rw other refl,
      )
