-- ===== src/Db/Lists/Pops.antt =====
-- `pop` against the sequence that a list is.
use lazy_db.Prelude.{
  ℕ, suc, ◌+◌, ◌^◌, ◌<◌, ◌≡◌, refl, sym, ap, ◌∙◌, Bool, true, false, some, List, Bytes, length, leb,
  ◌==◌, arith, bytes_eq, bytes_eq_refl, if◌then◌else◌,
}
use mathlib.Core.Path.{subst}
use lazy_db.Prelude.Res.{ok}
use lazy_db.Prelude.Int.{ℤ, pos}
use lazy_db.Ds.Art.{Art}
use lazy_db.Db.Store.{Config, LogSet, ValuePos, value_type_list, write_log_entry}
use lazy_db.Db.Store.Room.{CanStore}
use lazy_db.Db.Store.Write.{write_log_entry-Stores}
use lazy_db.Db.Index.{Value, delete_entry, get_value}
use lazy_db.Db.Index.Lookup.{reply, get_value_at-reply}
use lazy_db.Db.Str.Models.{Spec, Stores-Follows}
use lazy_db.Db.Trees.{TreeDb, tree_of, on_log, store_in}
use lazy_db.Db.Trees.Models.{Specs, update_at, TreeMatches, TreesModel, TreesModel-Follows}
use lazy_db.Db.Trees.Writes.{store_in-Models}
use lazy_db.Db.Lists.{add32, sub32, encode_list_key, l_meta, save_l_meta}
use lazy_db.Db.Lists.Deque.{IsList, Elems, Elems-init, pushed, length-pushed, IsList-with_meta}
use lazy_db.Db.Lists.Pushes.{meta_entry, l_meta_lem, length-meta}
use lazy_db.Db.Lists.Ends.{take_out, end_pop, pop_tree, pop}

-- The head number after a pop, and the number of the element that it takes.
abbrev pub head_popped : Bool → ℕ → ℕ
head_popped true head_seq = suc head_seq
head_popped false head_seq = head_seq

abbrev pub taken : Bool → ℕ → ℕ → ℕ
taken true head_seq n = suc head_seq
taken false head_seq n = suc head_seq + n

-- The elements without the one that was pushed last.
Elems-popped :
    (h : Spec) (key : Bytes) (head_seq : ℕ) (xs : List Bytes) (x : Bytes) (is_left : Bool)
    → Elems h key (suc head_seq) (pushed is_left x xs)
    → Elems h key (suc (head_popped is_left head_seq)) xs
      × (h (encode_list_key key (taken is_left head_seq (length xs))) ≡ some (x, pos 0))
Elems-popped h key head_seq xs x true es = (es.1, es.0)
Elems-popped h key head_seq xs x false es = Elems-init h key (suc head_seq) xs x es

module _ ⦃art : Art Value⦄ where
  -- An element of a list is found.
  pub elem_found :
      (cfg : Config) (db : TreeDb) (g : Specs) (key k x : Bytes) (ts : ℤ) (tree : art.Tree)
      → TreesModel cfg db g
      → tree_of db key ≡ some tree
      → g key k ≡ some (x, pos 0)
      → get_value tree k ts db.log ≡ ok (some x)
  unfolding get_value
  elem_found cfg db g key k x ts tree m there has =
      let h : TreeMatches db.log (some tree) (g key) =
        subst (λ o. TreeMatches db.log o (g key)) there (m.index key) in
      get_value_at-reply ts db.log k (art.search tree k) (g key k) (h k) ∙ ap (reply ts) has

  -- The number that the code computes.
  pub taken_lem :
      (is_left : Bool) (head_seq n : ℕ)
      → head_seq + suc n + 1 < 2 ^ 32
      → (if is_left then add32 head_seq 1 else sub32 (head_seq + suc n + 1) 1)
        ≡ taken is_left head_seq n
  taken_lem true head_seq n below = omega arith
  taken_lem false head_seq n below = omega arith

  -- Behind the lookup of the value.
  pub take_out_runs :
      (cfg : Config) (db db2 db3 : TreeDb) (key k x : Bytes) (is_left : Bool) (p : ValuePos)
      (l1 : LogSet) (head_seq tail_seq hd tl : ℕ)
      → write_log_entry cfg (delete_entry k) db.log ≡ (ok p, l1)
      → (if is_left then add32 head_seq 1 else head_seq) ≡ hd
      → (if is_left then tail_seq else sub32 tail_seq 1) ≡ tl
      → store_in value_type_list cfg key (meta_entry key hd tl) (record db { log = l1 })
        ≡ (ok tt, db2)
      → end_pop cfg key hd tl db2 ≡ (ok tt, db3)
      → take_out cfg key is_left head_seq tail_seq k (some x) db ≡ (ok (some x), db3)
  unfolding take_out save_l_meta
  take_out_runs cfg db db2 db3 key k x is_left p l1 head_seq tail_seq hd tl wrote head tail saved
        ended =
      rw (wrote, take_out) (rw (wrote, on_log) (rw (head, tail) (rw saved (rw ended refl))))

  end_pop_more :
      (cfg : Config) (key : Bytes) (head_seq tail_seq : ℕ) (db : TreeDb)
      → (sub32 (sub32 tail_seq head_seq) 1 == 0) ≡ false
      → end_pop cfg key head_seq tail_seq db ≡ (ok tt, db)
  unfolding end_pop
  end_pop_more cfg key head_seq tail_seq db keeps = rw keeps refl

  pub new_head :
      (is_left : Bool) (head_seq n : ℕ)
      → head_seq + suc n + 1 < 2 ^ 32
      → (if is_left then add32 head_seq 1 else head_seq) ≡ head_popped is_left head_seq
  new_head true head_seq n below = omega arith
  new_head false head_seq n below = refl

  pub new_tail :
      (is_left : Bool) (head_seq n : ℕ)
      → head_seq + suc n + 1 < 2 ^ 32
      → (if is_left then head_seq + suc n + 1 else sub32 (head_seq + suc n + 1) 1)
        ≡ head_popped is_left head_seq + n + 1
  new_tail true head_seq n below = omega arith
  new_tail false head_seq n below = omega arith

  pub pop_runs :
      (cfg : Config) (db db2 : TreeDb) (key x : Bytes) (is_left : Bool) (ts : ℤ) (tree : art.Tree)
      (head_seq tail_seq : ℕ)
      → leb (sub32 (sub32 tail_seq head_seq) 1) 0 ≡ false
      → tree_of db key ≡ some tree
      → l_meta tree key ts db ≡ ok (head_seq, tail_seq)
      → get_value tree
          (encode_list_key key (if is_left then add32 head_seq 1 else sub32 tail_seq 1))
          ts
          db.log
        ≡ ok (some x)
      → take_out cfg key is_left head_seq tail_seq
          (encode_list_key key (if is_left then add32 head_seq 1 else sub32 tail_seq 1))
          (some x)
          db
        ≡ (ok (some x), db2)
      → pop cfg key is_left ts db ≡ (ok (some x), db2)
  unfolding pop pop_tree
  pop_runs cfg db db2 key x is_left ts tree head_seq tail_seq some_elem there metas found took =
      rw (there, pop) (rw metas (rw some_elem (rw (found, if◌then◌else◌) took)))

  -- What a pop asks of the log files: room for the deletion, and after it for the meta entry.
  abbrev pub CanPop : Config → TreeDb → Bytes → Bool → ℕ → ℕ → Type 0
  CanPop cfg db key is_left head_seq n =
      let e = delete_entry (encode_list_key key (taken is_left head_seq n)) in
      let hd = head_popped is_left head_seq in
      CanStore cfg db.log e
      × CanStore cfg (write_log_entry cfg e db.log).1 (meta_entry key hd (hd + n + 1))

  -- `pop` at either end of a list of two elements or more on a database that stands for
  -- abstract trees, where the tree of the key has the elements of a sequence, answers the
  -- element at that end, and the new trees have the sequence without it under that key and what
  -- they had under other keys; the key has a tree, and the entry of the deletion and the meta
  -- entry behind it can be stored.
  pub pop-Models :
      (cfg : Config) (db : TreeDb) (g : Specs) (key x : Bytes) (is_left : Bool) (ts : ℤ)
      (tree : art.Tree) (head_seq : ℕ) (xs : List Bytes)
      → tree_of db key ≡ some tree
      → TreesModel cfg db g
      → IsList (g key) key head_seq (pushed is_left x xs)
      → 0 < length xs
      → CanPop cfg db key is_left head_seq (length xs)
      → (db' : TreeDb) × (g' : Specs) × (pop cfg key is_left ts db ≡ (ok (some x), db'))
        × TreesModel cfg db' g'
        × IsList (g' key) key (head_popped is_left head_seq) xs
        × ((j : Bytes) → bytes_eq key j ≡ false → g' j ≡ g j)
  pop-Models cfg db g key x is_left ts tree head_seq xs there m list more can =
      let n = length xs in
      let k = encode_list_key key (taken is_left head_seq n) in
      let hd = head_popped is_left head_seq in
      let me = meta_entry key hd (hd + n + 1) in
      let len = length-pushed is_left x xs in
      let (p, l1, wrote, s) = write_log_entry-Stores cfg db.log (delete_entry k) m.valid can.0 in
      let m1 = TreesModel-Follows m (Stores-Follows s) in
      let can_meta : CanStore cfg l1 me =
        subst (λ (r : _ × LogSet). CanStore cfg r.1 me) wrote can.1 in
      let (db2, saved, m2) =
        store_in-Models value_type_list cfg (record db { log = l1 }) g key me tree there m1 can_meta
          (omega (arith, length-meta hd (hd + n + 1))) refl in
      let (rest, has) = Elems-popped (g key) key head_seq xs x is_left list.elems in
      let below : head_seq + suc n + 1 < 2 ^ 32 = omega (arith, len, list.below) in
      let metas : l_meta tree key ts db ≡ ok (head_seq, head_seq + suc n + 1) =
        l_meta_lem cfg db g key ts tree m there
        ∙ list.meta ts
        ∙ ap (λ (i : ℕ). ok (head_seq, head_seq + i + 1)) len in
      let found = elem_found cfg db g key k x ts tree m there has in
      let hd_below : hd + n + 1 < 2 ^ 32 = ground (arith, below) in
      let some_elem : leb (sub32 (sub32 (head_seq + suc n + 1) head_seq) 1) 0 ≡ false =
        ground arith in
      let keeps : (sub32 (sub32 (hd + n + 1) hd) 1 == 0) ≡ false = ground (arith, more, hd_below) in
      let took =
        take_out_runs cfg db db2 db2 key k x is_left p l1 head_seq (head_seq + suc n + 1) hd
          (hd + n + 1) wrote (new_head is_left head_seq n below) (new_tail is_left head_seq n below)
          saved (end_pop_more cfg key hd (hd + n + 1) db2 keeps) in
      let named = ap (encode_list_key key) (sym (taken_lem is_left head_seq n below)) in
      (
        db2,
        update_at g key key (some (me.value, pos 0)),
        pop_runs cfg db db2 key x is_left ts tree head_seq (head_seq + suc n + 1) some_elem there
            metas (subst (λ i. get_value tree i ts db.log ≡ ok (some x)) named found)
            (subst
              (λ i.
                take_out cfg key is_left head_seq (head_seq + suc n + 1) i (some x) db
                ≡ (ok (some x), db2))
              named took),
        m2,
        rw (bytes_eq_refl key) (IsList-with_meta (g key) key hd xs rest hd_below),
        λ j other. rw other refl,
      )
