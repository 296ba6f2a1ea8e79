-- ===== src/Db/Lists/Pushes.antt =====
-- `push` against the sequence that a list is.
use lazy_db.Prelude.{
  ℕ, suc, ◌+◌, ◌^◌, ◌<◌, ◌≡◌, refl, ap, ◌∙◌, Bool, true, false, some, List, ◌++◌, Bytes, length,
  arith, bytes_eq, bytes_eq_refl, length-append,
}
use mathlib.Core.Path.{subst}
use lazy_db.Prelude.Res.{ok, ◌>>=◌}
use lazy_db.Prelude.Int.{ℤ, pos}
use lazy_db.Std.Endian.{put_u32, length-put_u32}
use lazy_db.Ds.Art.{Art}
use lazy_db.Logfile.Entry.{LogEntry, s_list_meta}
use lazy_db.Db.Store.{Config, value_type_list}
use lazy_db.Db.Store.Room.{CanStore}
use lazy_db.Db.Index.{Value, plain_entry, get_value}
use lazy_db.Db.Index.Lookup.{get_value_at-reply}
use lazy_db.Db.StrValues.{or_nil, bytes_of}
use lazy_db.Db.Str.Models.{update}
use lazy_db.Db.Trees.{TreeDb, tree_of, store_in}
use lazy_db.Db.Trees.Models.{Specs, update_at, TreeMatches, TreesModel, has_tree_lem}
use lazy_db.Db.Trees.Writes.{store_in-Models}
use lazy_db.Db.Lists.{add32, sub32, encode_list_key, decode_meta, l_meta, meta_of, save_l_meta}
use lazy_db.Db.Lists.Deque.{numbers_at, IsList, pushed, head_pushed, slot, push_spec-IsList}
use lazy_db.Db.Lists.Ends.{push}

pub update_at_same :
    (g : Specs) (key k : Bytes) (x : _) → update_at g key k x key ≡ update (g key) k x
update_at_same g key k x = rw (bytes_eq_refl key) refl

pub update_at_other :
    (g : Specs) (key j k : Bytes) (x : _) → bytes_eq key j ≡ false → update_at g key k x j ≡ g j
update_at_other g key j k x e = rw e refl

-- The meta entry.
abbrev pub meta_entry : Bytes → ℕ → ℕ → LogEntry
meta_entry key head_seq tail_seq = record (plain_entry key (put_u32 head_seq ++ put_u32 tail_seq)) {
  stat = s_list_meta;
}

length-list_key : (key : Bytes) (s : ℕ) → 0 < length (encode_list_key key s)
unfolding encode_list_key
length-list_key key s = omega (arith, length-append (put_u32 s) key, length-put_u32 s)

pub length-meta : (a b : ℕ) → 0 < length (put_u32 a ++ put_u32 b)
length-meta a b = omega (arith, length-append (put_u32 a) (put_u32 b), length-put_u32 a)

module _ ⦃art : Art Value⦄ where
  pub l_meta_lem :
      (cfg : Config) (db : TreeDb) (g : Specs) (key : Bytes) (ts : ℤ) (tree : art.Tree)
      → TreesModel cfg db g
      → tree_of db key ≡ some tree
      → l_meta tree key ts db ≡ numbers_at ts (g key key)
  unfolding l_meta get_value
  l_meta_lem cfg db g key ts tree m there =
      let h : TreeMatches db.log (some tree) (g key) =
        subst (λ o. TreeMatches db.log o (g key)) there (m.index key) in
      ap (λ r. or_nil r >>= λ v. decode_meta (bytes_of v))
        (get_value_at-reply ts db.log key (art.search tree key) (g key key) (h key))

  meta_of_lem :
      (cfg : Config) (db : TreeDb) (g : Specs) (key : Bytes) (ts : ℤ) (tree : art.Tree)
      → TreesModel cfg db g
      → tree_of db key ≡ some tree
      → meta_of key ts db ≡ numbers_at ts (g key key)
  unfolding meta_of
  meta_of_lem cfg db g key ts tree m there =
      rw (there, meta_of) (l_meta_lem cfg db g key ts tree m there)

  push_runs :
      (cfg : Config) (db db1 db2 : TreeDb) (key arg : Bytes) (is_left : Bool) (ts : ℤ)
      (head_seq n : ℕ)
      → 0 < head_seq
      → head_seq + n + 2 < 2 ^ 32
      → meta_of key ts db ≡ ok (head_seq, head_seq + n + 1)
      → store_in value_type_list cfg key
          (plain_entry (encode_list_key key (slot is_left head_seq n)) arg)
          db
        ≡ (ok tt, db1)
      → store_in value_type_list cfg key
          (meta_entry key (head_pushed is_left head_seq) (head_pushed is_left head_seq + suc n + 1))
          db1
        ≡ (ok tt, db2)
      → push cfg key arg is_left ts db ≡ (ok tt, db2)
  unfolding push save_l_meta
  push_runs cfg db db1 db2 key arg true ts head_seq n some_head below metas stored saved =
      let head : sub32 head_seq 1 ≡ head_pushed true head_seq = omega arith in
      let tail : head_seq + n + 1 ≡ head_pushed true head_seq + suc n + 1 = omega arith in
      rw metas (rw stored (rw (head, tail) saved))
  push_runs cfg db db1 db2 key arg false ts head_seq n some_head below metas stored saved =
      let tail : add32 (head_seq + n + 1) 1 ≡ head_seq + suc n + 1 = omega arith in
      rw metas (rw stored (rw tail saved))

  -- What a push asks of the log files: room for the element, and after it for the meta entry.
  abbrev pub CanPush : Config → TreeDb → Bytes → Bytes → Bool → ℕ → ℕ → Type 0
  CanPush cfg db key x is_left head_seq n =
      let e = plain_entry (encode_list_key key (slot is_left head_seq n)) x in
      let m =
        meta_entry key (head_pushed is_left head_seq) (head_pushed is_left head_seq + suc n + 1) in
      CanStore cfg db.log e × CanStore cfg (store_in value_type_list cfg key e db).1.log m

  -- `push` at either end of a list on a database that stands for abstract trees, where the tree
  -- of the key has the elements of a sequence, succeeds: the new trees have the sequence with
  -- the element in front or at its end under that key, and what they had under other keys; the
  -- key has a tree, the head number is not 0, the tail number is below 2 ^ 32 - 1, and the
  -- entry of the element and the meta entry behind it can be stored.
  pub push-Models :
      (cfg : Config) (db : TreeDb) (g : Specs) (key x : Bytes) (is_left : Bool) (ts : ℤ)
      (tree : art.Tree) (head_seq : ℕ) (xs : List Bytes)
      → tree_of db key ≡ some tree
      → TreesModel cfg db g
      → IsList (g key) key head_seq xs
      → 0 < head_seq
      → head_seq + length xs + 2 < 2 ^ 32
      → CanPush cfg db key x is_left head_seq (length xs)
      → (db' : TreeDb) × (g' : Specs) × (push cfg key x is_left ts db ≡ (ok tt, db'))
        × TreesModel cfg db' g'
        × IsList (g' key) key (head_pushed is_left head_seq) (pushed is_left x xs)
        × ((j : Bytes) → bytes_eq key j ≡ false → g' j ≡ g j)
  push-Models cfg db g key x is_left ts tree head_seq xs there m list some_head below can =
      let n = length xs in
      let k = encode_list_key key (slot is_left head_seq n) in
      let e = plain_entry k x in
      let hd = head_pushed is_left head_seq in
      let me = meta_entry key hd (hd + suc n + 1) in
      let g1 = update_at g key k (some (x, pos 0)) in
      let (db1, stored, m1) =
        store_in-Models value_type_list cfg db g key e tree there m can.0
          (omega (arith, length-list_key key (slot is_left head_seq n))) refl in
      let has : g1 key k ≡ some (x, pos 0) = rw (bytes_eq_refl key, bytes_eq_refl k) refl in
      let (tree1, there1) = has_tree_lem key k (x, pos 0) m1 has in
      let can_meta : CanStore cfg db1.log me =
        subst (λ (r : _ × TreeDb). CanStore cfg r.1.log me) stored can.1 in
      let (db2, saved, m2) =
        store_in-Models value_type_list cfg db1 g1 key me tree1 there1 m1 can_meta
          (omega (arith, length-meta hd (hd + suc n + 1))) refl in
      let metas = meta_of_lem cfg db g key ts tree m there ∙ list.meta ts in
      (
        db2,
        update_at g1 key key (some (me.value, pos 0)),
        push_runs cfg db db1 db2 key x is_left ts head_seq n some_head below metas stored saved,
        m2,
        rw (bytes_eq_refl key)
            (push_spec-IsList (g key) key head_seq xs x is_left list some_head below),
        λ j other. rw (other) refl,
      )
