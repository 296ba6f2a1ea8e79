-- ===== src/Db/Trees/Models.antt =====
-- The trees of an index against a map from a key and a sub-key to a value with an expiry.
use lazy_db.Prelude.{
  ℕ, ◌≡◌, refl, ap, Bool, Option, none, some, Bytes, length, if◌then◌else◌, arith, Bool-cases,
  Option-cases, inl, inr, bytes_eq, bytes_eq_iff, bytes_eq→eq,
}
use mathlib.Core.Path.{subst}
use lazy_db.Prelude.Res.{ok}
use lazy_db.Prelude.Int.{ℤ}
use lazy_db.Std.GoMap
use lazy_db.Std.GoMap.{GoMap, bytes_eq_keys, lookup-insert}
use lazy_db.Ds.Art.{Art}
use lazy_db.Logfile.Entry.{LogEntry}
use lazy_db.Logfile.Codec.{entry_bytes, IsEncodable}
use lazy_db.Db.Store.{
  Config, LogSet, ValuePos, ValueType, value_type_string, value_type_list, value_type_hash,
  value_type_set, value_type_zset,
}
use lazy_db.Db.Store.Valid.{IsValid}
use lazy_db.Db.Index.{Value, index_size}
use lazy_db.Db.Index.Lookup.{Matches, Matches-Follows, Follows, Follows-refl}
use lazy_db.Db.Str.Models.{Spec, update, encoded_size_lem}
use lazy_db.Db.Trees.{TreeDb, tree_of, open_tree}

-- The abstract store: the values of every key.
abbrev pub Specs : Type 0
Specs = Bytes → Spec

abbrev pub update_at : Specs → Bytes → Bytes → Option (Bytes × ℤ) → Specs
update_at g key k x j = if bytes_eq key j then update (g key) k x else g j

pub index_size_lem :
    (typ : ValueType) (e : LogEntry) (p : ValuePos)
    → IsEncodable e
    → p.entry_size ≡ length (entry_bytes e)
    → index_size typ e p ≡ ok (length (entry_bytes e))
unfolding index_size
index_size_lem value_type_string e p able h = encoded_size_lem e able
index_size_lem value_type_list e p able h = encoded_size_lem e able
index_size_lem value_type_hash e p able h = ap ok h
index_size_lem value_type_set e p able h = ap ok h
index_size_lem value_type_zset e p able h = ap ok h

module _ ⦃art : Art Value⦄ where
  -- A tree has the values of its key; a key without a tree has none.
  abbrev pub TreeMatches : LogSet → Option art.Tree → Spec → Type 0
  TreeMatches l none h = (k : Bytes) → h k ≡ none
  TreeMatches l (some t) h = (k : Bytes) → Matches l k (art.search t k) (h k)

  pub record TreesModel (cfg : Config) (db : TreeDb) (g : Specs) : Type 0 where
    pub valid : IsValid cfg db.log
    pub index : (key : Bytes) → TreeMatches db.log (tree_of db key) (g key)

  TreeMatches-Follows :
      {cfg : Config} {l l' : LogSet} {n : ℕ} (t : Option art.Tree) (h : Spec)
      → Follows cfg l l' n
      → TreeMatches l t h
      → TreeMatches l' t h
  TreeMatches-Follows none h f m = m
  TreeMatches-Follows (some t) h f m = λ k. Matches-Follows k (art.search t k) (h k) f (m k)

  -- The log files go on, and the trees stay.
  pub TreesModel-Follows :
      {cfg : Config} {db : TreeDb} {g : Specs} {l' : LogSet} {n : ℕ}
      → TreesModel cfg db g
      → Follows cfg db.log l' n
      → TreesModel cfg (record db { log = l' }) g
  TreesModel-Follows {db} {g} m f = record {
    valid = f.valid;
    index = λ key. TreeMatches-Follows (tree_of db key) (g key) f (m.index key);
  }

  -- A key whose store has a value has a tree.
  pub has_tree_lem :
      {cfg : Config} {db : TreeDb} {g : Specs} (key k : Bytes) (x : Bytes × ℤ)
      → TreesModel cfg db g
      → g key k ≡ some x
      → (tree : art.Tree) × (tree_of db key ≡ some tree)
  has_tree_lem {db} {g} key k x m has = elim (Option-cases (tree_of db key)) [
    | inr there ↦ there
    | inl e ↦
        let no_value = subst (λ o. TreeMatches db.log o (g key)) e (m.index key) in
        absurd (cc (no_value k, has))
  ]

  -- The tree of one key is exchanged, and the log files go on.
  pub exchange :
      (cfg : Config) (db : TreeDb) (l' : LogSet) (g : Specs) (key : Bytes) (t : art.Tree) (h : Spec)
      (n : ℕ)
      → TreesModel cfg db g
      → Follows cfg db.log l' n
      → TreeMatches l' (some t) h
      → TreesModel cfg
          (record { trees = GoMap.insert key t db.trees; log = l' })
          (λ j. if bytes_eq key j then h else g j)
  exchange cfg db l' g key t h n m f new = record {
    valid = f.valid;
    index = λ j. elim (Bool-cases (bytes_eq key j)) [
      | inl e ↦ rw (lookup-insert key j t db.trees, e) new
      | inr e ↦
          rw (lookup-insert key j t db.trees, e)
            (TreeMatches-Follows (tree_of db j) (g j) f (m.index j))
    ];
  }

  same_spec :
      (db : TreeDb) (g : Specs) (key j : Bytes)
      → TreeMatches db.log (tree_of db j) (if bytes_eq key j then g key else g j)
      → TreeMatches db.log (tree_of db j) (g j)
  same_spec db g key j h =
      let at : Bool → Type 0 = λ b. TreeMatches db.log (tree_of db j) (if b then g key else g j) in
      elim (Bool-cases (bytes_eq key j)) [
        | inl e ↦
            subst (λ i. TreeMatches db.log (tree_of db j) (g i)) (bytes_eq→eq key j e)
              (subst at e h)
        | inr e ↦ subst at e h
      ]

  -- A key that had no tree gets an empty one.
  pub open_tree-Models :
      (cfg : Config) (db : TreeDb) (g : Specs) (key : Bytes)
      → TreesModel cfg db g
      → (db' : TreeDb) × (tree : art.Tree) × (open_tree key db ≡ (ok tt, db'))
        × TreesModel cfg db' g
        × (tree_of db' key ≡ some tree)
        × (db'.log ≡ db.log)
  unfolding open_tree
  open_tree-Models cfg db g key m = elim (Option-cases (tree_of db key)) [
    | inr (tree, e) ↦ (db, tree, rw (e, open_tree), m, e, refl)
    | inl e ↦
        let none_at : TreeMatches db.log none (g key) =
          subst (λ o. TreeMatches db.log o (g key)) e (m.index key) in
        let db1 : TreeDb = record db { trees = GoMap.insert key art.new db.trees } in
        let m1 =
          exchange cfg db db.log g key art.new (g key) 0 m (Follows-refl m.valid 0)
            (λ k. rw (art.search-new k, none_at k) tt) in
        (
          db1,
          art.new,
          rw (e, open_tree),
          record { valid = m1.valid; index = λ j. same_spec db1 g key j (m1.index j) },
          ground (arith, lookup-insert key key art.new db.trees, bytes_eq_iff key key),
          refl,
        )
  ]
