-- ===== src/Tests/Hashes.antt =====
-- A hash with an empty tree, and encoded keys.
use lazy_db.Prelude.{
  ◌^◌, ◌<◌, ◌≡◌, refl, inl, inr, false, none, some, [], ◌∷◌, Bytes, arith, length, if◌then◌else◌,
  bytes_eq, bytes_eq_iff, Bool-cases,
}
use lazy_db.Prelude.Res.{ok, ◌>>=◌}
use lazy_db.Prelude.Int.{pos}
use lazy_db.Std.GoMap
use lazy_db.Std.GoMap.{GoMap, bytes_eq_keys, lookup-insert}
use lazy_db.Ds.Art.{lookup-nil}
use lazy_db.Db.Index.{Value, plain_entry, delete_entry}
use lazy_db.Db.Index.Lookup.{Follows-refl}
use lazy_db.Db.Keys.{encode_key, decode_key}
use lazy_db.Db.Keys.RoundTrip.{key_bytes, decode_key-encode_key, length-key_bytes}
use lazy_db.Db.Str.Models.{Spec}
use lazy_db.Db.Trees.{TreeDb, tree_of}
use lazy_db.Db.Trees.Models.{Specs, TreesModel, exchange}
use lazy_db.Db.Hash.{h_get}
use lazy_db.Db.Hash.Update.{set_field, delete_field, h_set_nx}
use lazy_db.Db.Hash.SetNx.{h_set_nx-Models}
use lazy_db.Db.Hash.Models.{set_at, HashModels, h_get-Models, set_field-Models, delete_field-Models}
use lazy_db.Tests.{cfg, log0, key0, value0, trees, log0-IsValid, log0-CanStore}

abbrev field0 : Bytes
field0 = b'f' ∷ []

abbrev pub no_trees : TreeDb ⦃art = trees⦄
no_trees = record { trees = []; log = log0 }

abbrev pub tree_db : TreeDb ⦃art = trees⦄
tree_db = record { trees = GoMap.insert key0 trees.new []; log = log0 }

abbrev pub nothing : Spec
nothing = λ k. none

abbrev pub specs : Specs
specs = λ j. if bytes_eq key0 j then nothing else nothing

no_trees-Models : TreesModel ⦃art = trees⦄ cfg no_trees (λ j. nothing)
unfolding GoMap.lookup
no_trees-Models = record { valid = log0-IsValid; index = λ key k. refl }

pub tree_db-Models : TreesModel ⦃art = trees⦄ cfg tree_db specs
tree_db-Models =
    exchange ⦃art = trees⦄ cfg no_trees log0 (λ j. nothing) key0 trees.new nothing 0 no_trees-Models
      (Follows-refl log0-IsValid 0) (λ k. rw (lookup-nil Value k) tt)

pub hashes : HashModels ⦃art = trees⦄ cfg tree_db (λ key field. none)
hashes = record {
  raw = specs;
  stored = tree_db-Models;
  named = λ key field hk hf. elim (Bool-cases (bytes_eq key0 key)) [
    | inl e ↦ rw e refl
    | inr e ↦ rw e refl
  ];
}

pub has_tree : tree_of ⦃art = trees⦄ tree_db key0 ≡ some trees.new
has_tree =
    ground (arith, lookup-insert {V = trees.Tree} key0 key0 trees.new [], bytes_eq_iff key0 key0)

h_get-Models_example : h_get ⦃art = trees⦄ key0 field0 (pos 5) tree_db ≡ ok none
h_get-Models_example =
    h_get-Models ⦃art = trees⦄ cfg tree_db (λ key field. none) key0 field0 (pos 5) hashes
      (omega arith) (omega arith)

short_name : length (key_bytes key0 field0) < 2 ^ 27
short_name = omega (arith, length-key_bytes key0 field0)

set_field-Models_example :
    (db' : TreeDb ⦃art = trees⦄) × (set_field ⦃art = trees⦄ cfg key0 field0 value0 tree_db
      ≡ (ok tt, db'))
    × HashModels ⦃art = trees⦄ cfg db'
        (set_at (λ key field. none) key0 field0 (some (value0, pos 0)))
set_field-Models_example =
    set_field-Models ⦃art = trees⦄ cfg tree_db (λ key field. none) key0 field0 value0 trees.new
      hashes has_tree (omega arith) (omega arith)
      (log0-CanStore (plain_entry (key_bytes key0 field0) value0) refl (omega arith) 0 refl
        (omega arith) short_name (omega arith))
      (omega arith)

delete_field-Models_example :
    (db' : TreeDb ⦃art = trees⦄) × (delete_field ⦃art = trees⦄ cfg key0 field0 tree_db
      ≡ (ok false, db'))
    × HashModels ⦃art = trees⦄ cfg db' (set_at (λ key field. none) key0 field0 none)
delete_field-Models_example =
    delete_field-Models ⦃art = trees⦄ cfg tree_db (λ key field. none) key0 field0 trees.new hashes
      has_tree (omega arith) (omega arith)
      (log0-CanStore (delete_entry (key_bytes key0 field0)) refl (omega arith) 0 refl (omega arith)
        short_name (omega arith))
      (omega arith)

decode_key-encode_key_example : (encode_key key0 field0 >>= decode_key) ≡ ok (key0, field0)
decode_key-encode_key_example = decode_key-encode_key key0 field0 (omega arith) (omega arith)

h_set_nx-Models_example :
    (db' : TreeDb ⦃art = trees⦄) × (h_set_nx ⦃art = trees⦄ cfg key0 field0 value0 (pos 5) tree_db
      ≡ (ok tt, db'))
    × HashModels ⦃art = trees⦄ cfg db'
        (set_at (λ key field. none) key0 field0 (some (value0, pos 0)))
h_set_nx-Models_example =
    h_set_nx-Models ⦃art = trees⦄ cfg tree_db (λ key field. none) key0 field0 value0 (pos 5) hashes
      (omega arith) (omega arith)
      (log0-CanStore (plain_entry (key_bytes key0 field0) value0) refl (omega arith) 0 refl
        (omega arith) short_name (omega arith))
      (omega arith)
