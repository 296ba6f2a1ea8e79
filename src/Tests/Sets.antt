-- ===== src/Tests/Sets.antt =====
-- A set with an empty tree; the hash is the member itself.
use lazy_db.Prelude.{◌≡◌, refl, some, none, Bytes, arith, is_some}
use lazy_db.Prelude.Res.{ok}
use lazy_db.Prelude.Int.{pos}
use lazy_db.Db.Index.{plain_entry}
use lazy_db.Db.Sets.{add_member, srem_internal}
use lazy_db.Db.Sets.Models.{LogAfter, removal, add_member-Models, srem_internal-Models}
use lazy_db.Db.Trees.{TreeDb}
use lazy_db.Db.Trees.Models.{TreesModel, update_at}
use lazy_db.Tests.{cfg, log0, key0, value0, trees, log0-CanStore}
use lazy_db.Tests.Hashes.{tree_db, specs, tree_db-Models, has_tree}

abbrev identity : Bytes → Bytes
identity b = b

add_member-Models_example :
    (db' : TreeDb ⦃art = trees⦄) × (add_member ⦃art = trees⦄ identity cfg key0 value0 tree_db
      ≡ (ok tt, db'))
    × TreesModel ⦃art = trees⦄ cfg db' (update_at specs key0 value0 (some (value0, pos 0)))
add_member-Models_example =
    add_member-Models ⦃art = trees⦄ identity cfg tree_db specs key0 value0 trees.new has_tree
      tree_db-Models
      (log0-CanStore (plain_entry key0 value0) refl (omega arith) 0 refl (omega arith) (omega arith)
        (omega arith))
      (omega arith)

srem_internal-Models_example :
    (db' : TreeDb ⦃art = trees⦄) × (srem_internal ⦃art = trees⦄ identity cfg key0 value0 tree_db
      ≡ (ok tt, db'))
    × TreesModel ⦃art = trees⦄ cfg db' (update_at specs key0 value0 none)
    × LogAfter ⦃art = trees⦄ identity (is_some (specs key0 value0)) log0 db'.log
srem_internal-Models_example =
    srem_internal-Models ⦃art = trees⦄ identity cfg tree_db specs key0 value0 trees.new has_tree
      tree_db-Models
      (log0-CanStore (removal ⦃art = trees⦄ identity key0 value0) refl (omega arith) 0 refl
        (omega arith) (omega arith) (omega arith))
      (omega arith)
