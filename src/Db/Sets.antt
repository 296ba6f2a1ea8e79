-- ===== src/Db/Sets.antt =====
-- set.go: a set has one tree; a member lies under its hash. `sum128` is the `Write`,
-- `EncodeSum128` and `Reset` of `util.Murmur128`, whose hash is that of a package.
pub mod Models
use lazy_db.Prelude.{
  ℕ, zero, suc, Bool, false, Option, none, some, List, [], ◌∷◌, Bytes, length, ◌==◌, not,
  if◌then◌else◌, is_some,
}
use lazy_db.Prelude.Res.{ok}
use lazy_db.Prelude.Exec.{Exec, pure, lift, ◌>>=◌, ◌>>◌}
use lazy_db.Prelude.Int.{ℤ}
use lazy_db.Ds.Art.{Art, tree_get}
use lazy_db.Logfile.Entry.{s_delete}
use lazy_db.Db.Store.{Config, value_type_set, write_log_entry}
use lazy_db.Db.Index.{Value, plain_entry, get_value, encoded_size}
use lazy_db.Db.Trees.{TreeDb, tree_of, on_log, open_tree, update_tree, delete_in, discard_both}

module _ ⦃art : Art Value⦄ (sum128 : Bytes → Bytes) where
  -- A round of the loop of `SAdd`.
  unfoldable pub add_member : Config → Bytes → Bytes → Exec TreeDb (Unit {0})
  add_member cfg key mem = do
    val_pos ← on_log (write_log_entry cfg (plain_entry key mem))
    size ← lift (encoded_size (plain_entry key mem))
    update_tree value_type_set key (plain_entry (sum128 mem) mem)
        (record val_pos { entry_size = size })

  add_loop : Config → Bytes → List Bytes → Exec TreeDb (Unit {0})
  add_loop cfg key [] = pure tt
  add_loop cfg key (mem ∷ members) =
      let skip = add_loop cfg key members in
      let add = add_member cfg key mem >> add_loop cfg key members in
      if length mem == 0 then skip else add

  -- `SAdd`
  unfoldable pub s_add : Config → Bytes → List Bytes → Exec TreeDb (Unit {0})
  unfolding add_loop
  s_add cfg key members = do open_tree key; add_loop cfg key members

  -- `SIsMember`
  unfoldable pub s_is_member : Bytes → Bytes → TreeDb → Bool
  s_is_member key member db = elim (tree_of db key) [
    | none ↦ false
    | some tree ↦ is_some (tree_get {V = Value} tree (sum128 member))
  ]

  -- The values of the leaves, `num` of them at most.
  members_loop : art.Tree → ℕ → List (Bytes × Value) → ℤ → Exec TreeDb (List (Option Bytes))
  members_loop tree zero leaves ts = pure []
  members_loop tree (suc num) [] ts = pure []
  members_loop tree (suc num) ((k, _) ∷ leaves) ts = do
    val ← λ db. (get_value tree k ts db.log, db)
    values ← members_loop tree num leaves ts
    pure (val ∷ values)

  -- `SMembers` and its helper
  unfoldable pub s_members : Bytes → ℤ → Exec TreeDb (List (Option Bytes))
  unfolding members_loop
  s_members key ts db = elim (tree_of db key) [
    | none ↦ (ok [], db)
    | some tree ↦ members_loop tree (length (art.leaves tree)) (art.leaves tree) ts db
  ]

  -- `sremInternal`
  unfoldable pub srem_internal : Config → Bytes → Bytes → Exec TreeDb (Unit {0})
  srem_internal cfg key member = do
    let entry = record (plain_entry key (sum128 member)) { stat = s_delete }
    (val, updated) ← delete_in key (sum128 member)
    (if not updated
        then pure tt
        else (do p ← on_log (write_log_entry cfg entry); discard_both val updated p entry))

  srem_loop : Config → Bytes → List Bytes → Exec TreeDb (Unit {0})
  srem_loop cfg key [] = pure tt
  srem_loop cfg key (mem ∷ members) = do srem_internal cfg key mem; srem_loop cfg key members

  -- `SRem`
  unfoldable pub s_rem : Config → Bytes → List Bytes → Exec TreeDb (Unit {0})
  unfolding srem_loop
  s_rem cfg key members db = elim (tree_of db key) [
    | none ↦ (ok tt, db)
    | some tree ↦ srem_loop cfg key members db
  ]

  -- The bytes of the values that `SPop` removes: nil has none.
  values_of : List (Option Bytes) → List Bytes
  values_of [] = []
  values_of (none ∷ vs) = [] ∷ values_of vs
  values_of (some v ∷ vs) = v ∷ values_of vs

  -- `SPop`
  unfoldable pub s_pop : Config → Bytes → ℕ → ℤ → Exec TreeDb (List (Option Bytes))
  unfolding members_loop srem_loop values_of
  s_pop cfg key num ts db = elim (tree_of db key) [
    | none ↦ (ok [], db)
    | some tree ↦
        (do
          values ← members_loop tree num (art.leaves tree) ts
          srem_loop cfg key (values_of values)
          pure values)
          db
  ]
