-- ===== src/Db/Hash/SetNx.antt =====
-- `HSetNX` against the abstract hashes.
use lazy_db.Prelude.{
  ◌+◌, ◌<◌, ◌≡◌, sym, ap, ◌∙◌, Option, none, some, Bytes, length, inl, inr, Option-cases,
}
use mathlib.Core.Path.{subst}
use lazy_db.Prelude.Res.{ok}
use lazy_db.Prelude.Int.{ℤ, pos}
use lazy_db.Ds.Art.{Art}
use lazy_db.Db.Store.{Config, LogSet}
use lazy_db.Db.Store.Room.{CanStore}
use lazy_db.Db.Index.{Value, plain_entry, get_value}
use lazy_db.Db.Index.Lookup.{reply, get_value_at-reply}
use lazy_db.Db.Keys.RoundTrip.{key_bytes, IsShort, encode_key_lem}
use lazy_db.Db.Str.Commands.{shown, reply-shown, reply-hidden}
use lazy_db.Db.Trees.{TreeDb, tree_of}
use lazy_db.Db.Trees.Models.{TreeMatches, open_tree-Models}
use lazy_db.Db.Hash.{get_field}
use lazy_db.Db.Hash.Update.{set_if_missing, find_field, h_set_nx}
use lazy_db.Db.Hash.Models.{Hashes, set_at, HashModels, set_field-Models}

module _ ⦃art : Art Value⦄ where
  find_field_lem :
      (cfg : Config) (db : TreeDb) (f : Hashes) (key field : Bytes) (ts : ℤ) (tree : art.Tree)
      → HashModels cfg db f
      → tree_of db key ≡ some tree
      → IsShort key
      → IsShort field
      → find_field key field ts db ≡ reply ts (f key field)
  unfolding find_field get_field get_value
  find_field_lem cfg db f key field ts t m there hk hf =
      let k = key_bytes key field in
      let h = subst (λ o. TreeMatches db.log o (m.raw key)) there (m.stored.index key) in
      rw (there, find_field)
        (rw (encode_key_lem key field hk hf) (
          get_value_at-reply ts db.log k (art.search t k) (m.raw key k) (h k)
          ∙ ap (λ (x : Option (Bytes × ℤ)). reply ts x) (m.named key field hk hf)))

  -- `HSetNX` on a database that stands for abstract hashes succeeds, makes the tree of a key
  -- that has none, stores the value without an expiry where the field shows none at that
  -- second, and leaves the hashes as they were where it shows one; key and field are shorter
  -- than 2 ^ 34 bytes, and the entry can be stored.
  pub h_set_nx-Models :
      (cfg : Config) (db : TreeDb) (f : Hashes) (key field v : Bytes) (ts : ℤ)
      → HashModels cfg db f
      → IsShort key
      → IsShort field
      → CanStore cfg db.log (plain_entry (key_bytes key field) v)
      → 0 < length (key_bytes key field) + length v
      → (db' : TreeDb) × (h_set_nx cfg key field v ts db ≡ (ok tt, db'))
        × HashModels cfg db' (elim (shown ts (f key field)) [
          | some w ↦ f
          | none ↦ set_at f key field (some (v, pos 0))
        ])
  unfolding h_set_nx set_if_missing
  h_set_nx-Models cfg db f key field v ts m hk hf can some_byte =
      let (db1, tree, opens, m1, there, same_log) = open_tree-Models cfg db m.raw key m.stored in
      let h1 : HashModels cfg db1 f = record { raw = m.raw; stored = m1; named = m.named } in
      let find = find_field_lem cfg db1 f key field ts tree h1 there hk hf in
      elim (Option-cases (shown ts (f key field))) [
        | inr (w, e) ↦ (db1, rw opens (rw (find, reply-shown ts (f key field) w e)), rw e h1)
        | inl e ↦
            let can1 =
              subst (λ (l : LogSet). CanStore cfg l (plain_entry (key_bytes key field) v))
                (sym same_log) can in
            let (db', runs, m') =
              set_field-Models cfg db1 f key field v tree h1 there hk hf can1 some_byte in
            (db', rw opens (rw (find, reply-hidden ts (f key field) e) runs), rw e m')
      ]
