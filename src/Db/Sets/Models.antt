-- ===== src/Db/Sets/Models.antt =====
-- Sets against a map from keys and the hashes of members to members. Two members with one hash
-- are one member to the program, and here.
use lazy_db.Prelude.{
  ℕ, ◌+◌, ◌≤◌, ◌<◌, ◌≡◌, refl, ◌∙◌, Bool, true, false, none, some, Bytes, length, arith, Bool-cases,
  Option-cases, inl, inr, is_some,
}
use mathlib.Core.Path.{subst}
use lazy_db.Prelude.Res.{ok}
use lazy_db.Prelude.Int.{pos}
use lazy_db.Std.GoMap
use lazy_db.Std.GoMap.{GoMap, bytes_eq_keys}
use lazy_db.Ds.Art.{Art}
use lazy_db.Logfile.Entry.{LogEntry, s_delete}
use lazy_db.Logfile.Codec.{entry_bytes}
use lazy_db.Db.Store.{Config, LogSet, ValuePos, value_type_set}
use lazy_db.Db.Store.Room.{CanStore}
use lazy_db.Db.Store.Write.{write_log_entry-Stores}
use lazy_db.Db.Index.{Value, plain_entry, index_size}
use lazy_db.Db.Index.Lookup.{
  Follows-refl, Follows-trans, send_discard-Follows, send_value-Follows, Matches-is_some,
}
use lazy_db.Db.Str.Models.{update, encoded_size_lem, Stores-Follows, Matches-update}
use lazy_db.Db.Trees.{TreeDb, tree_of, delete_in, discard_both}
use lazy_db.Db.Trees.Models.{Specs, update_at, TreesModel, TreeMatches, exchange}
use lazy_db.Db.Trees.Writes.{update_tree-Models}
use lazy_db.Db.Sets.{s_is_member, add_member, srem_internal}

module _ ⦃art : Art Value⦄ (sum128 : Bytes → Bytes) where
  -- On a database that stands for abstract sets, `SIsMember` tells whether the set of the key
  -- has something under the member's hash.
  pub s_is_member-Models :
      (cfg : Config) (db : TreeDb) (g : Specs) (key member : Bytes)
      → TreesModel cfg db g
      → s_is_member sum128 key member db ≡ is_some (g key (sum128 member))
  unfolding s_is_member
  s_is_member-Models cfg db g key member m = elim (Option-cases (tree_of db key)) [
    | inl e ↦
        let h = subst (λ o. TreeMatches db.log o (g key)) e (m.index key) in
        rw (e, s_is_member) (rw (h (sum128 member)))
    | inr (t, e) ↦
        let h = subst (λ o. TreeMatches db.log o (g key)) e (m.index key) in
        rw (e, s_is_member)
          (Matches-is_some db.log (sum128 member) (art.search t (sum128 member))
            (g key (sum128 member)) (h (sum128 member)))
  ]

  size_in_set :
      (e : LogEntry) (p : ValuePos) (size : ℕ)
      → index_size value_type_set e (record p { entry_size = size }) ≡ ok size
  unfolding index_size
  size_in_set e p size = refl

  -- A round of `SAdd` on a database that stands for abstract sets succeeds, and the new
  -- database stands for the sets with the member under its hash in the set of that key; the key
  -- has a tree, the entry can be stored, and key or member is not empty.
  pub add_member-Models :
      (cfg : Config) (db : TreeDb) (g : Specs) (key mem : Bytes) (tree : art.Tree)
      → tree_of db key ≡ some tree
      → TreesModel cfg db g
      → CanStore cfg db.log (plain_entry key mem)
      → 0 < length key + length mem
      → (db' : TreeDb) × (add_member sum128 cfg key mem db ≡ (ok tt, db'))
        × TreesModel cfg db' (update_at g key (sum128 mem) (some (mem, pos 0)))
  unfolding add_member
  add_member-Models cfg db g key mem tree there m can some_byte =
      let e = plain_entry key mem in
      let i = plain_entry (sum128 mem) mem in
      let (p, l1, wrote, s) = write_log_entry-Stores cfg db.log e m.valid can in
      let n = length (entry_bytes e) in
      let (db', runs, m') =
        update_tree-Models value_type_set cfg db g key e i p (record p { entry_size = n }) n l1 tree
          there m s can.encodable some_byte refl refl (size_in_set i p n) refl refl in
      (db', rw wrote (rw (encoded_size_lem e can.encodable) runs), m')

  -- The entry of a removal.
  abbrev pub removal : Bytes → Bytes → LogEntry
  removal key member = record (plain_entry key (sum128 member)) { stat = s_delete }

  -- The log files after a removal: they are as they were where there was no such member.
  abbrev pub LogAfter : Bool → LogSet → LogSet → Type 0
  LogAfter true l l' = Unit {0}
  LogAfter false l l' = l' ≡ l

  -- `sremInternal` on a database that stands for abstract sets succeeds, and the new database
  -- stands for the sets without what the set of that key has under the member's hash; where it
  -- has nothing there, the log files are as they were; the key has a tree, the entry of the
  -- removal can be stored, and the discard channel has room for two values.
  pub srem_internal-Models :
      (cfg : Config) (db : TreeDb) (g : Specs) (key member : Bytes) (tree : art.Tree)
      → tree_of db key ≡ some tree
      → TreesModel cfg db g
      → CanStore cfg db.log (removal key member)
      → length db.log.discard.val_chan + 2 ≤ db.log.discard.chan_cap
      → (db' : TreeDb) × (srem_internal sum128 cfg key member db ≡ (ok tt, db'))
        × TreesModel cfg db' (update_at g key (sum128 member) none)
        × LogAfter (is_some (g key (sum128 member))) db.log db'.log
  unfolding srem_internal delete_in discard_both
  srem_internal-Models cfg db g key member tree there m can room =
      let e = removal key member in
      let k = sum128 member in
      let del = art.delete tree k in
      let old : TreeMatches db.log (some tree) (g key) =
        subst (λ o. TreeMatches db.log o (g key)) there (m.index key) in
      let had : del.2 ≡ is_some (g key k) =
        art.delete_updated tree k
        ∙ Matches-is_some db.log k (art.search tree k) (g key k) (old k) in
      elim (Bool-cases (is_some (g key k))) [
        | inr missing ↦
            let f = Follows-refl {cfg = cfg} {l = db.log} m.valid 0 in
            (
              record { trees = GoMap.insert key del.0 db.trees; log = db.log },
              rw (there, delete_in) (rw (had ∙ missing)),
              exchange cfg db db.log g key del.0 (update (g key) k none) 0 m f (
                  Matches-update cfg db.log db.log tree del.0 (g key) k 0 none none f old tt
                    (art.search-delete tree k)),
              rw missing refl,
            )
        | inl present ↦
            let (p, l1, wrote, s) = write_log_entry-Stores cfg db.log e m.valid can in
            let f1 = Stores-Follows s in
            let (l2, sent, f2) =
              send_discard-Follows cfg del.1 true l1 s.valid (omega (arith, f1.chan, f1.cap)) in
            let f12 = Follows-trans f1 f2 in
            let (l3, sent_size, f3) =
              send_value-Follows cfg p.fid (length (entry_bytes e)) l2 f2.valid
                (omega (arith, f12.chan, f12.cap)) in
            let all = Follows-trans f12 f3 in
            (
              record { trees = GoMap.insert key del.0 db.trees; log = l3 },
              rw (there, delete_in)
                  (rw (had ∙ present)
                    (rw wrote (rw sent (rw (encoded_size_lem e can.encodable) (rw sent_size))))),
              exchange cfg db l3 g key del.0 (update (g key) k none) 2 m all (
                  Matches-update cfg db.log l3 tree del.0 (g key) k 2 none none all old tt
                    (art.search-delete tree k)),
              rw present tt,
            )
      ]
