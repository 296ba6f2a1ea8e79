-- ===== src/Db/Trees/Writes.antt =====
-- What storing and deleting do to the trees of an index.
use lazy_db.Prelude.{
  ℕ, ◌+◌, ◌≤◌, ◌<◌, ◌≡◌, ◌==◌, refl, sym, false, none, some, Bytes, length, arith, is_some,
}
use mathlib.Core.Path.{subst}
use lazy_db.Prelude.Res.{ok}
use lazy_db.Prelude.Exec.{pure, ◌>>=◌, ◌>>◌}
use lazy_db.Std.GoMap
use lazy_db.Std.GoMap.{GoMap, bytes_eq_keys, lookup-insert}
use lazy_db.Ds.Art.{Art}
use lazy_db.Logfile.Entry.{LogEntry, s_delete}
use lazy_db.Logfile.Codec.{entry_bytes, IsEncodable}
use lazy_db.Db.Store.{Config, LogSet, ValuePos, ValueType, write_log_entry}
use lazy_db.Db.Store.Valid.{Holds}
use lazy_db.Db.Store.Room.{CanStore, Stores}
use lazy_db.Db.Store.Write.{write_log_entry-Stores}
use lazy_db.Db.Index.{Value, delete_entry, index_size, update_index_tree}
use lazy_db.Db.Index.Lookup.{Leads, Follows-trans, send_discard-Follows, send_value-Follows}
use lazy_db.Db.Str.Models.{update, encoded_size_lem, Stores-Follows, Matches-update}
use lazy_db.Db.Trees.{
  TreeDb, tree_of, on_log, finish_update, update_tree, store_in, delete_in, discard_both,
}
use lazy_db.Db.Trees.Models.{Specs, update_at, index_size_lem, TreeMatches, TreesModel, exchange}

module _ ⦃art : Art Value⦄ where
  -- The index value of an entry.
  abbrev pub indexed : LogEntry → ValuePos → ℕ → Value
  indexed e p size = record {
    fid = p.fid;
    offset = p.offset;
    entry_size = size;
    expired_at = e.expired_at;
  }

  pub update_index_runs :
      (typ : ValueType) (tree : art.Tree) (e : LogEntry) (p : ValuePos) (size : ℕ) (l : LogSet)
      → index_size typ e p ≡ ok size
      → update_index_tree typ tree e p false l
        ≡ (ok (art.insert tree e.key (indexed e p size)).0, l)
  unfolding update_index_tree
  update_index_runs typ tree e p size l h = rw h

  -- An entry `e` that was stored is indexed under the key of an entry `i` with the same expiry.
  pub update_tree-Models :
      (typ : ValueType) (cfg : Config) (db : TreeDb) (g : Specs) (key : Bytes) (e i : LogEntry)
      (p p' : ValuePos) (size : ℕ) (l1 : LogSet) (tree : art.Tree)
      → tree_of db key ≡ some tree
      → TreesModel cfg db g
      → Stores cfg db.log e p l1
      → IsEncodable e
      → 0 < length e.key + length e.value
      → (e.stat == s_delete) ≡ false
      → i.expired_at ≡ e.expired_at
      → index_size typ i p' ≡ ok size
      → p'.fid ≡ p.fid
      → p'.offset ≡ p.offset
      → (db' : TreeDb) × (update_tree typ key i p' (record db { log = l1 }) ≡ (ok tt, db'))
        × TreesModel cfg db' (update_at g key i.key (some (e.value, e.expired_at)))
  unfolding update_tree finish_update
  update_tree-Models typ cfg db g key e i p p' size l1 tree there m s able some_byte plain time
        sized fid offset =
      let f = Stores-Follows s in
      let val = indexed i p' size in
      let tree' = (art.insert tree i.key val).0 in
      let leads : Leads l1 val e.value e.expired_at = record {
        e = e;
        held =
            subst (λ (n : ℕ). Holds l1 n p'.offset e) (sym fid)
              (subst (λ (n : ℕ). Holds l1 p.fid n e) (sym offset) s.held);
        expiry = time;
        encodable = able;
        some_byte = some_byte;
        plain = plain;
        has_value = refl;
        has_expiry = refl;
      } in
      let old : TreeMatches db.log (some tree) (g key) =
        subst (λ o. TreeMatches db.log o (g key)) there (m.index key) in
      let x = some (e.value, e.expired_at) in
      (
        record { trees = GoMap.insert key tree' db.trees; log = l1 },
        rw (there, update_tree) (rw (update_index_runs typ tree i p' size l1 sized)),
        exchange cfg db l1 g key tree' (update (g key) i.key x) 0 m f (
            Matches-update cfg db.log l1 tree tree' (g key) i.key 0 (some val) x f old leads
              (art.search-insert tree i.key val)),
      )

  -- An entry that is no deletion is stored under a key that has a tree.
  pub store_in-Models :
      (typ : ValueType) (cfg : Config) (db : TreeDb) (g : Specs) (key : Bytes) (e : LogEntry)
      (tree : art.Tree)
      → tree_of db key ≡ some tree
      → TreesModel cfg db g
      → CanStore cfg db.log e
      → 0 < length e.key + length e.value
      → (e.stat == s_delete) ≡ false
      → (db' : TreeDb) × (store_in typ cfg key e db ≡ (ok tt, db'))
        × TreesModel cfg db' (update_at g key e.key (some (e.value, e.expired_at)))
  unfolding store_in
  store_in-Models typ cfg db g key e tree there m can some_byte plain =
      let (p, l1, wrote, s) = write_log_entry-Stores cfg db.log e m.valid can in
      let sized = index_size_lem typ e p can.encodable s.entry_size in
      let (db', runs, m') =
        update_tree-Models typ cfg db g key e e p p (length (entry_bytes e)) l1 tree there m s
          can.encodable some_byte plain refl sized refl refl in
      (db', rw wrote runs, m')

  -- Behind the write, the index changes the trees alone.
  pub store_in_log :
      (typ : ValueType) (cfg : Config) (db : TreeDb) (key : Bytes) (e : LogEntry) (tree : art.Tree)
      (p : ValuePos) (l1 : LogSet)
      → tree_of db key ≡ some tree
      → IsEncodable e
      → p.entry_size ≡ length (entry_bytes e)
      → write_log_entry cfg e db.log ≡ (ok p, l1)
      → (store_in typ cfg key e db).1.log ≡ l1
  unfolding store_in update_tree finish_update
  store_in_log typ cfg db key e tree p l1 there able size wrote =
      let sized = index_size_lem typ e p able size in
      rw wrote (
        rw (there, update_tree)
          (rw (update_index_runs typ tree e p (length (entry_bytes e)) l1 sized)))

  -- A sub-key leaves the tree of its key, and both entries count as dead.
  pub delete_in-Models :
      (cfg : Config) (db : TreeDb) (g : Specs) (key k : Bytes) (tree : art.Tree)
      → tree_of db key ≡ some tree
      → TreesModel cfg db g
      → CanStore cfg db.log (delete_entry k)
      → length db.log.discard.val_chan + 2 ≤ db.log.discard.chan_cap
      → (db' : TreeDb) × ((do
        p ← on_log (write_log_entry cfg (delete_entry k))
        (val, updated) ← delete_in key k
        discard_both val updated p (delete_entry k)
        pure {S = TreeDb} updated)
            db
          ≡ (ok (is_some (art.search tree k)), db'))
        × TreesModel cfg db' (update_at g key k none)
  unfolding delete_in discard_both
  delete_in-Models cfg db g key k tree there m can room =
      let e = delete_entry k in
      let (p, l1, wrote, s) = write_log_entry-Stores cfg db.log e m.valid can in
      let f1 = Stores-Follows s in
      let del = art.delete tree k in
      let (l2, sent, f2) =
        send_discard-Follows cfg del.1 del.2 l1 s.valid (omega (arith, f1.chan, f1.cap)) in
      let f12 = Follows-trans f1 f2 in
      let (l3, sent_size, f3) =
        send_value-Follows cfg p.fid (length (entry_bytes e)) l2 f2.valid
          (omega (arith, f12.chan, f12.cap)) in
      let old : TreeMatches db.log (some tree) (g key) =
        subst (λ o. TreeMatches db.log o (g key)) there (m.index key) in
      let all = Follows-trans f12 f3 in
      (
        record { trees = GoMap.insert key del.0 db.trees; log = l3 },
        rw wrote (
            rw (there, delete_in)
              (rw sent (
                rw (encoded_size_lem e can.encodable)
                  (rw sent_size (rw (art.delete_updated tree k)))))),
        exchange cfg db l3 g key del.0 (update (g key) k none) 2 m all (
            Matches-update cfg db.log l3 tree del.0 (g key) k 2 none none all old tt
              (art.search-delete tree k)),
      )
