-- ===== src/Db/Str/Deletes.antt =====
-- `GetDel` and `Delete` of str.go against the abstract store.
use lazy_db.Prelude.{◌≡◌, none, Bytes, length, arith}
use lazy_db.Prelude.Res.{ok}
use lazy_db.Ds.Art.{Art}
use lazy_db.Logfile.Codec.{entry_bytes}
use lazy_db.Db.Store.{Config}
use lazy_db.Db.Store.Room.{CanStore}
use lazy_db.Db.Store.Write.{write_log_entry-Stores}
use lazy_db.Db.Index.{Value, delete_entry}
use lazy_db.Db.Index.Lookup.{Follows-trans, send_value-Follows, send_discard-Follows}
use lazy_db.Db.Str.{StrDb, delete_key}
use lazy_db.Db.Str.Models.{
  Spec, update, encoded_size_lem, Stores-Follows, Models, ChanRoom, Matches-update,
}

module _ ⦃art : Art Value⦄ where
  -- The deletion that `Delete` and `GetDel` make succeeds on a database that stands for an
  -- abstract store, and the new database stands for the store without the key; the entry of the
  -- deletion can be stored and the discard channel has room for two values.
  pub delete_key-Models :
      (cfg : Config) (db : StrDb) (f : Spec) (key : Bytes)
      → Models cfg db f
      → CanStore cfg db.log (delete_entry key)
      → ChanRoom db 2
      → (db' : StrDb) × (delete_key cfg key db ≡ (ok tt, db')) × Models cfg db' (update f key none)
  unfolding delete_key
  delete_key-Models cfg db f key m can room =
      let e = delete_entry key in
      let (p, l1, wrote, s) = write_log_entry-Stores cfg db.log e m.valid can in
      let f1 = Stores-Follows s in
      let del = art.delete db.idx_tree key in
      let (l2, sent, f2) =
        send_discard-Follows cfg del.1 del.2 l1 s.valid (omega (arith, f1.chan, f1.cap)) in
      let f12 = Follows-trans f1 f2 in
      let (l3, sent_size, f3) =
        send_value-Follows cfg p.fid (length (entry_bytes e)) l2 f2.valid
          (omega (arith, f12.chan, f12.cap)) in
      (
        record { idx_tree = del.0; log = l3 },
        rw wrote (rw sent (rw (encoded_size_lem e can.encodable) (rw sent_size))),
        record {
          valid = f3.valid;
          index =
              Matches-update cfg db.log l3 db.idx_tree del.0 f key 2 none none
                (Follows-trans f12 f3) m.index tt (art.search-delete db.idx_tree key);
        },
      )
