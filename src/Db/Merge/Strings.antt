-- ===== src/Db/Merge/Strings.antt =====
-- `mergeStr` as a whole, on an entry of an archived file.
use lazy_db.Prelude.{
  ℕ, ◌+◌, ◌<◌, ◌≡◌, ◌≢◌, refl, sym, ap, true, false, some, Bytes, length, ◌==◌, ◌&&◌, arith,
  Bool-cases, Option-cases, inl, inr,
}
use mathlib.Core.Path.{subst}
use lazy_db.Prelude.Res.{ok}
use lazy_db.Std.GoMap.{nat_eq}
use lazy_db.Ds.Art.{Art}
use lazy_db.Ds.ConcurrentMap.Laws.{view}
use lazy_db.Logfile.{LogFile}
use lazy_db.Logfile.Entry.{LogEntry}
use lazy_db.Logfile.Codec.{entry_bytes}
use lazy_db.Logfile.ReadBack.{stored}
use lazy_db.Db.Store.{Config}
use lazy_db.Db.Store.Valid.{Sealed-refl}
use lazy_db.Db.Store.Room.{CanStore}
use lazy_db.Db.Store.Write.{write_log_entry-Stores}
use lazy_db.Db.Index.{Value, index_size}
use lazy_db.Db.Index.Lookup.{Leads, Matches}
use lazy_db.Db.Str.{StrDb, finish_update}
use lazy_db.Db.Str.Models.{Spec, Models, encoded_size_lem, Stores-Follows, Matches-update}
use lazy_db.Db.Trees.Writes.{indexed}
use lazy_db.Db.Merge.{merge_str}
use lazy_db.Db.Merge.Entries.{
  Merged, newest-other, Live, rewrite_miss, rewrite_hit, at_entry, update-same, hit_left,
}

module _ ⦃art : Art Value⦄ where
  hit-Merged :
      (cfg : Config) (db : StrDb) (f : Spec) (fid offset : ℕ) (lf : LogFile) (e : LogEntry)
      (val : Value)
      → Models cfg db f
      → view db.log.archived fid ≡ some lf
      → CanStore cfg db.log (stored e)
      → 0 < length e.key + length e.value
      → Live db f fid offset e
      → art.search db.idx_tree e.key ≡ some val
      → (val.fid == fid && val.offset == offset) ≡ true
      → (db' : StrDb) × (merge_str cfg fid offset (stored e) db ≡ (ok tt, db'))
        × Merged cfg db db' f fid offset e
  unfolding merge_str finish_update index_size
  hit-Merged cfg db f fid offset lf e val m sealed can some_byte live there at =
      let (p, l1, wrote, s) = write_log_entry-Stores cfg db.log (stored e) m.valid can in
      let (same_fid, same_offset) = at_entry val fid offset at in
      let (plain, now) = live val there same_fid same_offset in
      let size = length (entry_bytes (stored e)) in
      let new = indexed (stored e) p size in
      let tree = (art.insert db.idx_tree e.key new).0 in
      let x = some (e.value, e.expired_at) in
      let leads : Leads l1 new e.value e.expired_at = record {
        e = stored e;
        held = s.held;
        expiry = refl;
        encodable = can.encodable;
        some_byte = some_byte;
        plain = plain;
        has_value = refl;
        has_expiry = refl;
      } in
      let f1 = Stores-Follows s in
      let index =
        Matches-update cfg db.log l1 db.idx_tree tree f e.key 0 (some new) x f1 m.index leads
          (art.search-insert db.idx_tree e.key new) in
      (
        record { idx_tree = tree; log = l1 },
        ap (finish_update db) (
            rewrite_hit cfg db.idx_tree fid offset (stored e) db.log l1 val p there at wrote
              (encoded_size_lem (stored e) can.encodable)),
        record {
          models = record {
            valid = s.valid;
            index = λ k.
                subst (λ o. Matches l1 k (art.search tree k) o) (update-same f e k now) (index k);
          };
          seals = s.seals;
          left = λ k w h at_fid.
              hit_left db.idx_tree e.key new fid offset k w (newest-other fid lf s sealed) h at_fid;
        },
      )

  away_from :
      (val : Value) (fid offset : ℕ)
      → (val.fid == fid && val.offset == offset) ≡ false
      → val.fid ≡ fid
      → val.offset ≢ offset
  away_from val fid offset h at o = absurd (ground (arith, h, at, o))

  miss-Merged :
      (cfg : Config) (db : StrDb) (f : Spec) (fid offset : ℕ) (e : LogEntry)
      → Models cfg db f
      → ((val : Value)
          → art.search db.idx_tree e.key ≡ some val
          → (val.fid == fid && val.offset == offset) ≡ false)
      → (db' : StrDb) × (merge_str cfg fid offset (stored e) db ≡ (ok tt, db'))
        × Merged cfg db db' f fid offset e
  unfolding merge_str finish_update
  miss-Merged cfg db f fid offset e m h = (
    db,
    ap (finish_update db) (rewrite_miss cfg db.idx_tree fid offset (stored e) db.log h),
    record {
      models = m;
      seals = Sealed-refl db.log;
      left = λ k w there at. (
        there,
        λ same.
            away_from w fid offset
              (h w (subst (λ (j : Bytes). art.search db.idx_tree j ≡ some w) (sym same) there)) at,
      );
    },
  )

  -- `mergeStr` of an entry of an archived file succeeds, and the new database stands for the
  -- same abstract store.
  pub merge_str-Merged :
      (cfg : Config) (db : StrDb) (f : Spec) (fid offset : ℕ) (lf : LogFile) (e : LogEntry)
      → Models cfg db f
      → view db.log.archived fid ≡ some lf
      → CanStore cfg db.log (stored e)
      → 0 < length e.key + length e.value
      → Live db f fid offset e
      → (db' : StrDb) × (merge_str cfg fid offset (stored e) db ≡ (ok tt, db'))
        × Merged cfg db db' f fid offset e
  merge_str-Merged cfg db f fid offset lf e m sealed can some_byte live =
      elim (Option-cases (art.search db.idx_tree e.key)) [
        | inl absent ↦
            miss-Merged cfg db f fid offset e m (λ w h. absurd (ground (arith, absent, h)))
        | inr (val, there) ↦ elim (Bool-cases (val.fid == fid && val.offset == offset)) [
          | inl at ↦ hit-Merged cfg db f fid offset lf e val m sealed can some_byte live there at
          | inr away ↦ miss-Merged cfg db f fid offset e m (λ w h.
              let same : val ≡ w = ground (arith, there, h) in
              subst (λ (v : Value). (v.fid == fid && v.offset == offset) ≡ false) same away)
        ]
      ]
