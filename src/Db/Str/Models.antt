-- ===== src/Db/Str/Models.antt =====
-- The store of the strings refines a map from keys to values with an expiry.
use lazy_db.Prelude.{
  ℕ, ◌+◌, ◌≤◌, ◌<◌, ◌≡◌, refl, ap, true, false, ◌==◌, Option, none, some, List, Bytes, length,
  if◌then◌else◌, arith, Bool-cases, inl, inr, bytes_eq, bytes_eq→eq,
}
use mathlib.Core.Path.{subst}
use lazy_db.Prelude.Res.{ok}
use lazy_db.Prelude.Int.{ℤ}
use lazy_db.Ds.Art.{Art}
use lazy_db.Logfile.Entry.{LogEntry, s_delete}
use lazy_db.Logfile.Codec.{entry_bytes, IsEncodable, encode_entry_lem}
use lazy_db.Db.Store.{Config, LogSet, ValuePos, value_type_string, write_log_entry}
use lazy_db.Db.Store.Valid.{IsValid}
use lazy_db.Db.Store.Room.{CanStore, Stores}
use lazy_db.Db.Store.Write.{write_log_entry-Stores}
use lazy_db.Db.Index.{Value, send_discard, get_value, update_index_tree, encoded_size, index_size}
use lazy_db.Db.Index.Lookup.{
  timed_entry, Leads, Matches, reply, get_value_at-reply, Follows, Follows-trans, Matches-Follows,
  send_discard-Follows,
}
use lazy_db.Db.Str.{StrDb, finish_update, update_str, store_entry, get}

-- The abstract store.
abbrev pub Spec : Type 0
Spec = Bytes → Option (Bytes × ℤ)

abbrev pub update : Spec → Bytes → Option (Bytes × ℤ) → Spec
update f key x k = if bytes_eq key k then x else f k

pub encoded_size_lem : (e : LogEntry) → IsEncodable e → encoded_size e ≡ ok (length (entry_bytes e))
unfolding encoded_size
encoded_size_lem e able = rw (encode_entry_lem e able.fits, encoded_size)

-- A write is one step of the log files, and its position holds the entry.
pub Stores-Follows :
    {cfg : Config} {l l' : LogSet} {e : LogEntry} {p : ValuePos}
    → Stores cfg l e p l'
    → Follows cfg l l' 0
Stores-Follows s = record {
  valid = s.valid;
  keeps = s.keeps;
  chan = omega (arith, ap (λ (c : List (ℕ × ℕ)). length c) s.same_chan.chan);
  cap = s.same_chan.cap;
}

module _ ⦃art : Art Value⦄ where
  -- The database stands for the abstract store `f`.
  pub record Models (cfg : Config) (db : StrDb) (f : Spec) : Type 0 where
    pub valid : IsValid cfg db.log
    pub index : (k : Bytes) → Matches db.log k (art.search db.idx_tree k) (f k)

  -- A new database stands for the store without a value.
  pub new-Models :
      (cfg : Config) (l : LogSet)
      → IsValid cfg l
      → Models cfg (record { idx_tree = art.new; log = l }) (λ k. none)
  new-Models cfg l valid = record { valid = valid; index = λ k. rw (art.search-new k) tt }

  -- On a database that stands for an abstract store, `Get` answers the value that the store has
  -- for the key, `ErrKeyNotFound` where it has none or it expired before the clock's second,
  -- and leaves the database as it is.
  pub get-Models :
      (cfg : Config) (db : StrDb) (f : Spec) (key : Bytes) (ts : ℤ)
      → Models cfg db f
      → get key ts db ≡ (reply ts (f key), db)
  unfolding get get_value
  get-Models cfg db f key ts m =
      rw (get_value_at-reply ts db.log key (art.search db.idx_tree key) (f key) (m.index key))

  -- Room in the channel of the discard records.
  abbrev pub ChanRoom : StrDb → ℕ → Type 0
  ChanRoom db n = length db.log.discard.val_chan + n ≤ db.log.discard.chan_cap

  -- The index value that a write leaves.
  abbrev pub new_value : LogEntry → ValuePos → Value
  new_value e p = record {
    fid = p.fid;
    offset = p.offset;
    entry_size = length (entry_bytes e);
    expired_at = e.expired_at;
  }

  update_tree_runs :
      (tree : art.Tree) (e : LogEntry) (p : ValuePos) (l l' : LogSet)
      → IsEncodable e
      → (let put = art.insert tree e.key (new_value e p) in
          send_discard put.1 put.2 l ≡ (ok tt, l'))
      → update_index_tree value_type_string tree e p true l
        ≡ (ok (art.insert tree e.key (new_value e p)).0, l')
  unfolding update_index_tree index_size
  update_tree_runs tree e p l l' able sent = rw (encoded_size_lem e able) (rw sent)

  update_runs :
      (cfg : Config) (db : StrDb) (e : LogEntry) (p : ValuePos)
      → IsValid cfg db.log
      → IsEncodable e
      → ChanRoom db 1
      → (l' : LogSet) × (update_str e p db ≡ (
        ok tt,
        record { idx_tree = (art.insert db.idx_tree e.key (new_value e p)).0; log = l' },
      ))
        × Follows cfg db.log l' 1
  unfolding update_str finish_update
  update_runs cfg db e p valid able room =
      let put = art.insert db.idx_tree e.key (new_value e p) in
      let (l', sent, f) = send_discard-Follows cfg put.1 put.2 db.log valid (omega arith) in
      (l', ap (finish_update db) (update_tree_runs db.idx_tree e p db.log l' able sent), f)

  pub Matches-update :
      (cfg : Config) (l l' : LogSet) (tree tree' : art.Tree) (f : Spec) (key : Bytes) (n : ℕ)
      (o : Option Value) (x : Option (Bytes × ℤ))
      → Follows cfg l l' n
      → ((k : Bytes) → Matches l k (art.search tree k) (f k))
      → Matches l' key o x
      → ((k : Bytes) → art.search tree' k ≡ (if bytes_eq key k then o else art.search tree k))
      → (k : Bytes) → Matches l' k (art.search tree' k) (update f key x k)
  Matches-update cfg l l' tree tree' f key n o x fl old new at k =
      elim (Bool-cases (bytes_eq key k)) [
        | inl e ↦ rw (at k, e) (subst (λ j. Matches l' j o x) (bytes_eq→eq key k e) new)
        | inr e ↦ rw (at k, e) (Matches-Follows k (art.search tree k) (f k) fl (old k))
      ]

  -- Any entry that is no deletion is written and then indexed.
  pub stored-Models :
      (cfg : Config) (db : StrDb) (f : Spec) (e : LogEntry)
      → Models cfg db f
      → CanStore cfg db.log e
      → 0 < length e.key + length e.value
      → (e.stat == s_delete) ≡ false
      → ChanRoom db 1
      → (p : ValuePos) × (l1 : LogSet) × (db' : StrDb) × (write_log_entry cfg e db.log ≡ (ok p, l1))
        × (update_str e p (record db { log = l1 }) ≡ (ok tt, db'))
        × Models cfg db' (update f e.key (some (e.value, e.expired_at)))
  stored-Models cfg db f e m can some_byte plain room =
      let (p, l1, wrote, s) = write_log_entry-Stores cfg db.log e m.valid can in
      let db1 : StrDb = record db { log = l1 } in
      let f1 = Stores-Follows s in
      let (l2, updated, f2) =
        update_runs cfg db1 e p s.valid can.encodable (omega (arith, f1.chan, f1.cap)) in
      let tree = (art.insert db.idx_tree e.key (new_value e p)).0 in
      let leads : Leads l2 (new_value e p) e.value e.expired_at = record {
        e = e;
        held = f2.keeps p.fid p.offset e s.held;
        expiry = refl;
        encodable = can.encodable;
        some_byte = some_byte;
        plain = plain;
        has_value = refl;
        has_expiry = refl;
      } in
      (
        p,
        l1,
        record { idx_tree = tree; log = l2 },
        wrote,
        updated,
        record {
          valid = f2.valid;
          index =
              Matches-update cfg db.log l2 db.idx_tree tree f e.key 1 (some (new_value e p))
                (some (e.value, e.expired_at)) (Follows-trans f1 f2) m.index leads
                (art.search-insert db.idx_tree e.key (new_value e p));
        },
      )

  -- Writing and indexing an entry with a key, a value and an expiry on a database that stands
  -- for an abstract store succeeds, and the new database stands for the store updated at that
  -- key; the entry can be stored, its key or value is not empty, and the discard channel has
  -- room for one value.
  pub store_entry-Models :
      (cfg : Config) (db : StrDb) (f : Spec) (key v : Bytes) (t : ℤ)
      → Models cfg db f
      → CanStore cfg db.log (timed_entry key v t)
      → 0 < length key + length v
      → ChanRoom db 1
      → (db' : StrDb) × (store_entry cfg (timed_entry key v t) db ≡ (ok tt, db'))
        × Models cfg db' (update f key (some (v, t)))
  unfolding store_entry
  store_entry-Models cfg db f key v t m can some_byte room =
      let (p, l1, db', wrote, updated, m') =
        stored-Models cfg db f (timed_entry key v t) m can some_byte refl room in
      (db', rw wrote updated, m')
