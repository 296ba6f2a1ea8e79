-- ===== src/Db/ZSets/Models.antt =====
-- A round of `ZAdd` against a map from keys and members to scores, and the skip list beside it.
use lazy_db.Prelude.{
  ◌+◌, ◌≤◌, ◌<◌, ◌≡◌, refl, sym, ap, ◌∙◌, true, false, Option, none, some, Bytes, length, arith,
  bytes_eq, bytes_eq_iff, ◌==◌,
}
use mathlib.Core.Path.{subst}
use lazy_db.Prelude.Res.{ok}
use lazy_db.Prelude.Exec.{bind-ok}
use lazy_db.Prelude.Int.{ℤ, pos}
use lazy_db.Std.Float.{Scores}
use lazy_db.Std.SkipList.{SkipList}
use lazy_db.Std.GoMap
use lazy_db.Std.GoMap.{GoMap, bytes_eq_keys, lookup-insert}
use lazy_db.Ds.Art.{Art}
use lazy_db.Logfile.Entry.{LogEntry, s_delete}
use lazy_db.Db.Store.{Config, LogSet, ValuePos, write_log_entry}
use lazy_db.Db.Store.Room.{CanStore, Stores}
use lazy_db.Db.Store.Write.{write_log_entry-Stores}
use lazy_db.Db.Index.{Value, plain_entry, get_value, get_value_at, update_index_tree, index_size}
use lazy_db.Db.Index.Lookup.{
  Leads, Matches, reply, get_value_at-reply, Follows-trans, Matches-Follows, send_discard-Follows,
}
use lazy_db.Db.Keys.RoundTrip.{key_bytes, IsShort, encode_key_lem}
use lazy_db.Db.Keys.{encode_key}
use lazy_db.Db.Str.Models.{update, Stores-Follows, Matches-update}
use lazy_db.Db.Trees.{TreeDb, tree_of, finish_update}
use lazy_db.Db.Trees.Models.{Specs, update_at, TreesModel, TreeMatches, exchange}
use lazy_db.Db.Trees.Writes.{indexed}
use lazy_db.Db.Hash.Models.{Hashes, set_at, HashModels, named_update}
use lazy_db.Db.Nodes.{Node, byte_to_float64}
use lazy_db.Db.ZSets.{
  ZDb, skl_of, on_skl, node, read_score, drop_old, update_z, add_pair, score_of, find_score,
}

module _ ⦃art : Art Value⦄ (fl : Scores) (sl : SkipList (Node fl)) where
  -- `updateIndexTree` with a discard, behind the write.
  update_z-Models :
      (cfg : Config) (b : TreeDb) (g : Specs) (key : Bytes) (e : LogEntry) (p : ValuePos)
      (l1 : LogSet) (tree : art.Tree)
      → tree_of b key ≡ some tree
      → TreesModel cfg b g
      → CanStore cfg b.log e
      → Stores cfg b.log e p l1
      → 0 < length e.key + length e.value
      → (e.stat == s_delete) ≡ false
      → length b.log.discard.val_chan + 1 ≤ b.log.discard.chan_cap
      → (b' : TreeDb) × (update_z fl sl key e p (record b { log = l1 }) ≡ (ok tt, b'))
        × TreesModel cfg b' (update_at g key e.key (some (e.value, e.expired_at)))
        × ((tree' : art.Tree) × (tree_of b' key ≡ some tree'))
  unfolding update_z finish_update update_index_tree index_size
  update_z-Models cfg b g key e p l1 tree there m can s some_byte plain room =
      let f1 = Stores-Follows s in
      let val = indexed e p p.entry_size in
      let put = art.insert tree e.key val in
      let (l2, sent, f2) =
        send_discard-Follows cfg put.1 put.2 l1 s.valid (omega (arith, f1.chan, f1.cap)) in
      let x : Option (Bytes × ℤ) = some (e.value, e.expired_at) in
      let leads : Leads l2 val e.value e.expired_at = record {
        e = e;
        held = f2.keeps p.fid p.offset e s.held;
        expiry = refl;
        encodable = can.encodable;
        some_byte = some_byte;
        plain = plain;
        has_value = refl;
        has_expiry = refl;
      } in
      let old : TreeMatches b.log (some tree) (g key) =
        subst (λ o. TreeMatches b.log o (g key)) there (m.index key) in
      let all = Follows-trans f1 f2 in
      (
        record { trees = GoMap.insert key put.0 b.trees; log = l2 },
        rw (there, update_z) (rw sent),
        exchange cfg b l2 g key put.0 (update (g key) e.key x) 1 m all (
            Matches-update cfg b.log l2 tree put.0 (g key) e.key 1 (some val) x all old leads
              (art.search-insert tree e.key val)),
        (put.0, ground (arith, lookup-insert key key put.0 b.trees, bytes_eq_iff key key)),
      )

  -- What becomes of the skip list where the member had a score: its node goes.
  abbrev pub OldGone : Bytes → Option (Bytes × ℤ) → sl.SList → sl.SList → Type 0
  OldGone member none skl skl1 = skl1 ≡ skl
  OldGone member (some (w, t)) skl skl1 =
      (s : fl.F) × (t ≡ pos 0)
      × (byte_to_float64 fl w ≡ ok s)
      × (skl1 ≡ sl.delete skl (node fl sl s member))

  on_skl_lem :
      (db : ZDb fl sl) (key : Bytes) (h : sl.SList → sl.SList) (skl : sl.SList)
      → skl_of fl sl db key ≡ some skl
      → on_skl fl sl key h db ≡ (ok tt, record db { skls = GoMap.insert key (h skl) db.skls })
  unfolding on_skl
  on_skl_lem db key h skl there = rw (there, on_skl)

  skl_of-insert :
      (key : Bytes) (skl : sl.SList) (m : GoMap Bytes sl.SList)
      → GoMap.lookup key (GoMap.insert key skl m) ≡ some skl
  skl_of-insert key skl m = ground (arith, lookup-insert key key skl m, bytes_eq_iff key key)

  -- Which skip lists `drop_old` leaves.
  abbrev Drops : ZDb fl sl → Bytes → Bytes → Bytes → ℤ → sl.SList → Type 0
  Drops db key k member ts skl1 =
      (m : GoMap Bytes sl.SList) × (drop_old fl sl key k member ts db
        ≡ (ok tt, record db { skls = m }))
      × (GoMap.lookup key m ≡ some skl1)

  drop_old_lem :
      (db : ZDb fl sl) (key k member : Bytes) (ts : ℤ) (tree : art.Tree) (skl skl1 : sl.SList)
      (o : Option Value) (x : Option (Bytes × ℤ))
      → tree_of db.base key ≡ some tree
      → art.search tree k ≡ o
      → skl_of fl sl db key ≡ some skl
      → Matches db.base.log k o x
      → OldGone member x skl skl1
      → Drops db key k member ts skl1
  unfolding drop_old read_score get_value
  drop_old_lem db key k member ts tree skl skl1 none none there found has m gone =
      (db.skls, rw (there, drop_old) (rw found), has ∙ ap some (sym gone))
  drop_old_lem db key k member ts tree skl skl1 none (some x) there found has m gone = absurd m
  drop_old_lem db key k member ts tree skl skl1 (some val) none there found has m gone = absurd m
  drop_old_lem db key k member ts tree skl skl1 (some val) (some (w, t)) there found has m
        (s, time, reads, gone) =
      let read : get_value_at ts db.base.log (some val) ≡ ok (some w) =
        get_value_at-reply ts db.base.log k (some val) (some (w, t)) m
        ∙ ap (λ (u : ℤ). reply ts (some (w, u))) time in
      let scored : read_score fl sl key k ts db ≡ (ok (some w), db) =
        rw (there, read_score) (rw (found) (ap (λ r. (r, db)) read)) in
      (
        GoMap.insert key (sl.delete skl (node fl sl s member)) db.skls,
        rw (there, drop_old)
            (rw (found, drop_old)
              (bind-ok (read_score fl sl key k ts) _ db db (some w) scored
                ∙ rw reads (on_skl_lem db key (λ l. sl.delete l (node fl sl s member)) skl has))),
        skl_of-insert key (sl.delete skl (node fl sl s member)) db.skls ∙ ap some (sym gone),
      )

  -- `ZScore` on trees that stand for the scores of `f`, by the bytes that were stored.
  find_score_lem :
      (cfg : Config) (db : ZDb fl sl) (f : Hashes) (key member : Bytes) (ts : ℤ) (tree : art.Tree)
      → HashModels cfg db.base f
      → tree_of db.base key ≡ some tree
      → IsShort key
      → IsShort member
      → find_score fl sl key member ts db ≡ (score_of fl sl (reply ts (f key member)), db)
  unfolding find_score get_value
  find_score_lem cfg db f key member ts tree m there hk hm =
      let k = key_bytes key member in
      let h : TreeMatches db.base.log (some tree) (m.raw key) =
        subst (λ o. TreeMatches db.base.log o (m.raw key)) there (m.stored.index key) in
      let read : get_value_at ts db.base.log (art.search tree k) ≡ reply ts (f key member) =
        get_value_at-reply ts db.base.log k (art.search tree k) (m.raw key k) (h k)
        ∙ ap (λ x. reply ts x) (m.named key member hk hm) in
      rw (there, find_score)
        (rw (encode_key_lem key member hk hm) (ap (λ r. (score_of fl sl r, db)) read))

  -- The database after the write and the removal of the old node.
  abbrev between : ZDb fl sl → LogSet → GoMap Bytes sl.SList → ZDb fl sl
  between db l1 m = record db { base = record db.base { log = l1 }; skls = m }

  add_pair_runs :
      (cfg : Config) (db : ZDb fl sl) (key score member k : Bytes) (ts : ℤ) (p : ValuePos)
      (l1 : LogSet) (m : GoMap Bytes sl.SList) (b' : TreeDb) (s : fl.F) (skl1 : sl.SList)
      → encode_key key member ≡ ok k
      → write_log_entry cfg (plain_entry k score) db.base.log ≡ (ok p, l1)
      → drop_old fl sl key k member ts (between db l1 db.skls) ≡ (ok tt, between db l1 m)
      → update_z fl sl key (plain_entry k score) p (record db.base { log = l1 }) ≡ (ok tt, b')
      → byte_to_float64 fl score ≡ ok s
      → GoMap.lookup key m ≡ some skl1
      → add_pair fl sl cfg key score member ts db ≡ (
        ok tt,
        record db { base = b'; skls = GoMap.insert key (sl.insert skl1 (node fl sl s member)) m },
      )
  unfolding add_pair
  add_pair_runs cfg db key score member k ts p l1 m b' s skl1 named wrote dropped updated reads
        has =
      rw named (
        rw wrote (
          bind-ok (drop_old fl sl key k member ts) _ (between db l1 db.skls) (between db l1 m) tt
            dropped
          ∙ rw updated (
              rw reads (
                on_skl_lem (record db { base = b'; skls = m }) key
                  (λ l. sl.insert l (node fl sl s member)) skl1 has))))

  new_score :
      (f : Hashes) (key score member : Bytes) (ts : ℤ) (s : fl.F)
      → byte_to_float64 fl score ≡ ok s
      → score_of fl sl (reply ts (set_at f key member (some (score, pos 0)) key member)) ≡ ok s
  unfolding score_of
  new_score f key score member ts s reads =
      let k : bytes_eq key key ≡ true = ground (arith, bytes_eq_iff key key) in
      let m : bytes_eq member member ≡ true = ground (arith, bytes_eq_iff member member) in
      rw (k, m) reads

  -- A round of `ZAdd` on trees that stand for the scores of abstract sorted sets, with a score
  -- whose bytes read as the number s, succeeds: the new trees stand for the sets with those
  -- bytes at that member, the skip list of the key is the old one without the node of the
  -- member's old score, if it had one, and with the node of s, and the lookup of `ZScore` for
  -- the member reads s; the key has a tree and a skip list, an old score has no expiry and can
  -- be read, key and member are shorter than 2 ^ 34 bytes, the entry can be stored and its key
  -- or value is not empty, and the discard channel has room for one value.
  pub add_pair-Models :
      (cfg : Config) (db : ZDb fl sl) (f : Hashes) (key score member : Bytes) (ts : ℤ)
      (tree : art.Tree) (skl skl1 : sl.SList) (s : fl.F)
      → HashModels cfg db.base f
      → tree_of db.base key ≡ some tree
      → skl_of fl sl db key ≡ some skl
      → IsShort key
      → IsShort member
      → CanStore cfg db.base.log (plain_entry (key_bytes key member) score)
      → 0 < length (key_bytes key member) + length score
      → length db.base.log.discard.val_chan + 1 ≤ db.base.log.discard.chan_cap
      → byte_to_float64 fl score ≡ ok s
      → OldGone member (f key member) skl skl1
      → (db' : ZDb fl sl) × (add_pair fl sl cfg key score member ts db ≡ (ok tt, db'))
        × HashModels cfg db'.base (set_at f key member (some (score, pos 0)))
        × (skl_of fl sl db' key ≡ some (sl.insert skl1 (node fl sl s member)))
        × (find_score fl sl key member ts db' ≡ (ok s, db'))
  add_pair-Models cfg db f key score member ts tree skl skl1 s m there has hk hm can some_byte room
        reads gone =
      let k = key_bytes key member in
      let e = plain_entry k score in
      let (p, l1, wrote, st) = write_log_entry-Stores cfg db.base.log e m.stored.valid can in
      let f1 = Stores-Follows st in
      let h : TreeMatches db.base.log (some tree) (m.raw key) =
        subst (λ o. TreeMatches db.base.log o (m.raw key)) there (m.stored.index key) in
      let old = Matches-Follows k (art.search tree k) (m.raw key k) f1 (h k) in
      let gone' : OldGone member (m.raw key k) skl skl1 =
        subst (λ x. OldGone member x skl skl1) (sym (m.named key member hk hm)) gone in
      let (mm, dropped, found) =
        drop_old_lem (between db l1 db.skls) key k member ts tree skl skl1 (art.search tree k)
          (m.raw key k) there refl has old gone' in
      let (b', updated, models, (tree', there')) =
        update_z-Models cfg db.base m.raw key e p l1 tree there m.stored can st some_byte refl
          room in
      let db' : ZDb fl sl = record db {
        base = b';
        skls = GoMap.insert key (sl.insert skl1 (node fl sl s member)) mm;
      } in
      let hashes : HashModels cfg b' (set_at f key member (some (score, pos 0))) = record {
        raw = update_at m.raw key k (some (score, pos 0));
        stored = models;
        named = named_update m.raw f key member (some (score, pos 0)) hk hm m.named;
      } in
      (
        db',
        add_pair_runs cfg db key score member k ts p l1 mm b' s skl1
            (encode_key_lem key member hk hm) wrote dropped updated reads found,
        hashes,
        skl_of-insert key (sl.insert skl1 (node fl sl s member)) mm,
        find_score_lem cfg db' (set_at f key member (some (score, pos 0))) key member ts tree'
              hashes there' hk hm
            ∙ ap (λ r. (r, db')) (new_score f key score member ts s reads),
      )
