-- ===== src/Tests/Merges.antt =====
-- An archived file with one entry that the index leads to, and an empty active file.
use lazy_db.Prelude.{
  ℕ, ◌≡◌, refl, sym, ap, inl, inr, none, some, [], ◌∷◌, ◌++◌, Bytes, ◌==◌, replicate, arith,
  if◌then◌else◌, Bool-cases, bytes_eq, bytes_eq_refl, bytes_eq→eq,
}
use mathlib.Core.Path.{subst}
use lazy_db.Prelude.Res.{ok}
use lazy_db.Prelude.Int.{pos, negsuc, word64, signed64}
use lazy_db.Std.Endian.{put_u32}
use lazy_db.Std.Varint.{put_varint, put_uvarint, put_groups, zigzag}
use lazy_db.Io.{file_io}
use lazy_db.Std.GoMap
use lazy_db.Std.GoMap.{nat_eq}
use lazy_db.Ds.ConcurrentMap.{ConcurrentMap, new_concurrent_map, simple_sharding}
use lazy_db.Ds.ConcurrentMap.Laws
use lazy_db.Ds.ConcurrentMap.Laws.{view, get_lem, new-view, put-view}
use lazy_db.Logfile.{LogFile}
use lazy_db.Logfile.Entry.{LogEntry}
use lazy_db.Logfile.Codec.{fields, IsEncodable}
use lazy_db.Logfile.Limits.{small-IsEncodable}
use lazy_db.Logfile.ReadBack.{stored}
use lazy_db.Db.Store.{LogSet, contents}
use lazy_db.Db.Store.Valid.{Ready, Holds, find_archived}
use lazy_db.Db.Store.Room.{CanStore}
use lazy_db.Db.Index.{Value, plain_entry}
use lazy_db.Db.Index.Lookup.{Leads, Matches, reply}
use lazy_db.Db.Str.{StrDb, get, get_range}
use lazy_db.Db.Str.Commands.{shown}
use lazy_db.Db.Str.Ranges.{part_of, get_range-Models}
use lazy_db.Db.Str.Models.{Spec, update, Models}
use lazy_db.Db.Recovery.Replay.{log_bytes}
use lazy_db.Db.Merge.{merge_file, merge_str, str_log, with_str_log}
use lazy_db.Db.Merge.Scan.{Covered}
use lazy_db.Db.Merge.Answers.{merge_file-answers}
use lazy_db.Tests.{cfg, discard0, key0, value0, trees, spec0}

abbrev entry0 : LogEntry
entry0 = plain_entry key0 value0

entry0-IsEncodable : IsEncodable entry0
entry0-IsEncodable =
    small-IsEncodable entry0 refl (omega arith) 0 refl (omega arith) (omega arith) (omega arith)

abbrev old_file : Bytes
old_file = log_bytes (entry0 ∷ []) ++ replicate 88 0

abbrev pub old : LogFile
old = record { fid = 1; offset = 12; io = file_io }

abbrev pub new : LogFile
new = record { fid = 2; offset = 0; io = file_io }

abbrev map0 : ConcurrentMap ℕ LogFile
map0 = new_concurrent_map (pos 32) simple_sharding

map0-views : Laws.IsValid map0 × ((k : ℕ) → view map0 k ≡ none)
map0-views =
    let (valid, empty) = new-view {V = LogFile} (pos 32) simple_sharding (inl (omega arith)) in
    (valid, λ k. let e = get_lem map0 k valid in let n = empty k in cc)

-- The map with the old file.
pub archived :
    (m : ConcurrentMap ℕ LogFile) × Laws.IsValid m
    × ((k : ℕ) → view m k ≡ (if 1 == k then some old else none))
archived =
    let (valid, empty) = map0-views in
    let (m, run, (valid', views)) = put-view map0 1 old valid in
    (m, valid', λ k. let v = views k in let n = empty k in ground (arith, v, n))

abbrev pub log2 : LogSet
log2 = record {
  disk = (1, old_file) ∷ (2, replicate 100 0) ∷ [];
  active = some new;
  archived = archived.0;
  fids = 1 ∷ 2 ∷ [];
  discard = discard0;
}

pub log2-Ready : Ready cfg log2 new
unfolding contents GoMap.lookup
log2-Ready = record {
  is_active = refl;
  same_io = refl;
  long = omega arith;
  map_valid = archived.1;
  own_fid = λ k a h. let v = archived.2 k in ground (arith, v, h);
  older = λ k a h. let v = archived.2 k in ground (arith, v, h);
}

archived_old : view log2.archived 1 ≡ some old
archived_old = archived.2 1

old_contents : contents log2.disk 1 ≡ old_file
unfolding contents GoMap.lookup
old_contents = refl

entry0-Holds : Holds log2 1 0 entry0
unfolding put_u32 fields put_varint put_uvarint put_groups zigzag word64 signed64
entry0-Holds = record {
  lf = old;
  is_found = find_archived cfg log2 new log2-Ready 1 old archived_old;
  named = refl;
  stands = ([], replicate 88 0, old_contents, refl);
  readable = rw old_contents (omega arith, omega arith);
  closed = λ a h at. absurd (ground (arith, h, at));
}

abbrev value : Value
value = record { fid = 1; offset = 0; entry_size = 12; expired_at = pos 0 }

abbrev pub db2 : StrDb ⦃art = trees⦄
db2 = record { idx_tree = (trees.insert trees.new key0 value).0; log = log2 }

abbrev pub spec2 : Spec
spec2 = update spec0 key0 (some (value0, pos 0))

value-Leads : Leads log2 value value0 (pos 0)
value-Leads = record {
  e = entry0;
  held = entry0-Holds;
  expiry = refl;
  encodable = entry0-IsEncodable;
  some_byte = omega arith;
  plain = refl;
  has_value = refl;
  has_expiry = refl;
}

pub db2-Models : Models ⦃art = trees⦄ cfg db2 spec2
db2-Models = record {
  valid = inr (new, log2-Ready);
  index = λ k. elim (Bool-cases (bytes_eq key0 k)) [
    | inl e ↦
        rw (trees.search-insert trees.new key0 value k, e)
          (subst (λ (j : Bytes). Matches log2 j (some value) (some (value0, pos 0)))
            (bytes_eq→eq key0 k e) value-Leads)
    | inr e ↦ rw (trees.search-insert trees.new key0 value k, e, trees.search-new k) tt
  ];
}

pub log2-CanStore : (e : LogEntry) → IsEncodable e → CanStore cfg log2 e
log2-CanStore e able = record {
  usable = record { positive = omega arith; supported = λ h. cc };
  encodable = able;
  room = inl (ground arith);
  slots = omega arith;
  next_fid = λ lf h. ground (arith, h);
}

entry0-CanStore : CanStore cfg log2 (stored entry0)
unfolding put_u32 fields put_varint put_uvarint put_groups zigzag word64 signed64
entry0-CanStore = log2-CanStore (stored entry0) (
    small-IsEncodable (stored entry0) refl (omega arith) 0 refl (omega arith) (omega arith)
      (omega arith))

value-Covered :
    (k : Bytes) (val : Value)
    → trees.search db2.idx_tree k ≡ some val
    → val.fid ≡ 1
    → Covered spec2 k val 0 (entry0 ∷ [])
value-Covered k val there at =
    let law = trees.search-insert trees.new key0 value k in
    let empty = trees.search-new k in
    elim (Bool-cases (bytes_eq key0 k)) [
      | inl e ↦
          let same : k ≡ key0 = sym (bytes_eq→eq key0 k e) in
          let is : value ≡ val = ground (arith, law, e, there) in
          inl (ap (λ (v : Value). v.offset) (sym is), sym same, refl, rw e refl)
      | inr e ↦ absurd (ground (arith, law, e, empty, there))
    ]

merge_file-answers_example :
    (db' : StrDb ⦃art = trees⦄) × (merge_file
        (str_log ⦃art = trees⦄)
        (with_str_log ⦃art = trees⦄)
        (merge_str ⦃art = trees⦄ cfg)
        (λ o. pos 5)
        1
        old
        db2
      ≡ (ok tt, db'))
    × (get ⦃art = trees⦄ key0 (pos 6) db' ≡ (reply (pos 6) (spec2 key0), db'))
    × (view db'.log.archived 1 ≡ none)
    × (GoMap.lookup 1 db'.log.disk ≡ none)
merge_file-answers_example =
    merge_file-answers ⦃art = trees⦄ cfg (λ o. pos 5) old spec2 db2 (entry0 ∷ []) 88 key0 (pos 6)
      db2-Models archived_old old_contents tt (entry0-IsEncodable, omega arith, tt) (omega arith)
      value-Covered (entry0-CanStore, tt) (λ o. refl)

get_range-Models_example :
    get_range ⦃art = trees⦄ key0 (pos 0) (negsuc 0) (pos 5) db2
    ≡ (part_of (shown (pos 5) (spec2 key0)) 0 0, db2)
get_range-Models_example =
    get_range-Models ⦃art = trees⦄ cfg db2 spec2 key0 (pos 0) (negsuc 0) (pos 5) 0 0 db2-Models
      (rw (bytes_eq_refl key0) (refl, refl, omega arith, omega arith))
