-- ===== src/Db/Recovery/Rebuild.antt =====
-- What the rebuilt index answers: the state that the entries of the log lead to.
use lazy_db.Prelude.{
  ℕ, ◌+◌, ◌≤◌, ◌<◌, ◌≡◌, refl, sym, ap, ◌∙◌, false, Option, none, some, List, [], ◌∷◌, ◌++◌, Bytes,
  length, ◌==◌, if◌then◌else◌, replicate, length-append, length-replicate, append_assoc, arith,
  Bool-cases, inl, inr, bytes_eq,
}
use mathlib.Core.Path.{subst}
use lazy_db.Prelude.Res.{ok}
use lazy_db.Prelude.Int.{ℤ, pos}
use lazy_db.Std.OsFile.{StandsAt}
use lazy_db.Std.Sort.{sort}
use lazy_db.Ds.Art.{Art}
use lazy_db.Logfile.{LogFile}
use lazy_db.Logfile.Entry.{LogEntry, s_delete, max_header_size}
use lazy_db.Logfile.Codec.{entry_bytes, IsEncodable, length-entry_bytes}
use lazy_db.Logfile.ReadBack.{read_log_entry-StandsAt}
use lazy_db.Db.Store.{LogSet, contents, find_log_file, read_entry}
use lazy_db.Db.Index.{Value, has_expired, get_value_at, get_value}
use lazy_db.Db.Index.Lookup.{reply, check_entry-stored}
use lazy_db.Db.Str.Models.{Spec, update}
use lazy_db.Db.Recovery.{build_loop, build_fids, build_index, file_of, set_offset}
use lazy_db.Db.Recovery.Replay.{
  log_bytes, AllWritten, Reads, can_read, apply, replay, build_loop-replay,
}

-- What an entry does to the abstract store.
abbrev pub effect : Spec → LogEntry → Spec
effect f e = update f e.key (if e.stat == s_delete then none else some (e.value, e.expired_at))

abbrev pub spec_after : Spec → List LogEntry → Spec
spec_after f [] = f
spec_after f (e ∷ es) = spec_after (effect f e) es

-- An index value leads to an entry of the file with value `v` and expiry `t`.
record Leads (file : Bytes) (fid : ℕ) (val : Value) (v : Bytes) (t : ℤ) : Type 0 where
  e : LogEntry
  named : val.fid ≡ fid
  lasting : val.expired_at ≡ pos 0
  stands : StandsAt file val.offset (entry_bytes e)
  header_inside : val.offset + max_header_size < length file
  inside : val.offset + length (entry_bytes e) < length file
  able : IsEncodable e
  some_byte : 0 < length e.key + length e.value
  plain : (e.stat == s_delete) ≡ false
  has_value : e.value ≡ v
  has_expiry : e.expired_at ≡ t

abbrev Found : Bytes → ℕ → Option Value → Option (Bytes × ℤ) → Type 0
Found file fid none none = Unit {0}
Found file fid none (some x) = ⊥
Found file fid (some val) none = ⊥
Found file fid (some val) (some (v, t)) = Leads file fid val v t

module _ (l : LogSet) (lf : LogFile) (r : Reads lf.io)
    (found : find_log_file l lf.fid ≡ ok lf) where
  get_value_at-Found :
      (ts : ℤ) (o : Option Value) (x : Option (Bytes × ℤ))
      → Found (contents l.disk lf.fid) lf.fid o x
      → get_value_at ts l o ≡ reply ts x
  unfolding get_value_at read_entry
  get_value_at-Found ts none none m = refl
  get_value_at-Found ts none (some x) m = absurd m
  get_value_at-Found ts (some val) none m = absurd m
  get_value_at-Found ts (some val) (some (v, t)) m =
      let file = contents l.disk lf.fid in
      let now : has_expired val.expired_at ts ≡ false = ap (λ x. has_expired x ts) m.lasting in
      let read = read_log_entry-StandsAt lf.io file val.offset m.e m.able m.some_byte m.stands (
        can_read lf.io file max_header_size val.offset r m.header_inside,
        can_read lf.io file (length (entry_bytes m.e)) val.offset r m.inside,
      ) in
      let named : find_log_file l val.fid ≡ ok lf =
        ap (λ (n : ℕ). find_log_file l n) m.named ∙ found in
      rw now (
        rw (named, read_entry)
          (rw (read, read_entry)
            (check_entry-stored ts m.e m.some_byte m.plain
              ∙ ap (λ (b : Bytes). reply ts (some (b, m.e.expired_at))) m.has_value
              ∙ ap (λ (u : ℤ). reply ts (some (v, u))) m.has_expiry)))

pub length-log_bytes : (es : List LogEntry) → length es ≤ length (log_bytes es)
length-log_bytes [] = omega arith
length-log_bytes (e ∷ es) =
    omega (
      arith,
      length-log_bytes es,
      length-append (entry_bytes e) (log_bytes es),
      length-entry_bytes e,
    )

module _ ⦃art : Art Value⦄ where
  -- One entry, read in the middle of a file.
  apply-Found :
      (file : Bytes) (fid offset : ℕ) (e : LogEntry) (tree : art.Tree) (f : Spec)
      → StandsAt file offset (entry_bytes e)
      → offset + max_header_size < length file
      → offset + length (entry_bytes e) < length file
      → IsEncodable e
      → 0 < length e.key + length e.value
      → ((k : Bytes) → Found file fid (art.search tree k) (f k))
      → (k : Bytes) → Found file fid (art.search (apply tree fid offset e) k) (effect f e k)
  apply-Found file fid offset e tree f stands h1 h2 able some_byte m k =
      elim (Bool-cases (e.stat == s_delete)) [
        | inl d ↦ elim (Bool-cases (bytes_eq e.key k)) [
          | inl same ↦ rw (d, art.search-delete tree e.key k, same) tt
          | inr other ↦ rw (d, art.search-delete tree e.key k, other) (m k)
        ]
        | inr p ↦ elim (Bool-cases (bytes_eq e.key k)) [
          | inl same ↦
              rw (p, art.search-insert, same)
                (record {
                  e = e;
                  named = refl;
                  lasting = refl;
                  stands = stands;
                  header_inside = h1;
                  inside = h2;
                  able = able;
                  some_byte = some_byte;
                  plain = p;
                  has_value = refl;
                  has_expiry = refl;
                })
          | inr other ↦ rw (p, art.search-insert, other) (m k)
        ]
      ]

  replay-Found :
      (es : List LogEntry) (z : ℕ) (front file : Bytes) (fid offset : ℕ) (tree : art.Tree)
      (f : Spec)
      → file ≡ front ++ (log_bytes es ++ replicate z 0)
      → offset ≡ length front
      → max_header_size < z
      → AllWritten es
      → ((k : Bytes) → Found file fid (art.search tree k) (f k))
      → (k : Bytes) → Found file fid (art.search (replay tree fid offset es) k) (spec_after f es k)
  replay-Found [] z front file fid offset tree f whole at room w m k = m k
  replay-Found (e ∷ es) z front file fid offset tree f whole at room (able, some_byte, w) m k =
      let b = entry_bytes e in
      let rest = log_bytes es ++ replicate z 0 in
      let split = whole ∙ ap (λ r. front ++ r) (append_assoc b (log_bytes es) (replicate z 0)) in
      let total : length file ≡ length front + (length b + (length (log_bytes es) + z)) = omega (
        arith,
        ap (λ (r : Bytes). length r) split,
        length-append front (b ++ rest),
        length-append b rest,
        length-append (log_bytes es) (replicate z 0),
        length-replicate {A = ℕ} z 0,
      ) in
      replay-Found es z (front ++ b) file fid (offset + length b) (apply tree fid offset e)
        (effect f e) (split ∙ sym (append_assoc front b rest))
        (omega (arith, at, length-append front b)) room w
        (apply-Found file fid offset e tree f (front, rest, split, sym at)
          (omega (arith, at, total)) (omega (arith, at, total)) able some_byte m)
        k

  -- Where the one log file of the strings holds entries that the store writes from its start on
  -- and more than 25 zeros behind them, and can be read, `buildIndexFromLogFiles` succeeds,
  -- sets the file's offset to the end of the entries, and afterwards a lookup of any key at any
  -- second answers as the abstract store that the entries lead to from the empty one, expiries
  -- included.
  pub build_index-reply :
      (l : LogSet) (lf : LogFile) (es : List LogEntry) (z : ℕ) (key : Bytes) (ts : ℤ)
      → l.active ≡ some lf
      → l.fids ≡ lf.fid ∷ []
      → contents l.disk lf.fid ≡ log_bytes es ++ replicate z 0
      → Reads lf.io
      → AllWritten es
      → max_header_size < z
      → (tree : art.Tree) × (l' : LogSet) × (build_index l art.new ≡ (ok (tree, l')))
        × (l'.active ≡ some (record lf { offset = length (log_bytes es) }))
        × (get_value tree key ts l' ≡ reply ts (spec_after (λ k. none) es key))
  unfolding build_index build_fids file_of get_value find_log_file sort
  build_index-reply l lf es z key ts is_active fids whole r w room =
      let file = contents l.disk lf.fid in
      let end = length (log_bytes es) in
      let tree = replay art.new lf.fid 0 es in
      let l' : LogSet = set_offset (record l { fids = lf.fid ∷ [] }) lf end in
      let lf' : LogFile = record lf { offset = end } in
      let rounds : length es < length file + 1 = omega (
        arith,
        length-append (log_bytes es) (replicate z 0),
        ap (λ (b : Bytes). length b) whole,
        length-log_bytes es,
      ) in
      let zero_add : 0 + end ≡ end = omega arith in
      let run : build_loop (length file + 1) lf.io file lf.fid 0 art.new ≡ ok (tree, end) =
        subst
          (λ (f : Bytes). build_loop (length file + 1) lf.io f lf.fid 0 art.new ≡ ok (tree, end))
          (sym whole)
          (build_loop-replay es (length file + 1) z lf.io [] lf.fid art.new r w rounds room
            ∙ ap (λ (m : ℕ). ok (tree, m)) zero_add) in
      let found : find_log_file l' lf.fid ≡ ok lf' = ground arith in
      let m =
        replay-Found es z [] file lf.fid 0 art.new (λ k. none) whole refl room w
          (λ k. rw (art.search-new k) tt) key in
      (
        tree,
        l',
        rw fids (rw (is_active, build_fids) (rw (run))),
        refl,
        get_value_at-Found l' lf' r found ts (art.search tree key) (spec_after (λ k. none) es key)
            m,
      )
