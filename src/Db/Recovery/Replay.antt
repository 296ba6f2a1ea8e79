-- ===== src/Db/Recovery/Replay.antt =====
-- A file that holds entries from its start on and zeros behind them, read from one entry to the
-- next.
use lazy_db.Prelude.{
  ℕ, zero, suc, ◌+◌, ◌-◌, ◌<◌, ◌≡◌, refl, sym, ap, ◌∙◌, List, [], ◌∷◌, ◌++◌, Bytes, length, ◌==◌,
  if◌then◌else◌, replicate, length-append, length-replicate, append_assoc, arith, Bool-cases, inl,
  inr,
}
use mathlib.Core.Path.{subst}
use lazy_db.Prelude.Res.{ok, err, log_end_of_file}
use lazy_db.Prelude.Int.{pos, ◌+ℤ◌, word64, signed64}
use lazy_db.Std.Endian.{get_u32}
use lazy_db.Std.Varint.{varint, uvarint, uvarint_loop, unzigzag}
use lazy_db.Std.OsFile.{StandsAt}
use lazy_db.Io.{IoType, file_io, mmap, unsupported}
use lazy_db.Ds.Art.{Art, tree_put, tree_delete}
use lazy_db.Logfile.{read_log_entry}
use lazy_db.Logfile.Entry.{
  LogEntry, s_delete, max_header_size, decode_header, slice_from, first_byte, next_varint,
}
use lazy_db.Logfile.Codec.{fields, entry_bytes, IsEncodable, encode_entry_lem}
use lazy_db.Logfile.ReadBack.{CanRead, stored, io_read-StandsAt, read_log_entry-StandsAt}
use lazy_db.Db.Index.{Value, encoded_size}
use lazy_db.Db.Recovery.{build_str_index, build_loop}

-- The entries, one after the other.
abbrev pub log_bytes : List LogEntry → Bytes
log_bytes [] = []
log_bytes (e ∷ es) = entry_bytes e ++ log_bytes es

-- Each entry is one that the store writes.
abbrev pub AllWritten : List LogEntry → Type 0
AllWritten [] = Unit {0}
AllWritten (e ∷ es) = IsEncodable e × (0 < length e.key + length e.value) × AllWritten es

-- A controller that reads.
abbrev pub Reads : IoType → Type 0
Reads file_io = Unit {0}
Reads mmap = Unit {0}
Reads unsupported = ⊥

pub can_read :
    (io : IoType) (file : Bytes) (n offset : ℕ)
    → Reads io
    → offset + n < length file
    → CanRead io file n offset
can_read file_io file n offset r h = omega arith
can_read mmap file n offset r h = h
can_read unsupported file n offset r h = r

-- A header of zeros ends a log.
pub read_log_entry-zeros :
    (io : IoType) (file : Bytes) (offset : ℕ)
    → Reads io
    → StandsAt file offset (replicate max_header_size 0)
    → offset + max_header_size < length file
    → read_log_entry io file offset ≡ err log_end_of_file
unfolding read_log_entry decode_header get_u32 slice_from first_byte next_varint ◌+ℤ◌ varint uvarint
    uvarint_loop word64 unzigzag signed64
read_log_entry-zeros io file offset r s h =
    rw
      (io_read-StandsAt io file (replicate max_header_size 0) max_header_size offset s
        (can_read io file max_header_size offset r h))
      refl

replicate-add : (m n k : ℕ) (a : ℕ) → k ≡ m + n → replicate k a ≡ replicate m a ++ replicate n a
replicate-add zero n k a h = ap (λ (j : ℕ). replicate {A = ℕ} j a) (omega (arith, h))
replicate-add (suc m) n zero a h = absurd (omega (arith, h))
replicate-add (suc m) n (suc k) a h = ap (λ l. a ∷ l) (replicate-add m n k a (omega (arith, h)))

pub split_zeros :
    (z : ℕ)
    → max_header_size < z
    → replicate {A = ℕ} z 0 ≡ replicate max_header_size 0 ++ replicate (z - max_header_size) 0
split_zeros z h = replicate-add max_header_size (z - max_header_size) z 0 (omega arith)

module _ ⦃art : Art Value⦄ where
  -- What an entry of the log does to the index.
  abbrev pub apply : art.Tree → ℕ → ℕ → LogEntry → art.Tree
  apply tree fid offset e =
      if e.stat == s_delete
      then (tree_delete {V = Value} tree e.key).0
      else (tree_put {V = Value} tree e.key (record {
        fid = fid;
        offset = offset;
        entry_size = length (entry_bytes e);
        expired_at = pos 0;
      })).0

  abbrev pub replay : art.Tree → ℕ → ℕ → List LogEntry → art.Tree
  replay tree fid offset [] = tree
  replay tree fid offset (e ∷ es) =
      replay (apply tree fid offset e) fid (offset + length (entry_bytes e)) es

  stored_size :
      (e : LogEntry) → IsEncodable e → encoded_size (stored e) ≡ ok (length (entry_bytes e))
  unfolding encoded_size fields
  stored_size e able = rw (encode_entry_lem (stored e) able.fits, encoded_size)

  build_str_index_lem :
      (tree : art.Tree) (fid offset : ℕ) (e : LogEntry)
      → IsEncodable e
      → build_str_index tree
          (stored e)
          (record { fid = fid; offset = offset; entry_size = length (entry_bytes e) })
        ≡ ok (apply tree fid offset e)
  unfolding build_str_index
  build_str_index_lem tree fid offset e able = elim (Bool-cases (e.stat == s_delete)) [
    | inl d ↦ rw d
    | inr p ↦ rw (p, stored_size e able)
  ]

  pub build_loop-replay :
      (es : List LogEntry) (n z : ℕ) (io : IoType) (front : Bytes) (fid : ℕ) (tree : art.Tree)
      → Reads io
      → AllWritten es
      → length es < n
      → max_header_size < z
      → build_loop n io (front ++ (log_bytes es ++ replicate z 0)) fid (length front) tree
        ≡ ok (replay tree fid (length front) es, length front + length (log_bytes es))
  unfolding build_loop
  build_loop-replay es zero z io front fid tree r w more room = absurd (omega arith)
  build_loop-replay [] (suc n) z io front fid tree r w more room =
      let file = front ++ replicate z 0 in
      let total = length-append front (replicate z 0) in
      let zs = length-replicate {A = ℕ} z 0 in
      let ends =
        read_log_entry-zeros io file (length front) r
          (
            front,
            replicate (z - max_header_size) 0,
            ap (λ b. front ++ b) (split_zeros z room),
            refl,
          )
          (omega (arith, total, zs)) in
      rw (ends, build_loop) (ap (λ (m : ℕ). ok (tree, m)) (omega arith))
  build_loop-replay (e ∷ es) (suc n) z io front fid tree r (able, some_byte, w) more room =
      let b = entry_bytes e in
      let zeros : Bytes = replicate z 0 in
      let file = front ++ (log_bytes (e ∷ es) ++ zeros) in
      let regroup = append_assoc b (log_bytes es) zeros in
      let offset = length front + length b in
      let whole = length-append b (log_bytes es) in
      let total : length file ≡ length front + (length b + (length (log_bytes es) + z)) = omega (
        arith,
        length-append front (log_bytes (e ∷ es) ++ zeros),
        length-append (log_bytes (e ∷ es)) zeros,
        whole,
        length-replicate {A = ℕ} z 0,
      ) in
      let sum : offset + length (log_bytes es) ≡ length front + length (b ++ log_bytes es) =
        omega (arith, whole) in
      let tree' = apply tree fid (length front) e in
      let read =
        read_log_entry-StandsAt io file (length front) e able some_byte
          (front, log_bytes es ++ zeros, ap (λ r. front ++ r) regroup, refl)
          (
            can_read io file max_header_size (length front) r (omega (arith, total)),
            can_read io file (length b) (length front) r (omega (arith, total)),
          ) in
      let next = build_loop-replay es n z io (front ++ b) fid tree' r w (omega arith) room in
      let moved =
        subst
          (λ (m : ℕ).
            build_loop n io ((front ++ b) ++ (log_bytes es ++ zeros)) fid m tree'
            ≡ ok (replay tree' fid m es, m + length (log_bytes es)))
          (length-append front b) next in
      let same_file =
        append_assoc front b (log_bytes es ++ zeros) ∙ ap (λ r. front ++ r) (sym regroup) in
      let on_file =
        subst
          (λ (f : Bytes).
            build_loop n io f fid offset tree'
            ≡ ok (replay tree' fid offset es, offset + length (log_bytes es)))
          same_file moved in
      rw (read, build_loop)
        (rw (build_str_index_lem tree fid (length front) e able)
          (on_file ∙ ap (λ (m : ℕ). ok (replay tree' fid offset es, m)) sum))
