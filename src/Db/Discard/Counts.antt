-- ===== src/Db/Discard/Counts.antt =====
-- The record of a file: the listener adds to its third word.
use lazy_db.Prelude.{
  ℕ, ◌+◌, ◌%◌, ◌^◌, ◌≤◌, ◌<◌, ◌≡◌, ◌⊎◌, inl, inr, refl, sym, ap, ◌∙◌, some, List, [], ◌∷◌, ◌++◌,
  Bytes, length, drop, arith, append_assoc, drop-drop, drop-append_length, leb, false,
}
use mathlib.Core.Path.{subst}
use lazy_db.Prelude.Res.{ok}
use lazy_db.Std.Endian.{put_u32, get_u32, get_u32-put_u32, length-put_u32}
use lazy_db.Std.OsFile.{
  StandsAt, write_at, write_at-StandsAt, write_at-keeps, write_at-keeps_behind, drop-StandsAt,
  read_at-StandsAt, StandsAt-tail, StandsAt-length,
}
use lazy_db.Std.GoMap
use lazy_db.Std.GoMap.{nat_eq}
use lazy_db.Io.{file_read, file_write}
use lazy_db.Db.Discard.{Discard, alloc, incr_discard, listen_update, write_record}

-- Two parts that stand one behind the other stand as one.
StandsAt-append :
    (file a b : Bytes) (offset : ℕ)
    → StandsAt file offset a
    → StandsAt file (offset + length a) b
    → StandsAt file offset (a ++ b)
StandsAt-append file a b offset (front, back, e, l) s =
    let first = drop-StandsAt file a offset (front, back, e, l) in
    let behind : back ≡ b ++ s.1 =
      sym (drop-append_length (length a) a back refl)
      ∙ ap (λ f. drop (length a) f) (sym first)
      ∙ drop-drop offset (length a) file
      ∙ drop-StandsAt file b (offset + length a) s in
    (
      front,
      s.1,
      e ∙ ap (λ r. front ++ (a ++ r)) behind ∙ ap (λ r. front ++ r) (sym (append_assoc a b s.1)),
      l,
    )

StandsAt-head :
    (file a b : Bytes) (offset : ℕ) → StandsAt file offset (a ++ b) → StandsAt file offset a
StandsAt-head file a b offset (front, back, e, l) =
    (front, b ++ back, e ∙ ap (λ r. front ++ r) (append_assoc a b back), l)

-- The record of `fid` at `offset`: its size and how much of it is dead.
abbrev pub RecordAt : Bytes → ℕ → ℕ → ℕ → ℕ → Type 0
RecordAt file offset fid total dead =
    StandsAt file offset ((put_u32 fid ++ put_u32 total) ++ put_u32 dead)

read_word :
    (file : Bytes) (offset v : ℕ)
    → v < 2 ^ 32
    → StandsAt file offset (put_u32 v)
    → (buf : Bytes) × (file_read file 4 offset ≡ ok buf) × (get_u32 buf ≡ ok v)
unfolding file_read put_u32
read_word file offset v h s = (
  put_u32 v,
  read_at-StandsAt file (put_u32 v) 4 offset s
      (omega (arith, StandsAt-length file (put_u32 v) offset s)),
  get_u32-put_u32 v [] h,
)

incr_discard-RecordAt :
    (d : Discard) (fid delta offset total dead : ℕ)
    → GoMap.lookup fid d.location ≡ some offset
    → RecordAt d.file offset fid total dead
    → dead < 2 ^ 32
    → 0 < delta
    → (incr_discard d fid delta
        ≡ ok (record d { file = write_at d.file (put_u32 ((dead + delta) % 2 ^ 32)) (offset + 8) }))
      × RecordAt
          (write_at d.file (put_u32 ((dead + delta) % 2 ^ 32)) (offset + 8))
          offset
          fid
          total
          ((dead + delta) % 2 ^ 32)
unfolding incr_discard alloc write_record file_write
incr_discard-RecordAt d fid delta offset total dead located s small some_delta =
    let front = put_u32 fid ++ put_u32 total in
    let word = put_u32 ((dead + delta) % 2 ^ 32) in
    let size : length front ≡ 8 = unfold put_u32 in refl in
    let last : StandsAt d.file (offset + 8) (put_u32 dead) =
      subst (λ (n : ℕ). StandsAt d.file (offset + n) (put_u32 dead)) size
        (StandsAt-tail d.file front (put_u32 dead) offset s) in
    let (buf, read, value) = read_word d.file (offset + 8) dead small last in
    let file' = write_at d.file word (offset + 8) in
    let kept =
      write_at-keeps d.file front word offset (offset + 8)
        (StandsAt-head d.file front (put_u32 dead) offset s) (omega (arith, size)) in
    let put : StandsAt file' (offset + length front) word =
      subst (λ (n : ℕ). StandsAt file' (offset + n) word) (sym size)
        (write_at-StandsAt d.file word (offset + 8)) in
    let positive : leb delta 0 ≡ false = ground arith in
    (
      rw positive (rw (located, alloc) (rw read (rw value))),
      StandsAt-append file' front word offset kept put,
    )

-- Two records have no byte in common.
abbrev pub Apart : ℕ → ℕ → Type 0
Apart offset other = (other + 12 ≤ offset) ⊎ (offset + 12 ≤ other)

record-keeps :
    (file word : Bytes) (offset other fid total dead : ℕ)
    → length word ≡ 4
    → Apart offset other
    → RecordAt file other fid total dead
    → RecordAt (write_at file word (offset + 8)) other fid total dead
record-keeps file word offset other fid total dead h (inl before) s =
    let size : length ((put_u32 fid ++ put_u32 total) ++ put_u32 dead) ≡ 12 =
      unfold put_u32 in refl in
    write_at-keeps file _ word other (offset + 8) s (omega (arith, size))
record-keeps file word offset other fid total dead h (inr behind) s =
    write_at-keeps_behind file _ word other (offset + 8) s (omega arith)

-- Where a value of a positive size waits in the discard channel and its file has a record, the
-- listener takes it out of the channel and adds the size to the dead bytes of that record modulo
-- 2 ^ 32; the record's fid and total, the places of the records, and the record of another file
-- that lies apart from it stay as they are.
pub listen_update-RecordAt :
    (d : Discard) (fid delta offset total dead other fid2 total2 dead2 : ℕ) (rest : List (ℕ × ℕ))
    → d.val_chan ≡ (fid, delta) ∷ rest
    → GoMap.lookup fid d.location ≡ some offset
    → RecordAt d.file offset fid total dead
    → RecordAt d.file other fid2 total2 dead2
    → Apart offset other
    → dead < 2 ^ 32
    → 0 < delta
    → (d' : Discard) × (listen_update d ≡ ok d')
      × (d'.val_chan ≡ rest)
      × (d'.location ≡ d.location)
      × RecordAt d'.file offset fid total ((dead + delta) % 2 ^ 32)
      × RecordAt d'.file other fid2 total2 dead2
unfolding listen_update
listen_update-RecordAt d fid delta offset total dead other fid2 total2 dead2 rest chan located s s2
      apart small some_delta =
    let d1 : Discard = record d { val_chan = rest } in
    let word = put_u32 ((dead + delta) % 2 ^ 32) in
    let (run, now) =
      incr_discard-RecordAt d1 fid delta offset total dead located s small some_delta in
    (
      record d1 { file = write_at d1.file word (offset + 8) },
      rw (chan, listen_update) run,
      refl,
      refl,
      now,
      record-keeps d.file word offset other fid2 total2 dead2 (length-put_u32 _) apart s2,
    )
