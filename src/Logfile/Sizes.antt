-- ===== src/Logfile/Sizes.antt =====
-- What a read that succeeds says of the file and of the entry's size, whatever the file holds.
use lazy_db.Prelude.{
  ℕ, zero, suc, ◌+◌, ◌≤◌, ◌≡◌, false, Bytes, length, ◌==◌, ◌&&◌, if◌then◌else◌, arith, Bool-cases,
  inl, inr,
}
use lazy_db.Prelude.Res.{Res, ok, err, invalid_crc, log_end_of_file, ◌>>=◌, Res-cases}
use lazy_db.Prelude.Int.{ℤ, pos, negsuc, ◌+ℤ◌}
use lazy_db.Std.OsFile.{read_at}
use lazy_db.Io.{IoType, file_io, mmap, unsupported, io_read, file_read, mmap_read}
use lazy_db.Logfile.{slice_to, read_body, read_log_entry}
use lazy_db.Logfile.Entry.{LogEntry, max_header_size, decode_header, get_entry_crc}

io_read-inside :
    (io : IoType) (file : Bytes) (n offset : ℕ) (b : Bytes)
    → io_read io file n (pos offset) ≡ ok b
    → offset + n ≤ length file
unfolding io_read file_read mmap_read read_at
io_read-inside file_io file n offset b h = ground (arith, h)
io_read-inside mmap file n offset b h = ground (arith, h)
io_read-inside unsupported file n offset b h = absurd (ground (arith, h))

read_body-keeps :
    (io : IoType) (file : Bytes) (at : ℤ) (le le' : LogEntry)
    → read_body io file at le ≡ ok le'
    → (le'.crc ≡ le.crc) × (le'.k_size ≡ le.k_size) × (le'.v_size ≡ le.v_size)
unfolding read_body
read_body-keeps io file at le le' h =
    elim (Res-cases (io_read io file (le.k_size + le.v_size) at)) [
      | inl (kv, e) ↦ ground (arith, h, e)
      | inr (inl (x, e)) ↦ ground (arith, h, e)
      | inr (inr e) ↦ ground (arith, h, e)
    ]

-- A header of no bytes has the checksum 0.
slice_to-empty :
    (buf : Bytes) (z : ℤ) (header : Bytes) (le : LogEntry)
    → slice_to buf z ≡ ok (header, 0)
    → get_entry_crc header le ≡ 0
unfolding slice_to get_entry_crc
slice_to-empty buf (pos n) header le h = ground (arith, h)
slice_to-empty buf (negsuc n) header le h = absurd (ground (arith, h))

-- The parts of `ReadLogEntry` behind the second read, and behind the first.
abbrev check_crc : Bytes → LogEntry → ℤ → Res (LogEntry × ℕ)
check_crc header_buf le size = do
  (header, n) ← slice_to header_buf size
  if get_entry_crc header le == le.crc then ok (le, n + le.k_size + le.v_size) else err invalid_crc

abbrev behind_read : IoType → Bytes → ℕ → Bytes → Res (LogEntry × ℕ)
behind_read io file offset buf = do
  (le, size) ← decode_header buf
  if le.crc == 0 && le.k_size == 0 && le.v_size == 0
      then err log_end_of_file
      else do le ← read_body io file (pos offset +ℤ size) le; check_crc buf le size

checked :
    (header_buf : Bytes) (le0 le : LogEntry) (size : ℤ) (e : LogEntry) (s : ℕ)
    → (le.crc ≡ le0.crc) × (le.k_size ≡ le0.k_size) × (le.v_size ≡ le0.v_size)
    → (le0.crc == 0 && le0.k_size == 0 && le0.v_size == 0) ≡ false
    → check_crc header_buf le size ≡ ok (e, s)
    → 1 ≤ s
checked header_buf le0 le size e s same some_field h = elim (Res-cases (slice_to header_buf size)) [
  | inl ((header, zero), c) ↦
      ground (arith, h, c, same, some_field, slice_to-empty header_buf size header le c)
  | inl ((header, suc n), c) ↦ ground (arith, h, c)
  | inr (inl (x, c)) ↦ absurd (ground (arith, h, c))
  | inr (inr c) ↦ absurd (ground (arith, h, c))
]

behind_header :
    (io : IoType) (file : Bytes) (offset : ℕ) (buf : Bytes) (e : LogEntry) (s : ℕ)
    → behind_read io file offset buf ≡ ok (e, s)
    → 1 ≤ s
behind_header io file offset buf e s h = elim (Res-cases (decode_header buf)) [
  | inl ((le0, size), d) ↦ elim (Bool-cases (le0.crc == 0 && le0.k_size == 0 && le0.v_size == 0)) [
    | inl ends ↦ absurd (ground (arith, h, d, ends))
    | inr some_field ↦ elim (Res-cases (read_body io file (pos offset +ℤ size) le0)) [
      | inl (le, b) ↦
          checked buf le0 le size e s (read_body-keeps io file (pos offset +ℤ size) le0 le b)
            some_field (rw (d, some_field, b) at h)
      | inr (inl (x, b)) ↦ absurd (ground (arith, h, d, some_field, b))
      | inr (inr b) ↦ absurd (ground (arith, h, d, some_field, b))
    ]
  ]
  | inr (inl (x, d)) ↦ absurd (ground (arith, h, d))
  | inr (inr d) ↦ absurd (ground (arith, h, d))
]

-- A read that succeeds finds 25 bytes behind the offset, and gives an entry of a byte at least:
-- a header that decodes to no bytes has the checksum 0, which ends a log or is refused.
pub read_log_entry-grows :
    (io : IoType) (file : Bytes) (offset : ℕ) (e : LogEntry) (s : ℕ)
    → read_log_entry io file offset ≡ ok (e, s)
    → (1 ≤ s) × (offset + max_header_size ≤ length file)
unfolding read_log_entry
read_log_entry-grows io file offset e s h =
    elim (Res-cases (io_read io file max_header_size (pos offset))) [
      | inl (buf, r) ↦ (
        behind_header io file offset buf e s (rw (r, read_log_entry) at h),
        io_read-inside io file max_header_size offset buf r,
      )
      | inr (inl (x, r)) ↦ absurd (ground (arith, h, r))
      | inr (inr r) ↦ absurd (ground (arith, h, r))
    ]
