-- ===== src/Logfile/ReadBack.antt =====
-- Reading an entry where its bytes stand, for both kinds of controller.
use mathlib.Core.Path.{subst}
use lazy_db.Prelude.{
  ℕ, ◌+◌, ◌-◌, ◌≤◌, ◌<◌, ◌≡◌, refl, sym, ap, ◌∙◌, ◌∷◌, ◌++◌, append_assoc, arith, Bytes, length,
  take, leb, ltb, le→leb, length-append, take-append_ge, take-append_length, drop-append_length,
  ◌&&◌, ◌||◌, ◌==◌, true, false, ==_self,
}
use lazy_db.Prelude.Res.{ok}
use lazy_db.Prelude.Int.{pos, pos-add}
use lazy_db.Std.Crc.{checksum}
use lazy_db.Std.OsFile.{StandsAt, StandsAt-tail, drop-StandsAt, read_at-StandsAt}
use lazy_db.Io.{IoType, file_io, mmap, unsupported, io_read, file_read, mmap_read}
use lazy_db.Logfile.Entry.{LogEntry, max_header_size, get_entry_crc}
use lazy_db.Logfile.Codec.{fields, body, header, entry_bytes, IsEncodable, length-entry_bytes}
use lazy_db.Logfile.Header.{head_entry, decode_header-header, length-header, get_entry_crc-header}
use lazy_db.Logfile.{slice_to, read_body, read_log_entry}

-- A buffer of `n` bytes at `offset` is filled: a file answers up to its last byte, the mapping
-- only before it.
abbrev pub CanRead : IoType → Bytes → ℕ → ℕ → Type 0
CanRead file_io file n offset = offset + n ≤ length file
CanRead mmap file n offset = offset + n < length file
CanRead unsupported file n offset = ⊥

pub io_read-StandsAt :
    (io : IoType) (file b : Bytes) (n offset : ℕ) (s : StandsAt file offset b)
    → CanRead io file n offset
    → io_read io file n (pos offset) ≡ ok (take n (b ++ s.1))
unfolding io_read file_read mmap_read
io_read-StandsAt file_io file b n offset s h = read_at-StandsAt file b n offset s h
io_read-StandsAt mmap file b n offset s h =
    let near : leb (length file) offset ≡ false = ground arith in
    let far : leb (length file) (offset + n) ≡ false = ground arith in
    rw (near, far) (ap (λ r. ok (take n r)) (drop-StandsAt file b offset s))
io_read-StandsAt unsupported file b n offset s h = absurd h

-- What a read of `e` gives: the entry with its checksum and sizes filled in.
abbrev pub stored : LogEntry → LogEntry
stored e = record (head_entry e) { key = e.key; value = e.value }

-- Both reads of `read_log_entry` stay inside the file.
abbrev pub IsReadable : IoType → Bytes → ℕ → LogEntry → Type 0
IsReadable io file offset e =
    CanRead io file max_header_size offset × CanRead io file (length (entry_bytes e)) offset

CanRead-tail :
    (io : IoType) (file : Bytes) (n a b offset : ℕ)
    → n ≡ a + b
    → CanRead io file n offset
    → CanRead io file b (offset + a)
CanRead-tail file_io file n a b offset e h = omega arith
CanRead-tail mmap file n a b offset e h = omega arith
CanRead-tail unsupported file n a b offset e h = h

entry_bytes-header : (e : LogEntry) → entry_bytes e ≡ header e ++ (e.key ++ e.value)
entry_bytes-header e = sym (append_assoc _ (e.stat ∷ fields e) (e.key ++ e.value))

length-entry_bytes-header :
    (e : LogEntry) → length (entry_bytes e) ≡ length (header e) + (length e.key + length e.value)
length-entry_bytes-header e = omega (arith, length-entry_bytes e, length-header e)

-- The first read gives the header and the bytes behind it.
read_header :
    (io : IoType) (file : Bytes) (offset : ℕ) (e : LogEntry)
    → IsEncodable e
    → StandsAt file offset (entry_bytes e)
    → CanRead io file max_header_size offset
    → (rest : Bytes) × (io_read io file max_header_size (pos offset) ≡ ok (header e ++ rest))
read_header io file offset e able s h =
    let slices = e.key ++ e.value in
    let behind = slices ++ s.1 in
    let long : length (header e) ≤ max_header_size = omega (arith, length-header e, able.fits) in
    (
      take (max_header_size - length (header e)) behind,
      io_read-StandsAt io file (entry_bytes e) max_header_size offset s h
          ∙ ap (λ b. ok (take max_header_size (b ++ s.1))) (entry_bytes-header e)
          ∙ ap (λ b. ok (take max_header_size b)) (append_assoc (header e) slices s.1)
          ∙ ap ok (take-append_ge max_header_size (header e) behind long),
    )

-- The second read gives the two slices.
read_slices :
    (io : IoType) (file : Bytes) (offset : ℕ) (e : LogEntry)
    → StandsAt file offset (entry_bytes e)
    → CanRead io file (length (entry_bytes e)) offset
    → io_read io file (length e.key + length e.value) (pos (offset + length (header e)))
      ≡ ok (e.key ++ e.value)
read_slices io file offset e s h =
    let slices = e.key ++ e.value in
    let s' : StandsAt file (offset + length (header e)) slices =
      StandsAt-tail file (header e) slices offset
        (subst (λ b. StandsAt file offset b) (entry_bytes-header e) s) in
    let n = length e.key + length e.value in
    io_read-StandsAt io file slices n (offset + length (header e)) s'
      (CanRead-tail io file _ (length (header e)) n offset (length-entry_bytes-header e) h)
    ∙ ap ok (take-append_length n slices s'.1 (length-append e.key e.value))

read_body_lem :
    (io : IoType) (file : Bytes) (offset : ℕ) (e : LogEntry)
    → 0 < length e.key + length e.value
    → StandsAt file offset (entry_bytes e)
    → CanRead io file (length (entry_bytes e)) offset
    → read_body io file (pos (offset + length (header e))) (head_entry e) ≡ ok (stored e)
unfolding read_body
read_body_lem io file offset e some_byte s h =
    let test : (ltb 0 (length e.key) || ltb 0 (length e.value)) ≡ true = ground arith in
    rw (test, read_slices io file offset e s h)
      (rw (
        take-append_length (length e.key) e.key e.value refl,
        drop-append_length (length e.key) e.key e.value refl,
      ))

slice_to-header :
    (e : LogEntry) (rest : Bytes)
    → slice_to (header e ++ rest) (pos (length (header e))) ≡ ok (header e, length (header e))
unfolding slice_to
slice_to-header e rest =
    let n = length (header e) in
    let inside : leb n (length (header e ++ rest)) ≡ true =
      le→leb _ _ (omega (arith, length-append (header e) rest)) in
    rw inside (ap (λ b. ok (b, n)) (take-append_length n (header e) rest refl))

-- Where the bytes of an entry stand in a file, `ReadLogEntry` at that offset gives the entry and
-- its size, by either controller; the entry is encodable, has a byte of key or value, and the
-- controller can fill the header's buffer of 25 bytes and the entry's bytes there.
pub read_log_entry-StandsAt :
    (io : IoType) (file : Bytes) (offset : ℕ) (e : LogEntry)
    → IsEncodable e
    → 0 < length e.key + length e.value
    → StandsAt file offset (entry_bytes e)
    → IsReadable io file offset e
    → read_log_entry io file offset ≡ ok (stored e, length (entry_bytes e))
unfolding read_log_entry
read_log_entry-StandsAt io file offset e able some_byte s (h1, h2) =
    let (rest, r1) = read_header io file offset e able s h1 in
    let ck = checksum (body e) in
    let test : (ck == 0 && length e.key == 0 && length e.value == 0) ≡ false = ground arith in
    let size : length (header e) + length e.key + length e.value ≡ length (entry_bytes e) =
      omega (arith, length-entry_bytes-header e) in
    let same : get_entry_crc (header e) (stored e) ≡ ck =
      get_entry_crc-header e (stored e) refl refl in
    rw (r1, decode_header-header e rest able)
      (rw (test, pos-add, read_body_lem io file offset e some_byte s h2, slice_to-header e rest)
        (rw (same, ==_self ck) (ap (λ (n : ℕ). ok (stored e, n)) size)))
