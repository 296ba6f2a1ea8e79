-- ===== src/Logfile/Limits.antt =====
-- Where encoding and reading stop: the header's buffer, and the end of a file.
use lazy_db.Prelude.{
  ℕ, ◌+◌, ◌^◌, ◌<◌, ◌≡◌, refl, ap, List, [], ◌∷◌, ◌++◌, arith, Bytes, length, leb, if◌then◌else◌,
  length-append, Bool-cases, inl, inr,
}
use lazy_db.Prelude.Res.{ok, err, fatal, eof}
use lazy_db.Prelude.Int.{ℤ, pos, signed64}
use lazy_db.Std.Varint.{put_varint, length-put_varint_le}
use lazy_db.Std.OsFile.{read_at-eof}
use lazy_db.Io.{file_io, io_read, file_read}
use lazy_db.Logfile.{read_log_entry}
use lazy_db.Logfile.Entry.{LogEntry, max_header_size, append_varint, encode_fields, encode_entry}
use lazy_db.Logfile.Codec.{fields, entry_bytes, IsEncodable, encode_entry_lem, append_all, put_all}
use lazy_db.Logfile.Header.{length-fields}

append_all-overflow :
    (head : Bytes) (x : ℤ) (xs : List ℤ)
    → max_header_size < length head + length (put_all (x ∷ xs))
    → append_all head (x ∷ xs) ≡ fatal
unfolding append_all put_all append_varint
append_all-overflow head x [] h = ground (arith, length-append head (put_varint x))
append_all-overflow head x (y ∷ xs) h =
    let total = length-append (put_varint x) (put_all (y ∷ xs)) in
    let next = length-append head (put_varint x) in
    elim (Bool-cases (leb (length (head ++ put_varint x)) max_header_size)) [
      | inl fits ↦
          rw fits (append_all-overflow (head ++ put_varint x) y xs (omega (arith, total, next, h)))
      | inr over ↦ rw over
    ]

encode_fields_overflow :
    (e : LogEntry) → max_header_size < 5 + length (fields e) → encode_fields e ≡ fatal
unfolding encode_fields fields append_all put_all
encode_fields_overflow e h =
    append_all-overflow (0 ∷ 0 ∷ 0 ∷ 0 ∷ e.stat ∷ []) e.expired_at
      (signed64 e.tx_id ∷ pos e.tx_stat ∷ pos (length e.key) ∷ pos (length e.value) ∷ []) h

encode_entry_overflow :
    (e : LogEntry) → max_header_size < 5 + length (fields e) → encode_entry e ≡ fatal
unfolding encode_entry
encode_entry_overflow e h = rw (encode_fields_overflow e h)

-- `EncodeEntry` gives the checksum, the header, the key and the value in this order with their
-- total size when the five header numbers take 20 bytes at most, and panics else.
pub encode_entry_cases :
    (e : LogEntry)
    → encode_entry e ≡ (
        if leb (5 + length (fields e)) max_header_size
        then ok (entry_bytes e, length (entry_bytes e))
        else fatal)
encode_entry_cases e = elim (Bool-cases (leb (5 + length (fields e)) max_header_size)) [
  | inl fits ↦ rw fits (encode_entry_lem e (ground (arith, fits)))
  | inr over ↦ rw over (encode_entry_overflow e (ground (arith, over)))
]

signed64-zero : signed64 0 ≡ pos 0
unfolding signed64
signed64-zero = refl

pub small-IsEncodable :
    (e : LogEntry)
    → e.tx_id ≡ 0
    → e.tx_stat < 64
    → (n : ℕ) → e.expired_at ≡ pos n
    → n < 2 ^ 48
    → length e.key < 2 ^ 27
    → length e.value < 2 ^ 27
    → IsEncodable e
small-IsEncodable e id stat n time hn hk hv = record {
  fits = omega (
    arith,
    length-fields e,
    ap (λ x. length (put_varint x)) time,
    ap (λ x. length (put_varint (signed64 x))) id,
    length-put_varint_le 6 n (omega arith) (omega arith) (omega arith),
    ap (λ x. length (put_varint x)) signed64-zero,
    length-put_varint_le 0 0 (omega arith) (omega arith) (omega arith),
    length-put_varint_le 0 e.tx_stat (omega arith) (omega arith) (omega arith),
    length-put_varint_le 3 (length e.key) (omega arith) (omega arith) (omega arith),
    length-put_varint_le 3 (length e.value) (omega arith) (omega arith) (omega arith),
  );
  time = rw time (omega arith);
  id = omega arith;
  state = omega arith;
  short_key = omega arith;
  short_value = omega arith;
}

-- `ReadLogEntry` through the file controller answers `io.EOF` at every offset less than 25 bytes
-- before the end of the file, whatever stands there.
pub read_log_entry-eof :
    (file : Bytes) (offset : ℕ)
    → length file < offset + max_header_size
    → read_log_entry file_io file offset ≡ err eof
unfolding read_log_entry io_read file_read
read_log_entry-eof file offset h = rw (read_at-eof file max_header_size offset h)
