-- ===== src/Tests/Codec.antt =====
-- An entry with a key and a value of one byte, encoded and read.
use lazy_db.Prelude.{
  ◌+◌, ◌≡◌, refl, [], ◌∷◌, ◌++◌, Bytes, arith, length, leb, if◌then◌else◌, replicate, length-append,
}
use lazy_db.Prelude.Res.{ok, err, fatal, eof}
use lazy_db.Prelude.Int.{pos}
use lazy_db.Io.{file_io}
use lazy_db.Logfile.{read_log_entry}
use lazy_db.Logfile.Entry.{LogEntry, decode_header, encode_entry, max_header_size}
use lazy_db.Logfile.Codec.{fields, header, entry_bytes, IsEncodable}
use lazy_db.Logfile.Header.{head_entry, decode_header-header}
use lazy_db.Logfile.ReadBack.{stored, IsReadable, read_log_entry-StandsAt}
use lazy_db.Logfile.Limits.{encode_entry_cases, read_log_entry-eof, small-IsEncodable}
use lazy_db.Db.Index.{plain_entry}
use lazy_db.Tests.{key0, value0}

abbrev entry0 : LogEntry
entry0 = plain_entry key0 value0

entry0-IsEncodable : IsEncodable entry0
entry0-IsEncodable =
    small-IsEncodable entry0 refl (omega arith) 0 refl (omega arith) (omega arith) (omega arith)

encode_entry_cases_example : encode_entry entry0 ≡ (
    if leb (5 + length (fields entry0)) max_header_size
    then ok (entry_bytes entry0, length (entry_bytes entry0))
    else fatal)
encode_entry_cases_example = encode_entry_cases entry0

decode_header-header_example :
    decode_header (header entry0 ++ 7 ∷ []) ≡ ok (head_entry entry0, pos (length (header entry0)))
decode_header-header_example = decode_header-header entry0 (7 ∷ []) entry0-IsEncodable

abbrev file0 : Bytes
file0 = entry_bytes entry0 ++ replicate 30 0

-- The entry is followed by room for the header's buffer.
entry0-IsReadable : IsReadable file_io file0 0 entry0
entry0-IsReadable =
    let total = length-append (entry_bytes entry0) (replicate 30 0) in
    (omega (arith, total), omega (arith, total))

read_log_entry-StandsAt_example :
    read_log_entry file_io file0 0 ≡ ok (stored entry0, length (entry_bytes entry0))
read_log_entry-StandsAt_example =
    read_log_entry-StandsAt file_io file0 0 entry0 entry0-IsEncodable (omega arith)
      ([], replicate 30 0, refl, refl) entry0-IsReadable

read_log_entry-eof_example : read_log_entry file_io (replicate 30 0) 10 ≡ err eof
read_log_entry-eof_example = read_log_entry-eof (replicate 30 0) 10 (omega arith)
