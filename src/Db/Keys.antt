-- ===== src/Db/Keys.antt =====
-- `encodeKey` and `decodeKey` of db.go: a key and a sub-key in one.
pub mod RoundTrip
use lazy_db.Prelude.{ℕ, ◌+◌, Bytes, length, take, leb, ltb, List, [], ◌∷◌, ◌++◌, if◌then◌else◌}
use lazy_db.Prelude.Res.{Res, ok, err, fatal, ◌>>=◌}
use lazy_db.Prelude.Int.{ℤ, pos, ◌+ℤ◌, ltb_ℤ, pos_part}
use lazy_db.Std.Varint.{put_varint}
use lazy_db.Logfile.Entry.{slice_from, next_varint}

abbrev pub encode_header_size : ℕ
encode_header_size = 10

-- `binary.PutVarint(header[index:], x)`, which panics at the end of the header.
unfoldable pub put_length : Bytes → ℕ → Res Bytes
put_length header n =
    let next = header ++ put_varint (pos n) in
    if leb (length next) encode_header_size then ok next else fatal

-- `encodeKey`
unfoldable pub encode_key : Bytes → Bytes → Res Bytes
unfolding put_length
encode_key key sub_key = do
  header ← put_length [] (length key)
  header ← put_length header (length sub_key)
  (if ltb 0 (length key + length sub_key) then ok (header ++ (key ++ sub_key)) else ok header)

-- `decodeKey`: a slice out of range is a panic.
unfoldable pub decode_key : Bytes → Res (Bytes × Bytes)
decode_key encoded_key = do
  (key_len, index) ← next_varint encoded_key (pos 0)
  (_, index) ← next_varint encoded_key index
  rest ← slice_from encoded_key index
  sub_key ← slice_from encoded_key (index +ℤ key_len)
  (if ltb_ℤ key_len (pos 0) then fatal else ok (take (pos_part key_len) rest, sub_key))
