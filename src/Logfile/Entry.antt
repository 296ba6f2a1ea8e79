-- ===== src/Logfile/Entry.antt =====
-- logfile/log_entry.go: entries, their encoding and the decoding of their header.
use lazy_db.Prelude.{ℕ, ◌+◌, ◌%◌, ◌^◌, [], ◌∷◌, ◌++◌, Bytes, length, drop, leb, if◌then◌else◌}
use lazy_db.Prelude.Res.{Res, ok, fatal, ◌>>=◌}
use lazy_db.Prelude.Int.{ℤ, pos, negsuc, signed64, word64, ◌+ℤ◌}
use lazy_db.Std.Endian.{put_u32, get_u32}
use lazy_db.Std.Varint.{put_varint, varint}
use lazy_db.Std.Crc.{checksum, crc_update}

-- `Status`: 0 is a plain entry.
abbrev pub s_none : ℕ
s_none = 0

abbrev pub s_delete : ℕ
s_delete = 1

abbrev pub s_list_meta : ℕ
s_list_meta = 2

-- `TxStatus`
abbrev pub tx_commited : ℕ
tx_commited = 1

abbrev pub tx_uncommited : ℕ
tx_uncommited = 2

abbrev pub max_header_size : ℕ
max_header_size = 25

pub record LogEntry : Type 0 where
  pub crc : ℕ
  pub expired_at : ℤ
  pub stat : ℕ
  pub tx_id : ℕ
  pub tx_stat : ℕ
  pub k_size : ℕ
  pub v_size : ℕ
  pub key : Bytes
  pub value : Bytes

-- `&LogEntry{}`
abbrev pub empty_entry : LogEntry
empty_entry = record {
  crc = 0;
  expired_at = pos 0;
  stat = 0;
  tx_id = 0;
  tx_stat = 0;
  k_size = 0;
  v_size = 0;
  key = [];
  value = [];
}

-- `binary.PutVarint(buf[offset:], x)`, where `head` is what was written before: it panics at the
-- end of the header buffer.
unfoldable pub append_varint : Bytes → ℤ → Res Bytes
append_varint head x =
    let next = head ++ put_varint x in if leb (length next) max_header_size then ok next else fatal

-- The header behind the checksum. `buf[4]` is the first byte; four bytes stand before it.
unfoldable pub encode_fields : LogEntry → Res Bytes
unfolding append_varint
encode_fields le = do
  h ← append_varint (0 ∷ 0 ∷ 0 ∷ 0 ∷ le.stat ∷ []) le.expired_at
  h ← append_varint h (signed64 le.tx_id)
  h ← append_varint h (pos le.tx_stat)
  h ← append_varint h (pos (length le.key))
  append_varint h (pos (length le.value))

-- `EncodeEntry`: the buffer and its size.
unfoldable pub encode_entry : LogEntry → Res (Bytes × ℕ)
unfolding encode_fields
encode_entry le = do
  header ← encode_fields le
  let body = drop 4 header ++ (le.key ++ le.value)
  ok (put_u32 (checksum body) ++ body, length header + length le.key + length le.value)

-- `buf[offset:]`, which panics out of range.
unfoldable pub slice_from : Bytes → ℤ → Res Bytes
slice_from buf (pos n) = if leb n (length buf) then ok (drop n buf) else fatal
slice_from buf (negsuc n) = fatal

-- `x, size := binary.Varint(buf[offset:]); offset += size`
unfoldable pub next_varint : Bytes → ℤ → Res (ℤ × ℤ)
unfolding slice_from
next_varint buf offset = do
  rest ← slice_from buf offset
  let (x, size) = varint rest
  ok (x, offset +ℤ size)

-- `buf[4]`, the first byte of the slice from there.
unfoldable pub first_byte : Bytes → Res ℕ
first_byte [] = fatal
first_byte (b ∷ bs) = ok b

-- `decodeHeader` of a buffer of more than four bytes: the entry and the header's size.
-- `readLogEntry` hands it 25 bytes; on four bytes or fewer the code returns a nil entry.
unfoldable pub decode_header : Bytes → Res (LogEntry × ℤ)
decode_header buf = do
  crc ← get_u32 buf
  stat_byte ← slice_from buf (pos 4)
  stat ← first_byte stat_byte
  (expired_at, o) ← next_varint buf (pos 5)
  (tx_id, o) ← next_varint buf o
  (tx_stat, o) ← next_varint buf o
  (k_size, o) ← next_varint buf o
  (v_size, o) ← next_varint buf o
  ok (
    record {
      crc = crc;
      expired_at = expired_at;
      stat = stat;
      tx_id = word64 tx_id;
      tx_stat = word64 tx_stat % 2 ^ 16;
      k_size = word64 k_size % 2 ^ 32;
      v_size = word64 v_size % 2 ^ 32;
      key = [];
      value = [];
    },
    o,
  )

-- `getEntryCrc` over a header.
unfoldable pub get_entry_crc : Bytes → LogEntry → ℕ
get_entry_crc buf le =
    if leb (length buf) 4
    then 0
    else crc_update (crc_update (checksum (drop 4 buf)) le.key) le.value
