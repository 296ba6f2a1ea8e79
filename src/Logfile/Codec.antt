-- ===== src/Logfile/Codec.antt =====
-- Entries and their bytes: what `encode_entry` writes, and what `decode_header` reads back.
use lazy_db.Prelude.{
  ℕ, ◌+◌, ◌^◌, ◌≤◌, ◌<◌, ◌≡◌, sym, ap, ◌∙◌, List, [], ◌∷◌, ◌++◌, append_assoc, append-nil, arith,
  Bytes, length, le→leb, length-append,
}
use lazy_db.Prelude.Res.{Res, ok, ◌>>=◌}
use lazy_db.Prelude.Int.{ℤ, pos, signed64, IsI64}
use lazy_db.Std.Endian.{put_u32}
use lazy_db.Std.Varint.{put_varint}
use lazy_db.Std.Crc.{checksum}
use lazy_db.Logfile.Entry.{LogEntry, max_header_size, append_varint, encode_fields, encode_entry}

-- The five numbers of a header.
unfoldable pub fields : LogEntry → Bytes
fields e =
    put_varint e.expired_at
    ++ (put_varint (signed64 e.tx_id)
        ++ (put_varint (pos e.tx_stat)
            ++ (put_varint (pos (length e.key)) ++ put_varint (pos (length e.value)))))

-- What the checksum covers.
abbrev pub body : LogEntry → Bytes
body e = (e.stat ∷ fields e) ++ (e.key ++ e.value)

abbrev pub header : LogEntry → Bytes
header e = put_u32 (checksum (body e)) ++ (e.stat ∷ fields e)

abbrev pub entry_bytes : LogEntry → Bytes
entry_bytes e = put_u32 (checksum (body e)) ++ body e

-- The header fits the buffer of 25 bytes, and the numbers are those of their types.
pub record IsEncodable (e : LogEntry) : Type 0 where
  pub fits : 5 + length (fields e) ≤ max_header_size
  pub time : IsI64 e.expired_at
  pub id : e.tx_id < 2 ^ 64
  pub state : e.tx_stat < 2 ^ 16
  pub short_key : length e.key < 2 ^ 32
  pub short_value : length e.value < 2 ^ 32

append_varint-le :
    (head : Bytes) (x : ℤ)
    → length head + length (put_varint x) ≤ max_header_size
    → append_varint head x ≡ ok (head ++ put_varint x)
unfolding append_varint
append_varint-le head x h = rw (length-append head (put_varint x), le→leb _ _ h)

unfoldable pub append_all : Bytes → List ℤ → Res Bytes
append_all head [] = ok head
append_all head (x ∷ []) = append_varint head x
append_all head (x ∷ y ∷ xs) = append_varint head x >>= λ h. append_all h (y ∷ xs)

unfoldable pub put_all : List ℤ → Bytes
put_all [] = []
put_all (x ∷ []) = put_varint x
put_all (x ∷ y ∷ xs) = put_varint x ++ put_all (y ∷ xs)

append_all-put_all :
    (head : Bytes) (xs : List ℤ)
    → length head + length (put_all xs) ≤ max_header_size
    → append_all head xs ≡ ok (head ++ put_all xs)
unfolding append_all put_all
append_all-put_all head [] h = ap ok (sym (append-nil head))
append_all-put_all head (x ∷ []) h = append_varint-le head x h
append_all-put_all head (x ∷ y ∷ xs) h =
    let total = length-append (put_varint x) (put_all (y ∷ xs)) in
    let next = length-append head (put_varint x) in
    rw (append_varint-le head x (omega (arith, total))) (
      append_all-put_all (head ++ put_varint x) (y ∷ xs) (omega (arith, total, next))
      ∙ ap ok (append_assoc head (put_varint x) (put_all (y ∷ xs))))

encode_fields_lem :
    (e : LogEntry)
    → 5 + length (fields e) ≤ max_header_size
    → encode_fields e ≡ ok (0 ∷ 0 ∷ 0 ∷ 0 ∷ e.stat ∷ fields e)
unfolding encode_fields fields append_all put_all
encode_fields_lem e h =
    append_all-put_all (0 ∷ 0 ∷ 0 ∷ 0 ∷ e.stat ∷ [])
      (e.expired_at
        ∷ signed64 e.tx_id
        ∷ pos e.tx_stat
        ∷ pos (length e.key)
        ∷ pos (length e.value)
        ∷ [])
      (omega arith)

pub length-entry_bytes :
    (e : LogEntry) → length (entry_bytes e) ≡ 5 + length (fields e) + length e.key + length e.value
unfolding put_u32
length-entry_bytes e =
    omega (arith, length-append (fields e) (e.key ++ e.value), length-append e.key e.value)

-- `encode_entry` writes the checksum, the header and the two slices, and tells their length.
pub encode_entry_lem :
    (e : LogEntry)
    → 5 + length (fields e) ≤ max_header_size
    → encode_entry e ≡ ok (entry_bytes e, length (entry_bytes e))
unfolding encode_entry
encode_entry_lem e h =
    let head : Bytes = 0 ∷ 0 ∷ 0 ∷ 0 ∷ e.stat ∷ fields e in
    let size : length head + length e.key + length e.value ≡ length (entry_bytes e) =
      omega (arith, length-entry_bytes e) in
    rw (encode_fields_lem e h) (ap (λ (n : ℕ). ok (entry_bytes e, n)) size)
