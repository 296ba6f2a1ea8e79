-- ===== src/Logfile/Header.antt =====
-- The header of an entry, decoded.
use lazy_db.Prelude.{
  ℕ, ◌+◌, ◌%◌, ◌^◌, ◌<◌, ◌≡◌, refl, sym, ap, ◌∙◌, [], ◌∷◌, ◌++◌, append_assoc, arith, Bytes, length,
  drop, leb, le→leb, false, length-append, drop-append_length, drop-drop,
}
use mathlib.Core.Path.{subst}
use lazy_db.Prelude.Res.{ok}
use lazy_db.Prelude.Int.{ℤ, pos, signed64, word64, pos-add, IsI64, signed64-IsI64, word64-signed64}
use lazy_db.Std.Endian.{put_u32, get_u32, get_u32-put_u32}
use lazy_db.Std.Varint.{put_varint, varint-put_varint}
use lazy_db.Std.Crc.{checksum, crc_update, checksum-lt, crc_update-append}
use lazy_db.Logfile.Entry.{
  LogEntry, slice_from, next_varint, first_byte, decode_header, get_entry_crc,
}
use lazy_db.Logfile.Codec.{fields, body, header, IsEncodable}

-- `rest` is what the buffer holds from `n` on.
abbrev pub At : Bytes → ℕ → Bytes → Type 0
At buf n rest = (drop n buf ≡ rest) × (n + length rest ≡ length buf)

pub next_varint_lem :
    (buf rest : Bytes) (n : ℕ) (x : ℤ)
    → IsI64 x
    → At buf n (put_varint x ++ rest)
    → (next_varint buf (pos n) ≡ ok (x, pos (n + length (put_varint x))))
      × At buf (n + length (put_varint x)) rest
unfolding next_varint slice_from
next_varint_lem buf rest n x fits (e, l) =
    let total = length-append (put_varint x) rest in
    (
      rw (le→leb n (length buf) (omega (arith, total)), e, varint-put_varint x rest fits, pos-add),
      (
        sym (drop-drop n (length (put_varint x)) buf)
            ∙ ap (λ b. drop (length (put_varint x)) b) e
            ∙ drop-append_length (length (put_varint x)) (put_varint x) rest refl,
        omega (arith, total),
      ),
    )

-- The entry that a header gives: everything but the slices.
abbrev pub head_entry : LogEntry → LogEntry
head_entry e = record {
  crc = checksum (body e);
  expired_at = e.expired_at;
  stat = e.stat;
  tx_id = e.tx_id;
  tx_stat = e.tx_stat;
  k_size = length e.key;
  v_size = length e.value;
  key = [];
  value = [];
}

u16_back : (v : ℕ) → v < 2 ^ 16 → word64 (pos v) % 2 ^ 16 ≡ v
unfolding word64
u16_back v h = omega arith

u32_back : (v : ℕ) → v < 2 ^ 32 → word64 (pos v) % 2 ^ 32 ≡ v
unfolding word64
u32_back v h = omega arith

fields_regroup :
    (e : LogEntry) (rest : Bytes)
    → fields e ++ rest
      ≡ put_varint e.expired_at
        ++ (put_varint (signed64 e.tx_id)
            ++ (put_varint (pos e.tx_stat)
                ++ (put_varint (pos (length e.key))
                    ++ (put_varint (pos (length e.value)) ++ rest))))
unfolding fields
fields_regroup e rest = simp append_assoc

pub length-fields :
    (e : LogEntry)
    → length (fields e)
      ≡ length (put_varint e.expired_at)
        + length (put_varint (signed64 e.tx_id))
        + length (put_varint (pos e.tx_stat))
        + length (put_varint (pos (length e.key)))
        + length (put_varint (pos (length e.value)))
unfolding fields
length-fields e = simp length-append (omega arith)

pub length-header : (e : LogEntry) → length (header e) ≡ 5 + length (fields e)
unfolding put_u32
length-header e = omega arith

header-crc : (e : LogEntry) (rest : Bytes) → get_u32 (header e ++ rest) ≡ ok (checksum (body e))
header-crc e rest =
    rw (append_assoc (put_u32 (checksum (body e))) (e.stat ∷ fields e) rest)
      (get_u32-put_u32 (checksum (body e)) _ (checksum-lt (body e)))

header-stat :
    (e : LogEntry) (rest : Bytes)
    → slice_from (header e ++ rest) (pos 4) ≡ ok (e.stat ∷ (fields e ++ rest))
unfolding slice_from put_u32
header-stat e rest = ground arith

header-start : (e : LogEntry) (rest : Bytes) → At (header e ++ rest) 5 (fields e ++ rest)
unfolding put_u32
header-start e rest = (refl, omega arith)

-- `decodeHeader` of the header of an encodable entry, whatever follows it in the buffer, gives
-- the checksum, the fields and the lengths that were written, and the header's size.
pub decode_header-header :
    (e : LogEntry) (rest : Bytes)
    → IsEncodable e
    → decode_header (header e ++ rest) ≡ ok (head_entry e, pos (length (header e)))
unfolding decode_header first_byte
decode_header-header e rest able =
    let buf = header e ++ rest in
    let c = pos (length e.key) in
    let d = pos (length e.value) in
    let start = header-start e rest in
    let (e1, a1) =
      next_varint_lem buf _ 5 e.expired_at able.time
        (subst (λ (r : Bytes). At buf 5 r) (fields_regroup e rest) start) in
    let (e2, a2) = next_varint_lem buf _ _ (signed64 e.tx_id) (signed64-IsI64 _) a1 in
    let (e3, a3) = next_varint_lem buf _ _ (pos e.tx_stat) (omega (arith, able.state)) a2 in
    let (e4, a4) = next_varint_lem buf _ _ c (omega (arith, able.short_key)) a3 in
    let (e5, a5) = next_varint_lem buf rest _ d (omega (arith, able.short_value)) a4 in
    let size : 5
          + length (put_varint e.expired_at)
          + length (put_varint (signed64 e.tx_id))
          + length (put_varint (pos e.tx_stat))
          + length (put_varint c)
          + length (put_varint d)
        ≡ length (header e) =
      omega (arith, length-fields e, length-header e) in
    rw (header-crc e rest, header-stat e rest, e1, e2, e3, e4, e5)
      (rw
        (
          word64-signed64 e.tx_id able.id,
          u16_back e.tx_stat able.state,
          u32_back (length e.key) able.short_key,
          u32_back (length e.value) able.short_value,
        )
        (ap (λ (n : ℕ). ok (head_entry e, pos n)) size))

pub drop-header : (e : LogEntry) → drop 4 (header e) ≡ e.stat ∷ fields e
unfolding put_u32
drop-header e = refl

-- The checksum over the header and the slices is the one that was written.
pub get_entry_crc-header :
    (e le : LogEntry)
    → le.key ≡ e.key
    → le.value ≡ e.value
    → get_entry_crc (header e) le ≡ checksum (body e)
unfolding get_entry_crc checksum
get_entry_crc-header e le hk hv =
    let long : leb (length (header e)) 4 ≡ false = ground (arith, length-header e) in
    let first = e.stat ∷ fields e in
    rw (long, drop-header e, hk, hv)
      (ap (λ c. crc_update c e.value) (crc_update-append 0 first e.key)
        ∙ crc_update-append 0 (first ++ e.key) e.value
        ∙ ap (λ b. crc_update 0 b) (append_assoc first e.key e.value))
