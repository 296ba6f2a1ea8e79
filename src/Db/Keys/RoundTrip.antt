-- ===== src/Db/Keys/RoundTrip.antt =====
-- A key and a sub-key come back from their encoding.
use lazy_db.Prelude.{
  ℕ, ◌+◌, ◌^◌, ◌≤◌, ◌<◌, ◌≡◌, refl, sym, ap, ◌∙◌, false, Bytes, length, drop, ltb, [], ◌∷◌, ◌++◌,
  arith, append_assoc, append-nil, length-append, drop-drop, le→leb, drop-append_length,
  take-append_length, Bool-cases, inl, inr,
}
use lazy_db.Prelude.Res.{Res, ok, err, fatal, ◌>>=◌}
use lazy_db.Prelude.Int.{pos, pos-add}
use lazy_db.Std.Varint.{put_varint, length-put_varint, length-put_varint_le}
use lazy_db.Logfile.Entry.{slice_from}
use lazy_db.Logfile.Header.{At, next_varint_lem}
use lazy_db.Db.Keys.{put_length, encode_key, decode_key, encode_header_size}

-- The bytes of an encoded key.
abbrev pub key_bytes : Bytes → Bytes → Bytes
key_bytes key sub_key =
    put_varint (pos (length key)) ++ (put_varint (pos (length sub_key)) ++ (key ++ sub_key))

-- The length takes five bytes at most.
abbrev pub IsShort : Bytes → Type 0
IsShort key = length key < 2 ^ 34

length_size : (key : Bytes) → IsShort key → length (put_varint (pos (length key))) ≤ 5
length_size key h = length-put_varint_le 4 (length key) (omega arith) (omega arith) (omega arith)

pub length-key_bytes :
    (key sub_key : Bytes) → length (key_bytes key sub_key) ≤ 20 + length key + length sub_key
length-key_bytes key sub_key =
    let c = pos (length key) in
    let d = pos (length sub_key) in
    omega (
      arith,
      length-append (put_varint c) (put_varint d ++ (key ++ sub_key)),
      length-append (put_varint d) (key ++ sub_key),
      length-append key sub_key,
      length-put_varint c,
      length-put_varint d,
    )

put_length_lem :
    (header : Bytes) (n : ℕ)
    → length header + length (put_varint (pos n)) ≤ encode_header_size
    → put_length header n ≡ ok (header ++ put_varint (pos n))
unfolding put_length
put_length_lem header n h = rw (length-append header (put_varint (pos n)), le→leb _ _ h)

empty_tail :
    (a b key sub_key : Bytes)
    → ltb 0 (length key + length sub_key) ≡ false
    → a ++ b ≡ (a ++ b) ++ (key ++ sub_key)
empty_tail a b [] [] h = sym (append-nil (a ++ b))
empty_tail a b [] (x ∷ xs) h = absurd (ground arith)
empty_tail a b (x ∷ xs) sub_key h = absurd (ground arith)

pub encode_key_lem :
    (key sub_key : Bytes)
    → IsShort key
    → IsShort sub_key
    → encode_key key sub_key ≡ ok (key_bytes key sub_key)
unfolding encode_key
encode_key_lem key sub_key hk hs =
    let a = put_varint (pos (length key)) in
    let b = put_varint (pos (length sub_key)) in
    let small = length_size key hk in
    let small2 = length_size sub_key hs in
    let whole = append_assoc a b (key ++ sub_key) in
    rw (put_length_lem [] (length key) (omega (arith, small))) (
      rw (put_length_lem a (length sub_key) (omega (arith, small, small2)))
        (elim (Bool-cases (ltb 0 (length key + length sub_key))) [
          | inl some_byte ↦ rw some_byte (ap ok whole)
          | inr no_byte ↦ rw no_byte (ap ok (empty_tail a b key sub_key no_byte ∙ whole))
        ]))

slice_lem : (buf rest : Bytes) (n : ℕ) → At buf n rest → slice_from buf (pos n) ≡ ok rest
unfolding slice_from
slice_lem buf rest n (e, l) = rw (le→leb n (length buf) (omega arith), e)

drop_more :
    (key sub_key buf : Bytes) (n : ℕ) → At buf n (key ++ sub_key) → At buf (n + length key) sub_key
drop_more key sub_key buf n (e, l) =
    let total = length-append key sub_key in
    (
      sym (drop-drop n (length key) buf)
          ∙ ap (λ b. drop (length key) b) e
          ∙ drop-append_length (length key) key sub_key refl,
      omega (arith, total),
    )

-- For a key and a sub-key shorter than 2 ^ 34 bytes, `encodeKey` succeeds, and `decodeKey` gives
-- the two back.
pub decode_key-encode_key :
    (key sub_key : Bytes)
    → IsShort key
    → IsShort sub_key
    → (encode_key key sub_key >>= decode_key) ≡ ok (key, sub_key)
unfolding decode_key
decode_key-encode_key key sub_key hk hs =
    let buf = key_bytes key sub_key in
    let c = pos (length key) in
    let d = pos (length sub_key) in
    let (e1, a1) = next_varint_lem buf _ 0 c (omega arith) (refl, omega arith) in
    let (e2, a2) = next_varint_lem buf _ _ d (omega arith) a1 in
    let nonneg : ltb (length key + 0) 0 ≡ false = ground arith in
    let a3 = drop_more key sub_key buf _ a2 in
    rw (encode_key_lem key sub_key hk hs) (
      rw (
        e1,
        e2,
        slice_lem buf _ _ a2,
        pos-add,
        slice_lem buf _ _ a3,
        take-append_length (length key) key sub_key refl,
        nonneg,
      ))

abbrev pair_of : Res (Bytes × Bytes) → Bytes × Bytes
pair_of (ok p) = p
pair_of (err e) = ([], [])
pair_of fatal = ([], [])

-- Different pairs have different encodings.
pub encode_key-injective :
    (key sub_key key' sub_key' : Bytes)
    → IsShort key
    → IsShort sub_key
    → IsShort key'
    → IsShort sub_key'
    → encode_key key sub_key ≡ encode_key key' sub_key'
    → (key ≡ key') × (sub_key ≡ sub_key')
encode_key-injective key sub_key key' sub_key' a b c d e =
    let same =
      sym (decode_key-encode_key key sub_key a b)
      ∙ ap (λ r. r >>= decode_key) e
      ∙ decode_key-encode_key key' sub_key' c d in
    (ap (λ r. (pair_of r).0) same, ap (λ r. (pair_of r).1) same)
