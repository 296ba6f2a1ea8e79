-- ===== src/Db/Lists/Numbers.antt =====
-- The keys of list entries, the meta entry, and the numbers of elements.
use lazy_db.Prelude.{
  ℕ, ◌+◌, ◌^◌, ◌<◌, ◌≡◌, refl, sym, ap, ◌∙◌, false, [], ◌++◌, Bytes, length, drop, ◌==◌, arith,
  append-nil,
}
use lazy_db.Prelude.Res.{ok}
use lazy_db.Prelude.Int.{ℤ, pos, negsuc}
use lazy_db.Std.Endian.{put_u32, get_u32, get_u32-put_u32}
use lazy_db.Db.Lists.{encode_list_key, decode_list_key, l_sequence, decode_meta}

drop_u32 : (x : ℕ) (rest : Bytes) → drop 4 (put_u32 x ++ rest) ≡ rest
unfolding put_u32
drop_u32 x rest = refl

-- `decodeListKey` of the key that `encodeListKey` makes of a key and a sequence number below 2 ^
-- 32 gives the two back.
pub decode_list_key-encode_list_key :
    (key : Bytes) (seq : ℕ)
    → seq < 2 ^ 32
    → decode_list_key (encode_list_key key seq) ≡ ok (key, seq)
unfolding decode_list_key encode_list_key
decode_list_key-encode_list_key key seq h = rw (get_u32-put_u32 seq key h, drop_u32 seq key)

-- The head and tail numbers, both below 2 ^ 32, that `saveLMeta` puts into a meta entry's value
-- are the ones that `lMeta` reads out of it.
pub decode_meta-saved :
    (head_seq tail_seq : ℕ)
    → head_seq < 2 ^ 32
    → tail_seq < 2 ^ 32
    → decode_meta (put_u32 head_seq ++ put_u32 tail_seq) ≡ ok (head_seq, tail_seq)
unfolding decode_meta
decode_meta-saved h t hh ht =
    let some_byte : (length (put_u32 h ++ put_u32 t) == 0) ≡ false = unfold put_u32 in refl in
    let tail : get_u32 (put_u32 t) ≡ ok t =
      ap get_u32 (sym (append-nil (put_u32 t))) ∙ get_u32-put_u32 t [] ht in
    rw some_byte (rw (get_u32-put_u32 h (put_u32 t) hh, drop_u32 h (put_u32 t), tail))

-- The place of an index in a list of `n` elements, from the front.
abbrev pub Place : ℕ → ℤ → ℕ → Type 0
Place n (pos k) i = k ≡ i
Place n (negsuc k) i = k + 1 + i ≡ n

-- In a list of n elements behind its head number, whose tail number is below 2 ^ 32, `lSequence`
-- of an index, from the front or by a negative number from the end, that stands for the place i
-- gives the number of the element there, the head number plus i plus one.
pub l_sequence_lem :
    (head_seq n i : ℕ) (index : ℤ)
    → head_seq + n + 1 < 2 ^ 32
    → i < n
    → Place n index i
    → l_sequence head_seq (head_seq + n + 1) index ≡ head_seq + 1 + i
unfolding l_sequence
l_sequence_lem head_seq n i (pos k) h lt p = omega arith
l_sequence_lem head_seq n i (negsuc k) h lt p = omega arith
