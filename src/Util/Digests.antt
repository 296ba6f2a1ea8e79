-- ===== src/Util/Digests.antt =====
-- The hash of a member depends on the member alone, and tells the 128 bits.
use lazy_db.Prelude.{
  ℕ, ◌^◌, ◌<◌, ◌≡◌, ◌==◌, refl, sym, ap, ◌∙◌, true, Bytes, length, ◌++◌, [], append-nil, drop,
  drop-append_length, arith,
}
use lazy_db.Prelude.Res.{Res, ok}
use lazy_db.Prelude.Int.{ℤ, pos}
use lazy_db.Std.Varint.{put_uvarint, uvarint, uvarint-put_uvarint}
use lazy_db.Util.{Hash128, IsHash, encode_sum128, write, digest}

-- The first word is read back, so two sums with one encoding have one first word.
first_word :
    (a b c d : ℕ)
    → a < 2 ^ 64
    → c < 2 ^ 64
    → put_uvarint a ++ put_uvarint b ≡ put_uvarint c ++ put_uvarint d
    → a ≡ c
first_word a b c d ha hc same =
    ap (λ (r : ℕ × ℤ). r.0)
      (sym (uvarint-put_uvarint a (put_uvarint b) ha)
        ∙ ap uvarint same
        ∙ uvarint-put_uvarint c (put_uvarint d) hc)

word_alone : (a c : ℕ) → a < 2 ^ 64 → c < 2 ^ 64 → put_uvarint a ≡ put_uvarint c → a ≡ c
word_alone a c ha hc same =
    let read : (x : ℕ) → x < 2 ^ 64 → uvarint (put_uvarint x) ≡ (x, pos (length (put_uvarint x))) =
      λ x hx. ap uvarint (sym (append-nil (put_uvarint x))) ∙ uvarint-put_uvarint x [] hx in
    ap (λ (r : ℕ × ℤ). r.0) (sym (read a ha) ∙ ap uvarint same ∙ read c hc)

encode_sum128-inj :
    (a b c d : ℕ)
    → a < 2 ^ 64
    → b < 2 ^ 64
    → c < 2 ^ 64
    → d < 2 ^ 64
    → encode_sum128 (a, b) ≡ encode_sum128 (c, d)
    → (a ≡ c) × (b ≡ d)
unfolding encode_sum128
encode_sum128-inj a b c d ha hb hc hd same =
    let first = first_word a b c d ha hc same in
    let rest : put_uvarint b ≡ put_uvarint d =
      sym (drop-append_length (length (put_uvarint a)) (put_uvarint a) (put_uvarint b) refl)
      ∙ ap (drop (length (put_uvarint a))) same
      ∙ ap (λ (n : ℕ). drop (length (put_uvarint n)) (put_uvarint c ++ put_uvarint d)) first
      ∙ drop-append_length (length (put_uvarint c)) (put_uvarint c) (put_uvarint d) refl in
    (first, word_alone b d hb hd rest)

bytes_in : Res Bytes → Bytes
bytes_in (ok b) = b
bytes_in r = []

module _ (h : Hash128) (law : IsHash h) where
  -- The words of a member.
  abbrev pub words_of : Bytes → ℕ × ℕ
  words_of mem = h.sum128 (h.write h.new128 mem).1

  -- Where the hash of the package takes all bytes and a reset makes it new, `Write`,
  -- `EncodeSum128` and `Reset` on the hash that the methods on sets share, one after the other,
  -- give the encoding of the two words that a new hash has for the member, and leave the shared
  -- hash new for the next member.
  pub digest_lem :
      (mem : Bytes) → digest h mem h.new128 ≡ (ok (encode_sum128 (words_of mem)), h.new128)
  unfolding digest write
  digest_lem mem =
      let took = law.takes_all h.new128 mem in
      let all : (length mem == length mem) ≡ true = ground arith in
      rw took (rw all (rw (law.reset_new (h.write h.new128 mem).1) refl))

  -- Where the hash of the package takes all bytes, gives words of 64 bits and a reset makes it
  -- new, two members that the methods on sets hash to the same bytes have the same two words:
  -- the encoding of the 128 bits loses nothing.
  pub equal_digests :
      (mem other : Bytes)
      → digest h mem h.new128 ≡ digest h other h.new128
      → words_of mem ≡ words_of other
  unfolding bytes_in
  equal_digests mem other same =
      let sums : encode_sum128 (words_of mem) ≡ encode_sum128 (words_of other) =
        ap (λ (r : Res Bytes × h.H). bytes_in r.0)
          (sym (digest_lem mem) ∙ same ∙ digest_lem other) in
      let (a, b) = words_of mem in
      let (c, d) = words_of other in
      let (ha, hb) = law.words (h.write h.new128 mem).1 in
      let (hc, hd) = law.words (h.write h.new128 other).1 in
      let (first, second) = encode_sum128-inj a b c d ha hb hc hd sums in
      ap (λ (x : ℕ). (x, b)) first ∙ ap (λ (y : ℕ). (c, y)) second
