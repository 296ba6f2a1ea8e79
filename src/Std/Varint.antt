-- ===== src/Std/Varint.antt =====
-- encoding/binary: variable-length integers, seven bits a byte, lowest group first.
use lazy_db.Prelude.{
  ℕ, zero, suc, ◌+◌, ◌-◌, ◌*◌, ◌/◌, ◌%◌, ◌^◌, ◌≤◌, ◌<◌, ◌≡◌, ap, [], ◌∷◌, ◌++◌, arith, Bytes,
  length, ltb, ◌==◌, if◌then◌else◌, ◌&&◌,
}
use lazy_db.Prelude.Int.{ℤ, pos, negsuc, word64, signed64, IsI64}
use mathlib.Core.Path.{subst}
use native.Mathlib.Nat.{div-add-mod}
use native.Mathlib.Numerals.{towards_suc}

-- The bytes that `PutUvarint` writes; nine rounds are enough below 2 ^ 64.
unfoldable pub put_groups : ℕ → ℕ → Bytes
put_groups zero x = x % 256 ∷ []
put_groups (suc k) x =
    let rest = put_groups k (x / 128) in if ltb x 128 then x ∷ [] else (x % 128 + 128) ∷ rest

unfoldable pub put_uvarint : ℕ → Bytes
put_uvarint x = put_groups 9 x

-- `Uvarint` gives the value and the bytes read: 0 for a short buffer, negative on an overflow.
-- `x` is what was read, `i` the index of the byte, `s` its shift.
unfoldable pub uvarint_loop : Bytes → ℕ → ℕ → ℕ → ℕ × ℤ
uvarint_loop [] x i s = (0, pos 0)
uvarint_loop (b ∷ bs) x i s =
    let rest = uvarint_loop bs ((x + b % 128 * 2 ^ s) % 2 ^ 64) (i + 1) (s + 7) in
    if i == 10
    then (0, negsuc i)
    else if ltb b 128
    then (if i == 9 && ltb 1 b then (0, negsuc i) else ((x + b * 2 ^ s) % 2 ^ 64, pos (i + 1)))
    else rest

unfoldable pub uvarint : Bytes → ℕ × ℤ
uvarint buf = uvarint_loop buf 0 0 0

-- `PutVarint`: the sign goes to the lowest bit.
unfoldable pub zigzag : ℤ → ℕ
zigzag (pos n) = word64 (pos n) * 2 % 2 ^ 64
zigzag (negsuc n) = 2 ^ 64 - 1 - word64 (negsuc n) * 2 % 2 ^ 64

unfoldable pub put_varint : ℤ → Bytes
put_varint x = put_uvarint (zigzag x)

unfoldable pub unzigzag : ℕ → ℤ
unzigzag u = let x = u / 2 in if u % 2 == 0 then signed64 x else signed64 (2 ^ 64 - 1 - x)

unfoldable pub varint : Bytes → ℤ × ℤ
varint buf = let (u, n) = uvarint buf in (unzigzag u, n)

pub unzigzag-zigzag : (x : ℤ) → IsI64 x → unzigzag (zigzag x) ≡ x
unfolding unzigzag zigzag signed64 word64
unzigzag-zigzag (pos n) h = ground arith
unzigzag-zigzag (negsuc n) h = ground arith

pub zigzag-lt : (x : ℤ) → zigzag x < 2 ^ 64
unfolding zigzag
zigzag-lt (pos n) = omega arith
zigzag-lt (negsuc n) = omega arith

pub length-put_groups :
    (k x : ℕ) → (1 ≤ length (put_groups k x)) × (length (put_groups k x) ≤ k + 1)
unfolding put_groups
length-put_groups zero x = omega arith
length-put_groups (suc k) x = ground (arith, length-put_groups k (x / 128))

-- A value below 128 ^ (j + 1) takes at most j + 1 bytes.
pub length-put_groups_le : (j k x : ℕ) → x < 128 ^ suc j → j ≤ k → length (put_groups k x) ≤ j + 1
unfolding put_groups
length-put_groups_le zero zero x h le = omega arith
length-put_groups_le zero (suc k) x h le = ground arith
length-put_groups_le (suc j) zero x h le = absurd (omega arith)
length-put_groups_le (suc j) (suc k) x h le =
    ground (arith, length-put_groups_le j k (x / 128) (omega arith) (omega arith))

group_shift : (s : ℕ) → 2 ^ (s + 7) ≡ 128 * 2 ^ s
group_shift s = simp towards_suc (omega arith)

-- `x` shifted by `s` is its lowest group and the rest, both shifted.
split_low : (x s : ℕ) → x * 2 ^ s ≡ x % 128 * 2 ^ s + x / 128 * 2 ^ (s + 7)
split_low x s = omega (
  arith,
  ap (λ (t : ℕ). t * 2 ^ s) (div-add-mod x 128),
  ap (λ (t : ℕ). x / 128 * t) (group_shift s),
)

-- At the tenth byte only one bit is left.
last_bit : (w x s : ℕ) → s ≡ 63 → x + w * 2 ^ s < 2 ^ 64 → w ≤ 1
last_bit w x s e fits =
    let h : x + w * 2 ^ 63 < 2 ^ 64 = subst (λ (t : ℕ). x + w * 2 ^ t < 2 ^ 64) e fits in
    omega arith

final_byte :
    (w x i s : ℕ) (rest : Bytes)
    → w < 128
    → i ≤ 9
    → s ≡ 7 * i
    → x + w * 2 ^ s < 2 ^ 64
    → uvarint_loop (w ∷ rest) x i s ≡ (x + w * 2 ^ s, pos (i + 1))
unfolding uvarint_loop
final_byte w x i s rest hw hi hs fits = ground (arith, last_bit w x s)

more_byte :
    (g x i s : ℕ) (rest : Bytes)
    → g < 128
    → i ≤ 9
    → x + g * 2 ^ s < 2 ^ 64
    → uvarint_loop ((g + 128) ∷ rest) x i s ≡ uvarint_loop rest (x + g * 2 ^ s) (i + 1) (s + 7)
unfolding uvarint_loop
more_byte g x i s rest hg hi fits = ground arith

uvarint_loop-put_groups :
    (k w x i s : ℕ) (rest : Bytes)
    → i + k ≡ 9
    → s ≡ 7 * i
    → w < 128 ^ suc k
    → x + w * 2 ^ s < 2 ^ 64
    → uvarint_loop (put_groups k w ++ rest) x i s
      ≡ (x + w * 2 ^ s, pos (i + length (put_groups k w)))
unfolding put_groups
uvarint_loop-put_groups zero w x i s rest hi hs hw fits =
    let same : w % 256 ≡ w = omega arith in
    rw same (final_byte w x i s rest (omega arith) (omega arith) hs fits)
uvarint_loop-put_groups (suc k) w x i s rest hi hs hw fits = ground (
  arith,
  final_byte w x i s rest,
  split_low w s,
  more_byte (w % 128) x i s (put_groups k (w / 128) ++ rest),
  uvarint_loop-put_groups k (w / 128) (x + w % 128 * 2 ^ s) (i + 1) (s + 7) rest (omega arith)
      (omega arith) (omega arith),
)

-- `Uvarint` reads back what `PutUvarint` wrote, with its length, and leaves what follows.
pub uvarint-put_uvarint :
    (x : ℕ) (rest : Bytes)
    → x < 2 ^ 64
    → uvarint (put_uvarint x ++ rest) ≡ (x, pos (length (put_uvarint x)))
unfolding uvarint put_uvarint
uvarint-put_uvarint x rest h =
    ground (arith, uvarint_loop-put_groups 9 x 0 0 0 rest (omega arith) (omega arith) (omega arith))

pub varint-put_varint :
    (x : ℤ) (rest : Bytes)
    → IsI64 x
    → varint (put_varint x ++ rest) ≡ (x, pos (length (put_varint x)))
unfolding varint put_varint
varint-put_varint x rest h =
    rw (uvarint-put_uvarint (zigzag x) rest (zigzag-lt x), unzigzag-zigzag x h)

pub length-put_varint : (x : ℤ) → (1 ≤ length (put_varint x)) × (length (put_varint x) ≤ 10)
unfolding put_varint put_uvarint
length-put_varint x = length-put_groups 9 (zigzag x)

-- A nonnegative number below 2 ^ (7 * (j + 1) - 1) takes at most j + 1 bytes.
pub length-put_varint_le :
    (j n : ℕ) → j ≤ 9 → n < 2 ^ 63 → n * 2 < 128 ^ suc j → length (put_varint (pos n)) ≤ j + 1
unfolding put_varint put_uvarint zigzag word64
length-put_varint_le j n hj hn h =
    let e : n % 2 ^ 64 * 2 % 2 ^ 64 ≡ n * 2 = omega arith in
    rw e (length-put_groups_le j 9 (n * 2) h hj)
