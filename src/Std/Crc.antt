-- ===== src/Std/Crc.antt =====
-- hash/crc32 with the IEEE polynomial, bit by bit.
use lazy_db.Prelude.{
  ℕ, ◌-◌, ◌/◌, ◌%◌, ◌^◌, ◌<◌, ◌≡◌, refl, [], ◌∷◌, ◌++◌, arith, bit_xor, Bytes, ◌==◌, if◌then◌else◌,
}

-- One bit of the register through the polynomial 0xedb88320.
crc_bit : ℕ → ℕ
crc_bit c = if c % 2 == 1 then bit_xor (c / 2) 0xedb88320 else c / 2

crc_byte : ℕ → ℕ → ℕ
unfolding crc_bit
crc_byte c b =
    let r = bit_xor c b in
    crc_bit (crc_bit (crc_bit (crc_bit (crc_bit (crc_bit (crc_bit (crc_bit r))))))) % 2 ^ 32

crc_loop : ℕ → Bytes → ℕ
crc_loop c [] = c
crc_loop c (b ∷ bs) = crc_loop (crc_byte c b) bs

-- `^crc` on 32 bits.
abbrev complement : ℕ → ℕ
complement c = 2 ^ 32 - 1 - c

-- `crc32.Update(crc, crc32.IEEETable, p)`
unfoldable pub crc_update : ℕ → Bytes → ℕ
unfolding crc_loop crc_byte
crc_update c p = complement (crc_loop (complement c) p)

-- `crc32.ChecksumIEEE(p)`
unfoldable pub checksum : Bytes → ℕ
checksum p = crc_update 0 p

crc_loop-lt : (c : ℕ) (p : Bytes) → c < 2 ^ 32 → crc_loop c p < 2 ^ 32
unfolding crc_loop
crc_loop-lt c [] h = h
crc_loop-lt c (b ∷ bs) h = crc_loop-lt (crc_byte c b) bs (unfold crc_byte in omega arith)

crc_loop-append : (c : ℕ) (p q : Bytes) → crc_loop c (p ++ q) ≡ crc_loop (crc_loop c p) q
unfolding crc_loop
crc_loop-append c [] q = refl
crc_loop-append c (b ∷ bs) q = crc_loop-append (crc_byte c b) bs q

-- Updating by one piece and then by another is updating by both at once.
pub crc_update-append :
    (c : ℕ) (p q : Bytes) → crc_update (crc_update c p) q ≡ crc_update c (p ++ q)
unfolding crc_update
crc_update-append c p q =
    let r = crc_loop (complement c) p in
    let e : complement (complement r) ≡ r =
      omega (arith, crc_loop-lt (complement c) p (omega arith)) in
    rw (crc_loop-append, e)

pub checksum-lt : (p : Bytes) → checksum p < 2 ^ 32
unfolding checksum crc_update
checksum-lt p = omega arith

-- The check value of the CRC-32 standard.
checksum_check : checksum (49 ∷ 50 ∷ 51 ∷ 52 ∷ 53 ∷ 54 ∷ 55 ∷ 56 ∷ 57 ∷ []) ≡ 0xcbf43926
unfolding checksum crc_update
checksum_check = refl
