-- ===== src/Std/Endian.antt =====
-- binary.LittleEndian on 32-bit words.
use lazy_db.Prelude.{
  ℕ, ◌+◌, ◌*◌, ◌/◌, ◌%◌, ◌^◌, ◌<◌, ◌≡◌, refl, [], ◌∷◌, ◌++◌, arith, Bytes, length, drop,
}
use lazy_db.Prelude.Res.{Res, ok, fatal, ◌>>=◌}

-- `PutUint32` into four bytes.
unfoldable pub put_u32 : ℕ → Bytes
put_u32 v = v % 256 ∷ v / 256 % 256 ∷ v / 65536 % 256 ∷ v / 16777216 % 256 ∷ []

-- `Uint32` reads the first four bytes, and panics on fewer.
unfoldable pub get_u32 : Bytes → Res ℕ
get_u32 (a ∷ b ∷ c ∷ d ∷ rest) = ok (a + b * 256 + c * 65536 + d * 16777216)
get_u32 _ = fatal

pub length-put_u32 : (v : ℕ) → length (put_u32 v) ≡ 4
unfolding put_u32
length-put_u32 v = refl

-- The word is read back, whatever bytes follow it.
pub get_u32-put_u32 : (v : ℕ) (rest : Bytes) → v < 2 ^ 32 → get_u32 (put_u32 v ++ rest) ≡ ok v
unfolding put_u32 get_u32
get_u32-put_u32 v rest h = ground arith

-- `PutUint64` into eight bytes, and `Uint64`.
unfoldable pub put_u64 : ℕ → Bytes
put_u64 v = put_u32 (v % 2 ^ 32) ++ put_u32 (v / 2 ^ 32 % 2 ^ 32)

unfoldable pub get_u64 : Bytes → Res ℕ
get_u64 buf = do low ← get_u32 buf; high ← get_u32 (drop 4 buf); ok (low + high * 2 ^ 32)

pub get_u64-put_u64 : (v : ℕ) → v < 2 ^ 64 → get_u64 (put_u64 v) ≡ ok v
unfolding get_u64 put_u64 put_u32 get_u32
get_u64-put_u64 v h = ground arith
