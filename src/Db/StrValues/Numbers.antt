-- ===== src/Db/StrValues/Numbers.antt =====
-- The numbers of `incrDecrBy` and the bounds of `GetRange`.
use lazy_db.Prelude.{ℕ, ◌+◌, ◌-◌, ◌≤◌, ◌<◌, ◌≡◌, ◌⊎◌, true, false, Bytes, length, take, drop, arith}
use lazy_db.Prelude.Int.{ℤ, pos, negsuc, ◌+ℤ◌, ◌-ℤ◌, signed64, word64, IsI64}
use lazy_db.Db.StrValues.{from_end, cut_range, overflows, add64}

-- For two `int64` values the overflow test of `incrDecrBy` is exact: either it fails, the exact
-- sum is an `int64` and the machine's sum is that sum, or it holds and the exact sum is no
-- `int64`.
pub overflows_exact :
    (incr n : ℤ)
    → IsI64 incr
    → IsI64 n
    → ((overflows incr n ≡ false) × IsI64 (n +ℤ incr) × (add64 n incr ≡ n +ℤ incr))
      ⊎ ((overflows incr n ≡ true) × ¬ IsI64 (n +ℤ incr))
unfolding overflows add64 signed64 word64 ◌+ℤ◌ ◌-ℤ◌
overflows_exact (pos a) (pos b) h1 h2 = ground arith
overflows_exact (pos a) (negsuc b) h1 h2 = ground arith
overflows_exact (negsuc a) (pos b) h1 h2 = ground arith
overflows_exact (negsuc a) (negsuc b) h1 h2 = ground arith

-- The index that a bound stands for: a negative one counts from the end.
abbrev pub Denotes : ℕ → ℤ → ℕ → Type 0
Denotes n (pos k) i = k ≡ i
Denotes n (negsuc k) i = k + 1 + i ≡ n

from_end_lem : (n : ℕ) (b : ℤ) (i : ℕ) → Denotes n b i → from_end n b ≡ pos i
unfolding from_end ◌+ℤ◌
from_end_lem n (pos k) i d = ground arith
from_end_lem n (negsuc k) i d = ground arith

-- `GetRange` between two bounds that stand for the indexes i and j of the value, from the front
-- or by a negative number from the end, with i at most j, gives the bytes from i to j, both
-- included.
pub cut_range_lem :
    (val : Bytes) (start stop : ℤ) (i j : ℕ)
    → Denotes (length val) start i
    → Denotes (length val) stop j
    → i ≤ j
    → j < length val
    → cut_range val start stop ≡ take (j + 1 - i) (drop i val)
unfolding cut_range
cut_range_lem val start stop i j d1 d2 le lt =
    rw (from_end_lem (length val) start i d1, from_end_lem (length val) stop j d2) (ground arith)
