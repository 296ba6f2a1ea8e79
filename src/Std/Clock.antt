-- ===== src/Std/Clock.antt =====
-- package time: an instant or a duration is a number of nanoseconds.
use lazy_db.Prelude.{◌/◌}
use lazy_db.Prelude.Int.{ℤ, pos, negsuc}

-- `t.Unix()`: seconds, rounded down.
unfoldable pub unix : ℤ → ℤ
unix (pos n) = pos (n / 1000000000)
unix (negsuc n) = negsuc (n / 1000000000)
