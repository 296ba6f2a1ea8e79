-- ===== src/Db/StrValues.antt =====
-- str.go: what the methods compute from the values, apart from the database.
pub mod Numbers
use lazy_db.Prelude.{
  ℕ, ◌+◌, ◌-◌, ◌^◌, Bool, false, Option, none, some, List, [], ◌∷◌, Bytes, length, take, drop, ◌==◌,
  ◌&&◌, ◌||◌, not, if◌then◌else◌,
}
use lazy_db.Prelude.Res.{Res, ok, err, fatal, key_not_found, wrong_value_type}
use lazy_db.Prelude.Int.{
  ℤ, pos, negsuc, ◌+ℤ◌, ◌-ℤ◌, ltb_ℤ, leb_ℤ, pos_part, is_zero, signed64, word64,
}
use lazy_db.Std.Decimal.{parse_int}
use lazy_db.Db.Index.{Value}

-- `val != nil` after a lookup that does not fail on a missing key.
abbrev pub or_nil : Res (Option Bytes) → Res (Option Bytes)
or_nil (ok v) = ok v
or_nil (err key_not_found) = ok none
or_nil (err e) = err e
or_nil fatal = fatal

-- A negative bound counts from the end, and stops at 0.
unfoldable pub from_end : ℕ → ℤ → ℤ
from_end n i =
    if ltb_ℤ i (pos 0) then (let j = pos n +ℤ i in if ltb_ℤ j (pos 0) then pos 0 else j) else i

-- The end of `GetRange`, over the value.
unfoldable pub cut_range : Bytes → ℤ → ℤ → Bytes
cut_range val start stop =
    if length val == 0
    then []
    else let n = length val in
      let start = from_end n start in
      let stop = from_end n stop in
      let stop = if ltb_ℤ (pos (n - 1)) stop then pos (n - 1) else stop in
      if ltb_ℤ (pos (n - 1)) start || ltb_ℤ stop start
      then []
      else take (pos_part stop + 1 - pos_part start) (drop (pos_part start) val)

-- The overflow test of `incrDecrBy`.
unfoldable pub overflows : ℤ → ℤ → Bool
overflows incr val =
    ltb_ℤ (pos 0) incr && ltb_ℤ (pos 0) val && ltb_ℤ (pos 9223372036854775807 -ℤ val) incr
    || ltb_ℤ incr (pos 0) && ltb_ℤ val (pos 0) && ltb_ℤ incr (negsuc 9223372036854775807 -ℤ val)

-- A slice read as its bytes: nil has none.
abbrev pub bytes_of : Option Bytes → Bytes
bytes_of none = []
bytes_of (some v) = v

-- `val`, with "0" in the place of an empty slice, as an integer.
unfoldable pub number_of : Bytes → Res ℤ
number_of val = elim (parse_int (if length val == 0 then b'0' ∷ [] else val)) [
  | none ↦ err wrong_value_type
  | some n ↦ ok n
]

-- `a + b` and `-a` on `int64`.
unfoldable pub add64 : ℤ → ℤ → ℤ
add64 a b = signed64 (word64 a + word64 b)

unfoldable pub neg64 : ℤ → ℤ
neg64 a = signed64 (2 ^ 64 - word64 a)

unfoldable pub elem : ℕ → List ℕ → Bool
elem h [] = false
elem h (x ∷ xs) = x == h || elem h xs

-- A lookup in `Scan`: a missing key is passed over, any other error ends the scan.
abbrev pub value_or_missing : Res (Option Bytes) → Res (Option (Option Bytes))
value_or_missing (ok v) = ok (some v)
value_or_missing (err key_not_found) = ok none
value_or_missing (err e) = err e
value_or_missing fatal = fatal

-- The keys of the leaves that have not expired, up to and with the second of expiry.
unfoldable pub live_keys : ℤ → List (Bytes × Value) → List Bytes
live_keys ts [] = []
live_keys ts ((key, node) ∷ rest) =
    let keys = live_keys ts rest in
    if not (is_zero node.expired_at) && leb_ℤ node.expired_at ts then keys else key ∷ keys
