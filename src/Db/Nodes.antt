-- ===== src/Db/Nodes.antt =====
-- The elements of a sorted set: `Node` of zset.go, and Float64ToByte and ByteToFloat64 of
-- util/conv.go for their scores.
pub mod Order
use lazy_db.Prelude.{Bool, true, false, Bytes, length, ltb, ◌&&◌, if◌then◌else◌}
use lazy_db.Prelude.Res.{Res, ok, ◌>>=◌}
use lazy_db.Prelude.Int.{ℤ, ltb_ℤ}
use lazy_db.Std.Endian.{put_u64, get_u64}
use lazy_db.Std.Float.{Scores}

module _ (fl : Scores) where
  -- `Node`
  pub record Node : Type 0 where
    pub score : fl.F
    pub member : Bytes

  -- `Less`: members with equal scores are ordered by their lengths.
  unfoldable pub less : Node → Node → Bool
  less n other =
      if fl.lt_f n.score other.score
      then true
      else if fl.eq_f n.score other.score && ltb (length n.member) (length other.member)
      then true
      else false

  -- `ByteToFloat64`, which panics on fewer than eight bytes.
  unfoldable pub byte_to_float64 : Bytes → Res fl.F
  byte_to_float64 bytes = do bits ← get_u64 bytes; ok (fl.from_bits bits)

  -- `Float64ToByte`
  unfoldable pub float64_to_byte : fl.F → Bytes
  float64_to_byte float = put_u64 (fl.to_bits float)

-- `util.Min`
unfoldable pub int_min : ℤ → ℤ → ℤ
int_min x y = if ltb_ℤ x y then x else y
