-- ===== src/Util.antt =====
-- util/hash.go: the hash of set members, and the hash of keys in MSetNX. The 128-bit hash of the
-- package spaolacci/murmur3 and the hash of Go's runtime are parameters.
pub mod Digests
use lazy_db.Prelude.{
  ℕ, ◌+◌, ◌*◌, ◌/◌, ◌%◌, ◌^◌, ◌<◌, ◌≡◌, Bool, Option, none, some, Bytes, length, ◌++◌, ◌==◌,
  if◌then◌else◌,
}
use lazy_db.Prelude.Res.{Res, Error, ok, err, short_write}
use lazy_db.Prelude.Exec.{Exec, gets, pure, ◌>>=◌, ◌>>◌}
use lazy_db.Std.Varint.{put_uvarint}

-- `murmur3.Hash128`
pub record Hash128 : Type 1 where
  pub H : Type 0
  pub new128 : H
  -- The bytes taken, an error if there is one, and the hash after them.
  pub write : H → Bytes → (ℕ × Option Error) × H
  pub sum128 : H → ℕ × ℕ
  pub reset : H → H

-- What `hash.Hash` documents: a write takes all bytes and never fails, and a reset gives the state
-- of a new hash.
pub record IsHash (h : Hash128) : Type 0 where
  pub takes_all : (x : h.H) (p : Bytes) → (h.write x p).0 ≡ (length p, none)
  pub reset_new : (x : h.H) → h.reset x ≡ h.new128
  pub words : (x : h.H) → ((h.sum128 x).0 < 2 ^ 64) × ((h.sum128 x).1 < 2 ^ 64)

abbrev pub of_error : Option Error → Res (Unit {0})
of_error none = ok tt
of_error (some e) = err e

-- `EncodeSum128`, of the two words.
unfoldable pub encode_sum128 : ℕ × ℕ → Bytes
encode_sum128 (s1, s2) = put_uvarint s1 ++ put_uvarint s2

module _ (h : Hash128) where
  -- `Murmur128.Write`
  unfoldable pub write : Bytes → Exec h.H (Unit {0})
  write p m =
      let ((n, e), m') = h.write m p in (if n == length p then of_error e else err short_write, m')

  -- `Murmur128.Reset`
  abbrev pub reset : Exec h.H (Unit {0})
  reset m = (ok tt, h.reset m)

  -- What the methods on sets do to hash a member.
  unfoldable pub digest : Bytes → Exec h.H Bytes
  digest mem = do write mem; sum ← gets (λ m. encode_sum128 (h.sum128 m)); reset; pure sum

-- `rthash`, on machines with words of 64 or of 32 bits; the two halves share no bit.
unfoldable pub rthash : Bool → (Bytes → ℕ → ℕ) → Bytes → ℕ → ℕ
rthash wide memhash b seed =
    if length b == 0
    then seed
    else if wide
    then memhash b seed
    else memhash b (seed / 2 ^ 32 % 2 ^ 32) * 2 ^ 32 + memhash b (seed % 2 ^ 32)

-- `MemHash`
unfoldable pub mem_hash : Bool → (Bytes → ℕ → ℕ) → Bytes → ℕ
mem_hash wide memhash buf = rthash wide memhash buf 923
