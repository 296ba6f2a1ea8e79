-- ===== src/Ds/ConcurrentMap.antt =====
-- ds/concurrent_map.go. The shard's lock is held over one call, so a call is one step.
pub mod Laws
use lazy_db.Prelude.{
  ℕ, zero, suc, ◌+◌, ◌*◌, ◌%◌, ◌^◌, ◌≡◌, Bool, Option, none, some, List, [], ◌∷◌, Bytes, length,
  get_elem?, set, replicate, bit_xor, ◌==◌, if◌then◌else◌, is_some,
}
use lazy_db.Prelude.Res.{Res, ok, fatal, ◌>>=◌}
use lazy_db.Prelude.Int.{ℤ, pos, pos_part, ltb_ℤ}
use lazy_db.Std.GoMap
use lazy_db.Std.GoMap.{Eq, GoMap, nat_eq, bytes_eq_keys}

abbrev pub default_shard_count : ℕ
default_shard_count = 32

pub record ConcurrentMap (K V : Type 0) : Type 0 where
  pub shards : List (GoMap K V)
  pub sharding : K → ℕ
  pub shard_count : ℕ

-- `newConcurrentMap`, behind `NewWithCustomShardingFunction`. The count is kept as a `uint8`.
unfoldable pub new_concurrent_map : {K V : Type 0} → ℤ → (K → ℕ) → ConcurrentMap K V
new_concurrent_map map_shard_count sharding =
    let n =
      if ltb_ℤ map_shard_count (pos default_shard_count)
      then default_shard_count
      else pos_part map_shard_count in
    record { shards = replicate n []; sharding = sharding; shard_count = n % 2 ^ 8 }

fnv_loop : ℕ → Bytes → ℕ
fnv_loop h [] = h
fnv_loop h (c ∷ cs) = fnv_loop (bit_xor (h * 16777619 % 2 ^ 32) c) cs

-- `fnv32`: the 32-bit FNV-1 hash of a string.
unfoldable pub fnv32 : Bytes → ℕ
unfolding fnv_loop
fnv32 key = fnv_loop 2166136261 key

abbrev pub simple_sharding : ℕ → ℕ
simple_sharding key = key

-- `NewConcurrentMap`
unfoldable pub new_string_map : {V : Type 0} → ℤ → ConcurrentMap Bytes V
new_string_map map_shard_count = new_concurrent_map map_shard_count fnv32

-- The shard at an index; out of range the program panics.
shard_at : {K V : Type 0} → List (GoMap K V) → ℕ → Res (GoMap K V)
shard_at shards i = elim (get_elem? shards i) [ none ↦ fatal | some s ↦ ok s ]

module _ {K V : Type 0} ⦃key : Eq K⦄ where
  -- `GetShard`: the index of the shard and its contents. `% 0` is a panic.
  unfoldable pub get_shard : ConcurrentMap K V → K → Res (ℕ × GoMap K V)
  unfolding shard_at
  get_shard cm k =
      if cm.shard_count == 0
      then fatal
      else do let i = cm.sharding k % cm.shard_count; s ← shard_at cm.shards i; ok (i, s)

  unfoldable pub get : ConcurrentMap K V → K → Res (Option V)
  get cm k = do (i, s) ← get_shard cm k; ok (GoMap.lookup k s)

  unfoldable pub put : ConcurrentMap K V → K → V → Res (ConcurrentMap K V)
  put cm k v = do
    (i, s) ← get_shard cm k
    ok (record cm { shards = set cm.shards i (GoMap.insert k v s) })

  unfoldable pub has : ConcurrentMap K V → K → Res Bool
  has cm k = do (i, s) ← get_shard cm k; ok (is_some (GoMap.lookup k s))

  unfoldable pub remove : ConcurrentMap K V → K → Res (ConcurrentMap K V)
  remove cm k = do
    (i, s) ← get_shard cm k
    ok (record cm { shards = set cm.shards i (GoMap.remove k s) })

  unfoldable pub pop : ConcurrentMap K V → K → Res (Option V × ConcurrentMap K V)
  pop cm k = do
    (i, s) ← get_shard cm k
    ok (GoMap.lookup k s, record cm { shards = set cm.shards i (GoMap.remove k s) })

sum_lengths : {K V : Type 0} → List (GoMap K V) → ℕ
sum_lengths [] = 0
sum_lengths (m ∷ ms) = length m + sum_lengths ms

unfoldable pub size : {K V : Type 0} → ConcurrentMap K V → ℕ
unfolding sum_lengths
size cm = sum_lengths cm.shards
