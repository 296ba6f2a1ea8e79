-- ===== src/Ds/ConcurrentMap/Laws.antt =====
-- The sharded map is a map: each operation in terms of the view of every key.
use lazy_db.Prelude.{
  ℕ, zero, suc, ◌*◌, ◌%◌, ◌≤◌, ◌<◌, ◌≡◌, refl, ◌∙◌, Option, none, some, List, [], ◌∷◌, length,
  get_elem?, set, replicate, length-set, length-replicate, ◌==◌, if◌then◌else◌, is_some, arith, ◌⊎◌,
}
use lazy_db.Prelude.Res.{ok, fatal, ◌>>=◌}
use lazy_db.Prelude.Int.{ℤ, pos, pos_part, ◌≤ℤ◌, ltb_ℤ}
use lazy_db.Std.GoMap
use lazy_db.Std.GoMap.{Eq, GoMap, lookup, lookup-insert, lookup-remove, beq_refl}
use lazy_db.Ds.ConcurrentMap.{
  ConcurrentMap, new_concurrent_map, shard_at, get_shard, get, put, has, remove, pop,
}

-- There is a shard for every index.
pub record IsValid {K V : Type 0} (cm : ConcurrentMap K V) : Type 0 where
  pub some_shard : 0 < cm.shard_count
  pub enough : cm.shard_count ≤ length cm.shards

module _ {ℓ} {A : Type ℓ} where
  get_or : A → List A → ℕ → A
  get_or d [] i = d
  get_or d (x ∷ xs) zero = x
  get_or d (x ∷ xs) (suc i) = get_or d xs i

  get_elem?-get_or :
      (d : A) (xs : List A) (i : ℕ) → i < length xs → get_elem? xs i ≡ some (get_or d xs i)
  unfolding get_or
  get_elem?-get_or d [] i h = elim h [ ]
  get_elem?-get_or d (x ∷ xs) zero h = refl
  get_elem?-get_or d (x ∷ xs) (suc i) h = get_elem?-get_or d xs i (omega arith)

  get_or-set :
      (d v : A) (xs : List A) (i j : ℕ)
      → i < length xs
      → get_or d (set xs i v) j ≡ (if i == j then v else get_or d xs j)
  unfolding get_or
  get_or-set d v [] i j h = elim h [ ]
  get_or-set d v (x ∷ xs) zero zero h = refl
  get_or-set d v (x ∷ xs) zero (suc j) h = ground arith
  get_or-set d v (x ∷ xs) (suc i) zero h = ground arith
  get_or-set d v (x ∷ xs) (suc i) (suc j) h = ground (arith, get_or-set d v xs i j)

module _ {K V : Type 0} ⦃key : Eq K⦄ where
  index : ConcurrentMap K V → K → ℕ
  index cm k = cm.sharding k % cm.shard_count

  shard : ConcurrentMap K V → K → GoMap K V
  shard cm k = get_or [] cm.shards (index cm k)

  -- What a valid map holds at a key.
  pub view : ConcurrentMap K V → K → Option V
  view cm k = GoMap.lookup k (shard cm k)

  index-lt : (cm : ConcurrentMap K V) (k : K) → IsValid cm → index cm k < length cm.shards
  unfolding index
  index-lt cm k v = ground arith

  get_shard_lem :
      (cm : ConcurrentMap K V) (k : K) → IsValid cm → get_shard cm k ≡ ok (index cm k, shard cm k)
  unfolding get_shard index shard shard_at
  get_shard_lem cm k v = ground (arith, get_elem?-get_or [] cm.shards (index cm k), index-lt cm k v)

  -- A lookup in a valid map does not panic, and gives the view of the key.
  pub get_lem : (cm : ConcurrentMap K V) (k : K) → IsValid cm → get cm k ≡ ok (view cm k)
  unfolding get view
  get_lem cm k v = rw (get_shard_lem cm k v)

  write : ConcurrentMap K V → K → GoMap K V → ConcurrentMap K V
  write cm k s = record cm { shards = set cm.shards (index cm k) s }

  write-IsValid :
      (cm : ConcurrentMap K V) (k : K) (s : GoMap K V) → IsValid cm → IsValid (write cm k s)
  unfolding write
  write-IsValid cm k s v = ground (arith, length-set cm.shards (index cm k) s)

  view-write :
      (cm : ConcurrentMap K V) (k j : K) (s : GoMap K V) (o : Option V)
      → IsValid cm
      → ((i : K) → GoMap.lookup i s ≡ (if key.beq k i then o else GoMap.lookup i (shard cm k)))
      → view (write cm k s) j ≡ (if key.beq k j then o else view cm j)
  unfolding view write shard index
  view-write cm k j s o v h = ground (
    arith,
    h j,
    key.beq_iff k j,
    get_or-set [] s cm.shards (index cm k) (index cm j),
    index-lt cm k v,
  )

  abbrev pub Writes : ConcurrentMap K V → K → Option V → ConcurrentMap K V → Type 0
  Writes cm k o cm' = IsValid cm' × ((j : K) → view cm' j ≡ (if key.beq k j then o else view cm j))

  -- `Set` on a valid sharded map succeeds, keeps it valid, and changes what the map holds at
  -- that key alone.
  pub put-view :
      (cm : ConcurrentMap K V) (k : K) (v : V)
      → IsValid cm
      → (cm' : ConcurrentMap K V) × (put cm k v ≡ ok cm') × Writes cm k (some v) cm'
  unfolding put
  put-view cm k v valid =
      let s = GoMap.insert k v (shard cm k) in
      (
        write cm k s,
        unfold write in rw (get_shard_lem cm k valid),
        (
          write-IsValid cm k s valid,
          λ j. view-write cm k j s (some v) valid (λ i. lookup-insert k i v (shard cm k)),
        ),
      )

  -- `Remove` on a valid sharded map succeeds, keeps it valid, and takes away what the map holds
  -- at that key alone.
  pub remove-view :
      (cm : ConcurrentMap K V) (k : K)
      → IsValid cm
      → (cm' : ConcurrentMap K V) × (remove cm k ≡ ok cm') × Writes cm k none cm'
  unfolding remove
  remove-view cm k valid =
      let s = GoMap.remove k (shard cm k) in
      (
        write cm k s,
        unfold write in rw (get_shard_lem cm k valid),
        (
          write-IsValid cm k s valid,
          λ j. view-write cm k j s none valid (λ i. lookup-remove k i (shard cm k)),
        ),
      )

  -- On a valid sharded map `Pop` gives the value that the key has and then does what `Remove`
  -- does, and `Has` tells whether there is a value.
  pub pop_lem :
      (cm : ConcurrentMap K V) (k : K)
      → IsValid cm
      → (pop cm k ≡ (remove cm k >>= λ c. ok (view cm k, c)))
        × (has cm k ≡ ok (is_some (view cm k)))
  unfolding pop remove has view
  pop_lem cm k valid = (rw (get_shard_lem cm k valid), rw (get_shard_lem cm k valid))

get_or-replicate {ℓ} : {A : Type ℓ} (d : A) (n i : ℕ) → get_or d (replicate n d) i ≡ d
unfolding get_or
get_or-replicate d zero i = refl
get_or-replicate d (suc n) zero = refl
get_or-replicate d (suc n) (suc i) = get_or-replicate d n i

module _ {K V : Type 0} where
  new-IsValid :
      (n : ℤ) (sharding : K → ℕ)
      → (n ≤ℤ pos 32) ⊎ (0 < pos_part n % 256)
      → IsValid (new_concurrent_map {V = V} n sharding)
  unfolding new_concurrent_map
  new-IsValid n sharding h =
      let small = if ltb_ℤ n (pos 32) then 32 else pos_part n in
      record {
        some_shard = ground arith;
        enough = omega (arith, length-replicate {A = GoMap K V} small []);
      }

-- A new sharded map is valid and finds no key, when at most 32 shards are asked for or their
-- number is no multiple of 256.
pub new-view :
    {K V : Type 0} ⦃key : Eq K⦄ (n : ℤ) (sharding : K → ℕ)
    → (n ≤ℤ pos 32) ⊎ (0 < pos_part n % 256)
    → IsValid (new_concurrent_map {V = V} n sharding)
      × ((k : K) → get (new_concurrent_map {V = V} n sharding) k ≡ ok none)
new-view {V = V} n sharding h =
    let cm = new_concurrent_map {V = V} n sharding in
    let valid = new-IsValid {V = V} n sharding h in
    (
      valid,
      λ k. get_lem cm k valid ∙ unfold view shard new_concurrent_map lookup in rw get_or-replicate,
    )

-- When a positive multiple of 256 shards is asked for, every lookup in the new map panics, since
-- the count is kept in a byte.
pub new_wrapped :
    {K V : Type 0} ⦃key : Eq K⦄ (m : ℕ) (sharding : K → ℕ) (k : K)
    → 0 < m
    → get (new_concurrent_map {V = V} (pos (m * 256)) sharding) k ≡ fatal
unfolding get get_shard new_concurrent_map
new_wrapped m sharding k h = ground arith
