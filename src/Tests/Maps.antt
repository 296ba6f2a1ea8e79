-- ===== src/Tests/Maps.antt =====
-- A sharded map over natural numbers, and a discard record with four free slots.
use lazy_db.Prelude.{ℕ, ◌*◌, ◌≡◌, inr, none, some, arith}
use lazy_db.Prelude.Res.{ok, fatal}
use lazy_db.Prelude.Int.{pos}
use lazy_db.Std.GoMap.{nat_eq}
use lazy_db.Ds.ConcurrentMap
use lazy_db.Ds.ConcurrentMap.{
  ConcurrentMap, new_concurrent_map, simple_sharding, put, remove, pop, has,
}
use lazy_db.Ds.ConcurrentMap.Laws.{IsValid, Writes, put-view, remove-view, new-view, new_wrapped}

abbrev map0 : ConcurrentMap ℕ ℕ
map0 = new_concurrent_map (pos 40) simple_sharding

map0-IsValid : IsValid map0
map0-IsValid = (new-view {V = ℕ} (pos 40) simple_sharding (inr (omega arith))).0

new-view_example : IsValid map0 × ((k : ℕ) → ConcurrentMap.get map0 k ≡ ok none)
new-view_example = new-view {V = ℕ} (pos 40) simple_sharding (inr (omega arith))

put-view_example : (cm : ConcurrentMap ℕ ℕ) × (put map0 45 7 ≡ ok cm) × Writes map0 45 (some 7) cm
put-view_example = put-view map0 45 7 map0-IsValid

remove-view_example : (cm : ConcurrentMap ℕ ℕ) × (remove map0 45 ≡ ok cm) × Writes map0 45 none cm
remove-view_example = remove-view map0 45 map0-IsValid

new_wrapped_example :
    ConcurrentMap.get (new_concurrent_map {V = ℕ} (pos (1 * 256)) simple_sharding) 3 ≡ fatal
new_wrapped_example = new_wrapped {V = ℕ} 1 simple_sharding 3 (omega arith)
