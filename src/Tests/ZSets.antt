-- ===== src/Tests/ZSets.antt =====
-- Scores that are natural numbers, a skip list that is a list, and a sorted set without a member.
use lazy_db.Prelude.{
  ℕ, ◌+◌, ◌^◌, ◌<◌, ◌≡◌, refl, true, false, none, some, List, [], ◌∷◌, Bytes, length, bytes_eq_iff,
  ltb, ◌==◌, arith,
}
use lazy_db.Prelude.Res.{ok, fatal}
use lazy_db.Prelude.Int.{pos, negsuc}
use lazy_db.Std.Float.{Scores, IsOrdered}
use lazy_db.Std.SkipList.{SkipList}
use lazy_db.Std.Endian.{put_u32, put_u64, get_u64-put_u64}
use lazy_db.Std.GoMap
use lazy_db.Std.GoMap.{bytes_eq_keys}
use lazy_db.Db.Index.{plain_entry}
use lazy_db.Db.Keys.RoundTrip.{key_bytes, length-key_bytes}
use lazy_db.Db.Hash.Models.{HashModels, set_at}
use lazy_db.Db.Nodes.{Node, byte_to_float64}
use lazy_db.Db.ZSets.{ZDb, skl_of, add_pair, find_score, z_card, z_score}
use lazy_db.Db.ZSets.Lock.{pop_keeps_lock}
use lazy_db.Db.ZSets.Models.{add_pair-Models}
use lazy_db.Db.ZSets.Ranges.{z_range, z_rev_range}
use lazy_db.Db.ZSets.Removes.{z_pop_max, z_pop_min, z_rem}
use lazy_db.Db.ZSets.Spans.{ranges_lem}
use lazy_db.Tests.{cfg, key0, value0, trees, log0-CanStore}
use lazy_db.Tests.Hashes.{tree_db, hashes, has_tree}

abbrev scores : Scores
scores = record {
  F = ℕ;
  zero_f = 0;
  add_f = ◌+◌;
  eq_f = ◌==◌;
  lt_f = ltb;
  from_bits = λ n. n;
  to_bits = λ n. n;
}

scores-IsOrdered : IsOrdered scores
scores-IsOrdered = record {
  lt_irrefl = λ a. ground arith;
  lt_trans = λ a b c h1 h2. ground arith;
  lt_eq = λ a b c h1 h2. ground arith;
  eq_lt = λ a b c h1 h2. ground arith;
  eq_trans = λ a b c h1 h2. ground arith;
  eq_sym = λ a b h. ground arith;
}

abbrev ZNode : Type 0
ZNode = Node scores

abbrev lists : SkipList ZNode
lists = record {
  SList = List ZNode;
  new = [];
  insert = λ l n. n ∷ l;
  delete = λ l n. l;
  get_rank = λ l n. 0;
  nodes = λ l. l;
}

abbrev low : ZNode
low = record { score = 1; member = key0 }

abbrev middle : ZNode
middle = record { score = 2; member = value0 }

abbrev high : ZNode
high = record { score = 3; member = key0 }

abbrev empty_set : ZDb ⦃art = trees⦄ scores lists
empty_set = record { base = tree_db; skls = (key0, []) ∷ []; stuck = false }

under_key0 : (l : List ZNode) → GoMap.lookup key0 ((key0, l) ∷ []) ≡ some l
unfolding GoMap.lookup
under_key0 l = ground (arith, bytes_eq_iff key0 key0)

abbrev score9 : Bytes
score9 = put_u64 9

score9_read : byte_to_float64 scores score9 ≡ ok 9
unfolding byte_to_float64
score9_read = rw (get_u64-put_u64 9 (omega arith)) refl

short_name : length (key_bytes key0 value0) < 2 ^ 27
short_name = omega (arith, length-key_bytes key0 value0)

add_pair-Models_example :
    (db' : ZDb ⦃art = trees⦄ scores lists) × (add_pair ⦃art = trees⦄ scores lists cfg key0 score9
        value0
        (pos 5)
        empty_set
      ≡ (ok tt, db'))
    × HashModels ⦃art = trees⦄ cfg db'.base
        (set_at (λ key field. none) key0 value0 (some (score9, pos 0)))
    × (skl_of ⦃art = trees⦄ scores lists db' key0
        ≡ some (record { score = 9; member = value0 } ∷ []))
    × (find_score ⦃art = trees⦄ scores lists key0 value0 (pos 5) db' ≡ (ok 9, db'))
unfolding put_u64 put_u32
add_pair-Models_example =
    add_pair-Models ⦃art = trees⦄ scores lists cfg empty_set (λ key field. none) key0 score9 value0
      (pos 5) trees.new [] [] 9 hashes has_tree (under_key0 []) (omega arith) (omega arith)
      (log0-CanStore (plain_entry (key_bytes key0 value0) score9) refl (omega arith) 0 refl
        (omega arith) short_name (omega arith))
      (omega arith) (omega arith) score9_read refl

abbrev three : ZDb ⦃art = trees⦄ scores lists
three = record empty_set { skls = (key0, low ∷ middle ∷ high ∷ []) ∷ [] }

ranges_lem_example :
    (z_range ⦃art = trees⦄ scores lists key0 (pos 1) (negsuc 0) three
      ≡ (ok (value0 ∷ key0 ∷ []), three))
    × (z_rev_range ⦃art = trees⦄ scores lists key0 (pos 1) (negsuc 0) three
        ≡ (ok (key0 ∷ value0 ∷ []), three))
ranges_lem_example =
    ranges_lem ⦃art = trees⦄ scores lists three key0 (low ∷ middle ∷ high ∷ []) (pos 1) (negsuc 0) 1
      1 refl (under_key0 (low ∷ middle ∷ high ∷ [])) refl refl (omega arith) (omega arith)

abbrev nobody : ZDb ⦃art = trees⦄ scores lists
nobody = record empty_set { skls = [] }

abbrev left : ZDb ⦃art = trees⦄ scores lists
left = record nobody { stuck = true }

pop_keeps_lock_example :
    (z_pop_max ⦃art = trees⦄ scores lists cfg key0 (pos 5) nobody ≡ (ok none, left))
    × (z_pop_min ⦃art = trees⦄ scores lists cfg key0 (pos 5) nobody ≡ (ok none, left))
    × (z_card ⦃art = trees⦄ scores lists value0 left ≡ (fatal, left))
    × (z_score ⦃art = trees⦄ scores lists value0 key0 (pos 5) left ≡ (fatal, left))
    × (z_rem ⦃art = trees⦄ scores lists cfg value0 (key0 ∷ []) (pos 5) left ≡ (fatal, left))
unfolding GoMap.lookup
pop_keeps_lock_example =
    pop_keeps_lock ⦃art = trees⦄ scores lists cfg nobody key0 value0 key0 (key0 ∷ []) (pos 5) refl
      refl
