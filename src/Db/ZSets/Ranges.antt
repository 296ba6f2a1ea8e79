-- ===== src/Db/ZSets/Ranges.antt =====
-- zset.go: the methods that list a range of a sorted set.
use lazy_db.Prelude.{
  ℕ, zero, suc, none, some, List, [], ◌∷◌, ◌++◌, Bytes, length, take, drop, ltb, if◌then◌else◌,
}
use lazy_db.Prelude.Res.{Res, ok, fatal, ◌>>=◌}
use lazy_db.Prelude.Exec.{Exec}
use lazy_db.Prelude.Int.{ℤ, pos, negsuc, ◌+ℤ◌, ◌-ℤ◌, ltb_ℤ, pos_part}
use lazy_db.Std.Float.{Scores}
use lazy_db.Std.SkipList.{SkipList}
use lazy_db.Ds.Art.{Art}
use lazy_db.Db.Index.{Value}
use lazy_db.Db.StrValues.{add64}
use lazy_db.Db.Nodes.{Node, int_min}
use lazy_db.Db.ZSets.{ZDb, skl_of, locked}

abbrev pub reverse {ℓ} : {A : Type ℓ} → List A → List A
reverse [] = []
reverse (x ∷ xs) = reverse xs ++ x ∷ []

-- The rank of an index, from the front or by a negative number from the end; the sum is an `int`
-- of 64 bits, and wraps.
unfoldable pub rank_of : ℕ → ℤ → ℤ
rank_of len i = add64 (if ltb_ℤ i (pos 0) then i +ℤ pos len else i) (pos 1)

-- The last rank of a range.
abbrev pub stop_of : ℕ → ℤ → ℤ
stop_of len stop = int_min (rank_of len stop) (pos len)

-- The rounds of `for i := start; i <= stop; i++`.
abbrev pub rounds : ℤ → ℤ → ℕ
rounds start stop = pos_part (stop -ℤ start +ℤ pos 1)

module _ {ℓ} {A : Type ℓ} where
  -- The element of a rank and those that `Next` gives; ranks begin at 1.
  abbrev pub from_rank : ℤ → List A → List A
  from_rank (pos zero) ns = []
  from_rank (pos (suc k)) ns = drop k ns
  from_rank (negsuc k) ns = []

  -- The element of a rank and those that `Prev` gives.
  abbrev pub back_from_rank : ℤ → List A → List A
  back_from_rank (pos k) ns = if ltb (length ns) k then [] else reverse (take k ns)
  back_from_rank (negsuc k) ns = []

  -- The rounds of the loop; behind the last element a nil pointer is dereferenced.
  unfoldable pub walk : ℕ → List A → Res (List A)
  walk zero ns = ok []
  walk (suc n) [] = fatal
  walk (suc n) (x ∷ xs) = do rest ← walk n xs; ok (x ∷ rest)

module _ (fl : Scores) where
  -- What a range consists of, from the lowest to the highest score, or backwards.
  unfoldable pub range_nodes : List (Node fl) → ℤ → ℤ → Res (List (Node fl))
  range_nodes ns start stop =
      let first = rank_of (length ns) start in
      let last = stop_of (length ns) stop in walk (rounds first last) (from_rank first ns)

  unfoldable pub rev_range_nodes : List (Node fl) → ℤ → ℤ → Res (List (Node fl))
  rev_range_nodes ns start stop =
      let first = rank_of (length ns) start in
      let last = stop_of (length ns) stop in walk (rounds first last) (back_from_rank last ns)

  abbrev pub members_of : List (Node fl) → List Bytes
  members_of [] = []
  members_of (n ∷ ns) = n.member ∷ members_of ns

  abbrev pub scores_of : List (Node fl) → List fl.F
  scores_of [] = []
  scores_of (n ∷ ns) = n.score ∷ scores_of ns

  abbrev pub only_members : Res (List (Node fl)) → Res (List Bytes)
  only_members r = do ns ← r; ok (members_of ns)

  abbrev pub with_scores : Res (List (Node fl)) → Res (List Bytes × List fl.F)
  with_scores r = do ns ← r; ok (members_of ns, scores_of ns)

module _ ⦃art : Art Value⦄ (fl : Scores) (sl : SkipList (Node fl)) where
  -- `ZRange`
  unfoldable pub z_range : Bytes → ℤ → ℤ → Exec (ZDb fl sl) (List Bytes)
  z_range key start stop = locked fl sl (λ db. elim (skl_of fl sl db key) [
    | none ↦ (ok [], db)
    | some skl ↦ (only_members fl (range_nodes fl (sl.nodes skl) start stop), db)
  ])

  -- `ZRangeWithScores`
  unfoldable pub z_range_with_scores : Bytes → ℤ → ℤ → Exec (ZDb fl sl) (List Bytes × List fl.F)
  z_range_with_scores key start stop = locked fl sl (λ db. elim (skl_of fl sl db key) [
    | none ↦ (ok ([], []), db)
    | some skl ↦ (with_scores fl (range_nodes fl (sl.nodes skl) start stop), db)
  ])

  -- `ZRevRange`
  unfoldable pub z_rev_range : Bytes → ℤ → ℤ → Exec (ZDb fl sl) (List Bytes)
  z_rev_range key start stop = locked fl sl (λ db. elim (skl_of fl sl db key) [
    | none ↦ (ok [], db)
    | some skl ↦ (only_members fl (rev_range_nodes fl (sl.nodes skl) start stop), db)
  ])

  -- `ZRevRangeWithScores`
  unfoldable pub z_rev_range_with_scores : Bytes → ℤ → ℤ → Exec (ZDb fl sl) (List Bytes × List fl.F)
  z_rev_range_with_scores key start stop = locked fl sl (λ db. elim (skl_of fl sl db key) [
    | none ↦ (ok ([], []), db)
    | some skl ↦ (with_scores fl (rev_range_nodes fl (sl.nodes skl) start stop), db)
  ])
