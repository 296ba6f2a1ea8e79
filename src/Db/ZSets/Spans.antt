-- ===== src/Db/ZSets/Spans.antt =====
-- What the ranges of a sorted set list.
use lazy_db.Prelude.{
  ℕ, zero, suc, ◌+◌, ◌^◌, ◌<◌, ◌≤◌, ◌≡◌, refl, sym, ap, ◌∙◌, false, some, List, [], ◌∷◌, ◌++◌,
  Bytes, length, take, drop, arith, length-append, length-take, length-drop, append_assoc,
  take-append_length,
}
use lazy_db.Prelude.Res.{ok}
use lazy_db.Prelude.Int.{ℤ, pos, negsuc, ◌+ℤ◌, ◌-ℤ◌, signed64, word64}
use lazy_db.Std.Float.{Scores}
use lazy_db.Std.SkipList.{SkipList}
use lazy_db.Ds.Art.{Art}
use lazy_db.Db.Index.{Value}
use lazy_db.Db.StrValues.{add64}
use lazy_db.Db.StrValues.Numbers.{Denotes}
use lazy_db.Db.Nodes.{Node, int_min}
use lazy_db.Db.ZSets.{ZDb, skl_of}
use lazy_db.Db.ZSets.Lock.{lock_is_free}
use lazy_db.Db.ZSets.Ranges.{
  reverse, rank_of, stop_of, rounds, back_from_rank, walk, range_nodes, rev_range_nodes, members_of,
  only_members, z_range, z_rev_range,
}

module _ {ℓ} {A : Type ℓ} where
  walk-take : (n : ℕ) (xs : List A) → n ≤ length xs → walk n xs ≡ ok (take n xs)
  unfolding walk
  walk-take zero xs h = refl
  walk-take (suc n) [] h = absurd (omega arith)
  walk-take (suc n) (x ∷ xs) h = rw (walk-take n xs (omega arith)) refl

  length-reverse : (xs : List A) → length (reverse xs) ≡ length xs
  length-reverse [] = refl
  length-reverse (x ∷ xs) = omega (arith, length-append (reverse xs) (x ∷ []), length-reverse xs)

  append-nil_right : (xs : List A) → xs ++ [] ≡ xs
  append-nil_right [] = refl
  append-nil_right (x ∷ xs) = ap (λ l. x ∷ l) (append-nil_right xs)

  reverse-append : (xs ys : List A) → reverse (xs ++ ys) ≡ reverse ys ++ reverse xs
  reverse-append [] ys = sym (append-nil_right (reverse ys))
  reverse-append (x ∷ xs) ys =
      ap (λ l. l ++ x ∷ []) (reverse-append xs ys) ∙ append_assoc (reverse ys) (reverse xs) (x ∷ [])

  take-nil : (n : ℕ) → take {A = A} n [] ≡ []
  take-nil zero = refl
  take-nil (suc n) = refl

  take-add : (i n : ℕ) (xs : List A) → take (i + n) xs ≡ take i xs ++ take n (drop i xs)
  take-add zero n xs = ap (λ (k : ℕ). take k xs) (omega arith)
  take-add (suc i) n [] = take-nil (suc i + n) ∙ sym (take-nil n)
  take-add (suc i) n (x ∷ xs) =
      let same : suc i + n ≡ suc (i + n) = omega arith in
      ap (λ (k : ℕ). take k (x ∷ xs)) same ∙ ap (λ l. x ∷ l) (take-add i n xs)

  -- The last of the first elements, backwards, are the first of their reverse.
  take-reverse :
      (i n : ℕ) (xs : List A)
      → i + n ≤ length xs
      → take n (reverse (take (i + n) xs)) ≡ reverse (take n (drop i xs))
  take-reverse i n xs h =
      let part = take n (drop i xs) in
      let size : n ≡ length (reverse part) =
        omega (arith, length-reverse part, length-take n (drop i xs), length-drop i xs) in
      ap (λ l. take n (reverse l)) (take-add i n xs)
      ∙ ap (λ l. take n l) (reverse-append (take i xs) part)
      ∙ take-append_length n (reverse part) (reverse (take i xs)) (sym size)

rank_of_lem :
    (len i : ℕ) (b : ℤ) → Denotes len b i → i < len → len < 2 ^ 63 → rank_of len b ≡ pos (suc i)
unfolding rank_of add64 signed64 word64 ◌+ℤ◌
rank_of_lem len i (pos k) d lt small = ground arith
rank_of_lem len i (negsuc k) d lt small = ground arith

stop_of_lem :
    (len j : ℕ) (b : ℤ) → Denotes len b j → j < len → len < 2 ^ 63 → stop_of len b ≡ pos (suc j)
unfolding int_min
stop_of_lem len j b d h small = rw (rank_of_lem len j b d h small) (ground arith)

rounds_lem : (i n : ℕ) → rounds (pos (suc i)) (pos (suc (i + n))) ≡ suc n
unfolding ◌+ℤ◌ ◌-ℤ◌
rounds_lem i n = ground arith

module _ (fl : Scores) where
  range_nodes_lem :
      (ns : List (Node fl)) (start stop : ℤ) (i n : ℕ)
      → Denotes (length ns) start i
      → Denotes (length ns) stop (i + n)
      → i + n < length ns
      → length ns < 2 ^ 63
      → range_nodes fl ns start stop ≡ ok (take (suc n) (drop i ns))
  unfolding range_nodes
  range_nodes_lem ns start stop i n d1 d2 h small =
      rw
        (
          rank_of_lem (length ns) i start d1 (omega (arith, h)) small,
          stop_of_lem (length ns) (i + n) stop d2 h small,
          rounds_lem i n,
        )
        (walk-take (suc n) (drop i ns) (omega (arith, length-drop i ns)))

  back_lem :
      (ns : List (Node fl)) (j : ℕ)
      → j < length ns
      → back_from_rank (pos (suc j)) ns ≡ reverse (take (suc j) ns)
  back_lem ns j h = ground arith

  rev_range_nodes_lem :
      (ns : List (Node fl)) (start stop : ℤ) (i n : ℕ)
      → Denotes (length ns) start i
      → Denotes (length ns) stop (i + n)
      → i + n < length ns
      → length ns < 2 ^ 63
      → rev_range_nodes fl ns start stop ≡ ok (reverse (take (suc n) (drop i ns)))
  unfolding rev_range_nodes
  rev_range_nodes_lem ns start stop i n d1 d2 h small =
      let all = reverse (take (suc (i + n)) ns) in
      let long : suc n ≤ length all =
        omega (arith, length-reverse (take (suc (i + n)) ns), length-take (suc (i + n)) ns) in
      let sum : suc (i + n) ≡ i + suc n = omega arith in
      rw
        (
          rank_of_lem (length ns) i start d1 (omega (arith, h)) small,
          stop_of_lem (length ns) (i + n) stop d2 h small,
          rounds_lem i n,
          back_lem ns (i + n) h,
        )
        (walk-take (suc n) all long
          ∙ ap (λ (k : ℕ). ok (take (suc n) (reverse (take k ns)))) sum
          ∙ ap ok (take-reverse i (suc n) ns (omega (arith, h))))

module _ ⦃art : Art Value⦄ (fl : Scores) (sl : SkipList (Node fl)) where
  -- `ZRange` and `ZRevRange` between two bounds that stand for the indexes i and i + n of a
  -- sorted set, from the front or by a negative number from the end, with i + n below the
  -- number of its elements, which is below 2 ^ 63, and a free lock: `ZRange` lists the members
  -- from i to i + n in the order of the skip list, `ZRevRange` the same members backwards.
  pub ranges_lem :
      (db : ZDb fl sl) (key : Bytes) (skl : sl.SList) (start stop : ℤ) (i n : ℕ)
      → db.stuck ≡ false
      → skl_of fl sl db key ≡ some skl
      → Denotes (length (sl.nodes skl)) start i
      → Denotes (length (sl.nodes skl)) stop (i + n)
      → i + n < length (sl.nodes skl)
      → length (sl.nodes skl) < 2 ^ 63
      → (let span = take (suc n) (drop i (sl.nodes skl)) in
          (z_range fl sl key start stop db ≡ (ok (members_of fl span), db))
          × (z_rev_range fl sl key start stop db ≡ (ok (members_of fl (reverse span)), db)))
  unfolding z_range z_rev_range
  ranges_lem db key skl start stop i n free there d1 d2 h small =
      let ns = sl.nodes skl in
      (
        rw (there, z_range)
            (lock_is_free fl sl db (only_members fl (range_nodes fl ns start stop), db) free
              ∙ ap (λ r. (only_members fl r, db))
                  (range_nodes_lem fl ns start stop i n d1 d2 h small)),
        rw (there, z_rev_range)
            (lock_is_free fl sl db (only_members fl (rev_range_nodes fl ns start stop), db) free
              ∙ ap (λ r. (only_members fl r, db))
                  (rev_range_nodes_lem fl ns start stop i n d1 d2 h small)),
      )
