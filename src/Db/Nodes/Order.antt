-- ===== src/Db/Nodes/Order.antt =====
-- The order of the elements of a sorted set.
use lazy_db.Prelude.{◌≡◌, true, false, length, arith, Bool-cases, inl, inr}
use lazy_db.Std.Float.{Scores, IsOrdered}
use lazy_db.Db.Nodes.{Node, less}

module _ (fl : Scores) (o : IsOrdered fl) where
  less_irrefl : (a : Node fl) → less fl a a ≡ false
  unfolding less
  less_irrefl a = ground (arith, o.lt_irrefl a.score)

  less_trans : (a b c : Node fl) → less fl a b ≡ true → less fl b c ≡ true → less fl a c ≡ true
  unfolding less
  less_trans a b c h1 h2 = ground (
    arith,
    h1,
    h2,
    o.lt_trans a.score b.score c.score,
    o.lt_eq a.score b.score c.score,
    o.eq_lt a.score b.score c.score,
    o.eq_trans a.score b.score c.score,
  )

  less_asym : (a b : Node fl) → less fl a b ≡ true → less fl b a ≡ false
  less_asym a b h = elim (Bool-cases (less fl b a)) [
    | inl e ↦ absurd (ground (arith, less_trans a b a h e, less_irrefl a))
    | inr e ↦ e
  ]

  -- `Less` is a strict order where the comparisons of scores are ordered: of three nodes each
  -- less than the next, the first is less than the last, and neither the second less than the
  -- first nor the last less than the first.
  pub less_order :
      (a b c : Node fl)
      → less fl a b ≡ true
      → less fl b c ≡ true
      → (less fl a c ≡ true) × (less fl b a ≡ false) × (less fl c a ≡ false)
  less_order a b c h1 h2 = let h = less_trans a b c h1 h2 in (h, less_asym a b h1, less_asym a c h)

  -- Two nodes with equal scores and members of one length are in no order: neither is less than
  -- the other, so the skip list takes them for one.
  pub less_same_place :
      (a b : Node fl)
      → fl.eq_f a.score b.score ≡ true
      → length a.member ≡ length b.member
      → (less fl a b ≡ false) × (less fl b a ≡ false)
  unfolding less
  less_same_place a b same size = ground (
    arith,
    same,
    size,
    o.lt_eq a.score b.score a.score,
    o.eq_lt a.score b.score a.score,
    o.eq_sym a.score b.score,
    o.lt_irrefl a.score,
    o.lt_irrefl b.score,
  )
