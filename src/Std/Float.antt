-- ===== src/Std/Float.antt =====
-- What the program does with `float64`. The type and its arithmetic are the machine's.
use lazy_db.Prelude.{ℕ, ◌≡◌, Bool, true, false}

pub record Float64 : Type 1 where
  pub F : Type 0
  pub zero_f : F
  pub of_u32 : ℕ → F
  pub div_f : F → F → F
  -- `a < b`
  pub lt_f : F → F → Bool

-- The scores of sorted sets: comparisons, addition, and `math.Float64bits` with its converse.
pub record Scores : Type 1 where
  pub F : Type 0
  pub zero_f : F
  pub add_f : F → F → F
  -- `a == b`
  pub eq_f : F → F → Bool
  -- `a < b`
  pub lt_f : F → F → Bool
  pub from_bits : ℕ → F
  pub to_bits : F → ℕ

-- What holds of these comparisons, for a NaN too.
pub record IsOrdered (s : Scores) : Type 0 where
  pub lt_irrefl : (a : s.F) → s.lt_f a a ≡ false
  pub lt_trans : (a b c : s.F) → s.lt_f a b ≡ true → s.lt_f b c ≡ true → s.lt_f a c ≡ true
  pub lt_eq : (a b c : s.F) → s.lt_f a b ≡ true → s.eq_f b c ≡ true → s.lt_f a c ≡ true
  pub eq_lt : (a b c : s.F) → s.eq_f a b ≡ true → s.lt_f b c ≡ true → s.lt_f a c ≡ true
  pub eq_trans : (a b c : s.F) → s.eq_f a b ≡ true → s.eq_f b c ≡ true → s.eq_f a c ≡ true
  pub eq_sym : (a b : s.F) → s.eq_f a b ≡ true → s.eq_f b a ≡ true
