-- ===== src/Std/Decimal.antt =====
-- strconv.ParseInt(s, 10, 64) and strconv.FormatInt(n, 10).
use lazy_db.Prelude.{
  ℕ, zero, suc, ◌+◌, ◌-◌, ◌*◌, ◌/◌, ◌%◌, ◌^◌, ◌≤◌, ◌<◌, ◌≡◌, refl, ◌∙◌, Option, none, some, [], ◌∷◌,
  arith, Bytes, ltb, leb, ◌==◌, ◌&&◌, if◌then◌else◌, Bool-cases, inl, inr,
}
use lazy_db.Prelude.Int.{ℤ, pos, negsuc, IsI64}

-- The digits of `n` before `rest`; twenty rounds are enough for 64 bits.
unfoldable pub digits : ℕ → ℕ → Bytes → Bytes
digits zero n rest = (48 + n % 10) ∷ rest
digits (suc k) n rest =
    let more = digits k (n / 10) ((48 + n % 10) ∷ rest) in
    if ltb n 10 then (48 + n) ∷ rest else more

unfoldable pub format_int : ℤ → Bytes
format_int (pos n) = digits 20 n []
format_int (negsuc n) = 45 ∷ digits 20 (suc n) []

-- The value of a row of digits behind what was read, or a syntax error.
unfoldable pub parse_digits : ℕ → Bytes → Option ℕ
parse_digits n [] = some n
parse_digits n (c ∷ cs) = if leb 48 c && leb c 57 then parse_digits (n * 10 + (c - 48)) cs else none

unfoldable pub parse_unsigned : Bytes → Option ℕ
parse_unsigned [] = none
parse_unsigned (c ∷ cs) = parse_digits 0 (c ∷ cs)

-- The number with its sign, in range.
unfoldable pub in_range_pos : Option ℕ → Option ℤ
in_range_pos none = none
in_range_pos (some n) = if ltb n (2 ^ 63) then some (pos n) else none

unfoldable pub in_range_neg : Option ℕ → Option ℤ
in_range_neg none = none
in_range_neg (some zero) = some (pos 0)
in_range_neg (some (suc n)) = if ltb n (2 ^ 63) then some (negsuc n) else none

-- `none` is a syntax or a range error.
unfoldable pub parse_int : Bytes → Option ℤ
parse_int [] = none
parse_int (c ∷ cs) =
    if c == b'-'
    then in_range_neg (parse_unsigned cs)
    else if c == b'+'
    then in_range_pos (parse_unsigned cs)
    else in_range_pos (parse_unsigned (c ∷ cs))

parse_digits-digits :
    (k n : ℕ) (rest : Bytes)
    → n < 10 ^ suc k
    → parse_digits 0 (digits k n rest) ≡ parse_digits n rest
unfolding parse_digits digits
parse_digits-digits zero n rest h = ground arith
parse_digits-digits (suc k) n rest h = elim (Bool-cases (ltb n 10)) [
  | inl t ↦ rw t (ground arith)
  | inr f ↦
      rw f (parse_digits-digits k (n / 10) ((48 + n % 10) ∷ rest) (omega arith) ∙ ground arith)
]

-- The first of the digits is a digit, so it is no sign.
digits_head :
    (k n : ℕ) (rest : Bytes) → (c : ℕ) × (cs : Bytes) × (digits k n rest ≡ c ∷ cs) × (48 ≤ c)
unfolding digits
digits_head zero n rest = (48 + n % 10, rest, refl, omega arith)
digits_head (suc k) n rest = elim (Bool-cases (ltb n 10)) [
  | inl t ↦ (48 + n, rest, rw t, omega arith)
  | inr f ↦ let (c, cs, e, d) = digits_head k (n / 10) ((48 + n % 10) ∷ rest) in (c, cs, rw f e, d)
]

parse_unsigned-digits : (n : ℕ) → n < 2 ^ 64 → parse_unsigned (digits 20 n []) ≡ some n
unfolding parse_unsigned
parse_unsigned-digits n h =
    let (c, cs, e, d) = digits_head 20 n [] in
    rw e (rw (← e) (parse_digits-digits 20 n [] (omega arith) ∙ unfold parse_digits in refl))

parse_int-digits :
    (c : ℕ) (cs : Bytes) (n : ℕ)
    → 48 ≤ c
    → parse_unsigned (c ∷ cs) ≡ some n
    → parse_int (c ∷ cs) ≡ in_range_pos (some n)
unfolding parse_int
parse_int-digits c cs n d e = rw (← e) (ground arith)

in_range_pos_lem : (n : ℕ) → n < 2 ^ 63 → in_range_pos (some n) ≡ some (pos n)
unfolding in_range_pos
in_range_pos_lem n h = ground arith

in_range_neg_lem : (n : ℕ) → n < 2 ^ 63 → in_range_neg (some (suc n)) ≡ some (negsuc n)
unfolding in_range_neg
in_range_neg_lem n h = ground arith

-- Every 64-bit integer that is printed is read back.
pub parse_int-format_int : (n : ℤ) → IsI64 n → parse_int (format_int n) ≡ some n
unfolding format_int
parse_int-format_int (pos n) h =
    let (c, cs, e, d) = digits_head 20 n [] in
    let back : parse_unsigned (c ∷ cs) ≡ some n =
      rw (← e) (parse_unsigned-digits n (omega arith)) in
    rw e (parse_int-digits c cs n d back ∙ in_range_pos_lem n (omega arith))
parse_int-format_int (negsuc n) h =
    unfold parse_int in
    rw (parse_unsigned-digits (suc n) (omega arith)) (in_range_neg_lem n (omega arith))
