-- ===== src/Db/Lists/Deque.antt =====
-- A list of list.go as a sequence: the meta entry and the entries of the elements in the abstract
-- store of its tree.
use lazy_db.Prelude.{
  ℕ, suc, ◌+◌, ◌-◌, ◌^◌, ◌≤◌, ◌<◌, ◌≡◌, refl, sym, ap, ◌∙◌, Bool, true, false, Option, some, List,
  [], ◌∷◌, ◌++◌, Bytes, length, ◌==◌, arith, Bool-cases, inl, inr, bytes_eq, bytes_eq_refl,
  bytes_eq→eq, length-append,
}
use mathlib.Core.Path.{subst}
use lazy_db.Prelude.Res.{Res, ok, ◌>>=◌}
use lazy_db.Prelude.Int.{ℤ, pos}
use lazy_db.Std.Endian.{put_u32, length-put_u32}
use lazy_db.Db.Index.Lookup.{reply}
use lazy_db.Db.StrValues.{or_nil, bytes_of}
use lazy_db.Db.Str.Models.{Spec, update}
use lazy_db.Db.Lists.{encode_list_key, decode_list_key, decode_meta}
use lazy_db.Db.Lists.Numbers.{decode_list_key-encode_list_key, decode_meta-saved}

-- The head and tail numbers that a meta entry shows.
abbrev pub numbers_at : ℤ → Option (Bytes × ℤ) → Res (ℕ × ℕ)
numbers_at ts x = do value ← or_nil (reply ts x); decode_meta (bytes_of value)

-- The elements have the numbers from `s` on.
abbrev pub Elems : Spec → Bytes → ℕ → List Bytes → Type 0
Elems h key s [] = Unit {0}
Elems h key s (x ∷ xs) = (h (encode_list_key key s) ≡ some (x, pos 0)) × Elems h key (suc s) xs

pub record IsList (h : Spec) (key : Bytes) (head_seq : ℕ) (xs : List Bytes) : Type 0 where
  pub meta : (ts : ℤ) → numbers_at ts (h key) ≡ ok (head_seq, head_seq + length xs + 1)
  pub elems : Elems h key (suc head_seq) xs
  pub below : head_seq + length xs + 1 < 2 ^ 32

-- A list with one more element in front or at its end.
abbrev pub pushed : Bool → Bytes → List Bytes → List Bytes
pushed true x xs = x ∷ xs
pushed false x xs = xs ++ x ∷ []

pub length-pushed :
    (is_left : Bool) (x : Bytes) (xs : List Bytes) → length (pushed is_left x xs) ≡ suc (length xs)
length-pushed true x xs = refl
length-pushed false x xs = length-append xs (x ∷ []) ∙ omega arith

-- The key of the meta entry is no key of an element.
pub meta_apart : (key : Bytes) (s : ℕ) → bytes_eq key (encode_list_key key s) ≡ false
unfolding encode_list_key
meta_apart key s = elim (Bool-cases (bytes_eq key (encode_list_key key s))) [
  | inr e ↦ e
  | inl e ↦
      let same : length key ≡ length (encode_list_key key s) =
        ap length (bytes_eq→eq key (encode_list_key key s) e) in
      absurd (omega (arith, same, length-append (put_u32 s) key, length-put_u32 s))
]

pub elem_apart : (key : Bytes) (s : ℕ) → bytes_eq (encode_list_key key s) key ≡ false
unfolding encode_list_key
elem_apart key s = elim (Bool-cases (bytes_eq (encode_list_key key s) key)) [
  | inr e ↦ e
  | inl e ↦
      let same : length (encode_list_key key s) ≡ length key =
        ap length (bytes_eq→eq (encode_list_key key s) key e) in
      absurd (omega (arith, same, length-append (put_u32 s) key, length-put_u32 s))
]

number_of_key : Res (Bytes × ℕ) → ℕ
number_of_key (ok (key, s)) = s
number_of_key r = 0

-- Elements with two numbers have two keys.
pub elems_apart :
    (key : Bytes) (a b : ℕ)
    → a < 2 ^ 32
    → b < 2 ^ 32
    → (a == b) ≡ false
    → bytes_eq (encode_list_key key a) (encode_list_key key b) ≡ false
unfolding number_of_key
elems_apart key a b ha hb apart =
    elim (Bool-cases (bytes_eq (encode_list_key key a) (encode_list_key key b))) [
      | inr e ↦ e
      | inl e ↦
          let same : encode_list_key key a ≡ encode_list_key key b =
            bytes_eq→eq (encode_list_key key a) (encode_list_key key b) e in
          let eq : a ≡ b = ap number_of_key (
            sym (decode_list_key-encode_list_key key a ha)
            ∙ ap decode_list_key same
            ∙ decode_list_key-encode_list_key key b hb) in
          ground arith
    ]

-- A write under another key leaves the elements.
pub Elems-update :
    (h : Spec) (key k : Bytes) (y : Option (Bytes × ℤ)) (s : ℕ) (xs : List Bytes)
    → ((t : ℕ) → s ≤ t → t < s + length xs → bytes_eq k (encode_list_key key t) ≡ false)
    → Elems h key s xs
    → Elems (update h k y) key s xs
Elems-update h key k y s [] apart es = tt
Elems-update h key k y s (x ∷ xs) apart es = (
  rw (apart s (omega arith) (omega arith)) es.0,
  Elems-update h key k y (suc s) xs (λ t le lt. apart t (omega arith) (omega arith)) es.1,
)

pub Elems-append :
    (h : Spec) (key : Bytes) (s : ℕ) (xs : List Bytes) (x : Bytes)
    → Elems h key s xs
    → h (encode_list_key key (s + length xs)) ≡ some (x, pos 0)
    → Elems h key s (xs ++ x ∷ [])
Elems-append h key s [] x es last =
    (subst (λ (n : ℕ). h (encode_list_key key n) ≡ some (x, pos 0)) (omega arith) last, tt)
Elems-append h key s (y ∷ xs) x es last = (
  es.0,
  Elems-append h key (suc s) xs x es.1
      (subst (λ (n : ℕ). h (encode_list_key key n) ≡ some (x, pos 0)) (omega arith) last),
)

pub Elems-init :
    (h : Spec) (key : Bytes) (s : ℕ) (xs : List Bytes) (x : Bytes)
    → Elems h key s (xs ++ x ∷ [])
    → Elems h key s xs × (h (encode_list_key key (s + length xs)) ≡ some (x, pos 0))
Elems-init h key s [] x es =
    (tt, subst (λ (n : ℕ). h (encode_list_key key n) ≡ some (x, pos 0)) (omega arith) es.0)
Elems-init h key s (y ∷ xs) x es =
    let (init, last) = Elems-init h key (suc s) xs x es.1 in
    (
      (es.0, init),
      subst (λ (n : ℕ). h (encode_list_key key n) ≡ some (x, pos 0)) (omega arith) last,
    )

-- The meta entry that was saved last shows its numbers.
pub numbers_at-saved :
    (ts : ℤ) (head_seq tail_seq : ℕ)
    → head_seq < 2 ^ 32
    → tail_seq < 2 ^ 32
    → numbers_at ts (some (put_u32 head_seq ++ put_u32 tail_seq, pos 0)) ≡ ok (head_seq, tail_seq)
numbers_at-saved ts head_seq tail_seq hh ht = decode_meta-saved head_seq tail_seq hh ht

-- The head number before a pushed element, and the number of that element.
abbrev pub head_pushed : Bool → ℕ → ℕ
head_pushed true head_seq = head_seq - 1
head_pushed false head_seq = head_seq

abbrev pub slot : Bool → ℕ → ℕ → ℕ
slot true head_seq n = head_seq
slot false head_seq n = head_seq + n + 1

-- The abstract store of a list after a change of its meta entry.
abbrev pub with_meta : Spec → Bytes → ℕ → ℕ → Spec
with_meta h key head_seq n =
    update h key (some (put_u32 head_seq ++ put_u32 (head_seq + n + 1), pos 0))

pub IsList-with_meta :
    (h : Spec) (key : Bytes) (head_seq : ℕ) (xs : List Bytes)
    → Elems h key (suc head_seq) xs
    → head_seq + length xs + 1 < 2 ^ 32
    → IsList (with_meta h key head_seq (length xs)) key head_seq xs
IsList-with_meta h key head_seq xs es below = record {
  meta = λ ts.
      rw (bytes_eq_refl key)
        (numbers_at-saved ts head_seq (head_seq + length xs + 1) (omega arith) below);
  elems = Elems-update h key key _ (suc head_seq) xs (λ t le lt. meta_apart key t) es;
  below = below;
}

Elems-pushed :
    (h : Spec) (key : Bytes) (head_seq : ℕ) (xs : List Bytes) (x : Bytes) (is_left : Bool)
    → Elems h key (suc head_seq) xs
    → 0 < head_seq
    → head_seq + length xs + 2 < 2 ^ 32
    → Elems
        (update h (encode_list_key key (slot is_left head_seq (length xs))) (some (x, pos 0)))
        key
        (suc (head_pushed is_left head_seq))
        (pushed is_left x xs)
Elems-pushed h key head_seq xs x true es some_head below =
    let k = encode_list_key key head_seq in
    let first : suc (head_seq - 1) ≡ head_seq = omega arith in
    let rest =
      Elems-update h key k (some (x, pos 0)) (suc head_seq) xs
        (λ t le lt. elems_apart key head_seq t (omega arith) (omega arith) (ground arith)) es in
    subst (λ (n : ℕ). Elems (update h k (some (x, pos 0))) key n (x ∷ xs)) (sym first)
      (rw (bytes_eq_refl k) refl, rest)
Elems-pushed h key head_seq xs x false es some_head below =
    let tail_seq = head_seq + length xs + 1 in
    let k = encode_list_key key tail_seq in
    let last : suc head_seq + length xs ≡ tail_seq = omega arith in
    let rest =
      Elems-update h key k (some (x, pos 0)) (suc head_seq) xs
        (λ t le lt. elems_apart key tail_seq t (omega arith) (omega arith) (ground arith)) es in
    Elems-append (update h k (some (x, pos 0))) key (suc head_seq) xs x rest (
      subst (λ (n : ℕ). update h k (some (x, pos 0)) (encode_list_key key n) ≡ some (x, pos 0))
        (sym last) (rw (bytes_eq_refl k) refl))

-- The abstract store after a push.
abbrev pub push_spec : Spec → Bytes → ℕ → ℕ → Bytes → Bool → Spec
push_spec h key head_seq n x is_left =
    with_meta (update h (encode_list_key key (slot is_left head_seq n)) (some (x, pos 0))) key
      (head_pushed is_left head_seq) (suc n)

pub push_spec-IsList :
    (h : Spec) (key : Bytes) (head_seq : ℕ) (xs : List Bytes) (x : Bytes) (is_left : Bool)
    → IsList h key head_seq xs
    → 0 < head_seq
    → head_seq + length xs + 2 < 2 ^ 32
    → IsList
        (push_spec h key head_seq (length xs) x is_left)
        key
        (head_pushed is_left head_seq)
        (pushed is_left x xs)
push_spec-IsList h key head_seq xs x is_left list some_head below =
    let h1 = update h (encode_list_key key (slot is_left head_seq (length xs))) (some (x, pos 0)) in
    let len = length-pushed is_left x xs in
    let le : head_pushed is_left head_seq ≤ head_seq = ground arith in
    subst
      (λ (n : ℕ).
        IsList (with_meta h1 key (head_pushed is_left head_seq) n) key
          (head_pushed is_left head_seq) (pushed is_left x xs))
      len
      (IsList-with_meta h1 key (head_pushed is_left head_seq) (pushed is_left x xs)
        (Elems-pushed h key head_seq xs x is_left list.elems some_head below)
        (omega (arith, len, le, below)))
