-- ===== src/Std/OsFile.antt =====
-- The contents of a file, and what `os.File` does with them: no call fails for want of a disk.
use lazy_db.Prelude.{
  drop-append_le, ℕ, ◌+◌, ◌-◌, ◌≤◌, ◌<◌, ◌≡◌, refl, sym, ap, ◌∙◌, ◌++◌, append_assoc, arith, Bytes,
  length, take, drop, replicate, leb, if◌then◌else◌, le→leb, length-append, length-take,
  length-drop, length-replicate, take-append_ge, drop-append_length,
}
use lazy_db.Prelude.Res.{Res, ok, err, eof}

-- `Truncate(size)` of a shorter file: zero bytes follow.
unfoldable pub extend : ℕ → Bytes → Bytes
extend n file = file ++ replicate (n - length file) 0

-- `WriteAt(b, offset)`: the file grows where the write ends behind its end.
unfoldable pub write_at : Bytes → Bytes → ℕ → Bytes
write_at file b offset =
    let padded = extend offset file in take offset padded ++ (b ++ drop (offset + length b) padded)

-- `ReadAt` fills a buffer of `n` bytes, or answers `io.EOF`.
unfoldable pub read_at : Bytes → ℕ → ℕ → Res Bytes
read_at file n offset =
    if leb (offset + n) (length file) then ok (take n (drop offset file)) else err eof

pub length-extend :
    (n : ℕ) (file : Bytes) → (length file ≤ length (extend n file)) × (n ≤ length (extend n file))
unfolding extend
length-extend n file = omega (
  arith,
  length-append file (replicate (n - length file) 0),
  length-replicate {A = ℕ} (n - length file) 0,
)

pub length-write_at :
    (file b : Bytes) (offset : ℕ)
    → (length file ≤ length (write_at file b offset))
      × (offset + length b ≤ length (write_at file b offset))
unfolding write_at
length-write_at file b offset =
    let padded = extend offset file in
    let tail = drop (offset + length b) padded in
    omega (
      arith,
      length-extend offset file,
      length-append (take offset padded) (b ++ tail),
      length-append b tail,
      length-take offset padded,
      length-drop (offset + length b) padded,
    )

-- `b` stands in the file at `offset`.
abbrev pub StandsAt : Bytes → ℕ → Bytes → Type 0
StandsAt file offset b =
    (front : Bytes) × (back : Bytes) × (file ≡ front ++ (b ++ back)) × (length front ≡ offset)

-- What was written stands there.
pub write_at-StandsAt : (file b : Bytes) (offset : ℕ) → StandsAt (write_at file b offset) offset b
unfolding write_at
write_at-StandsAt file b offset =
    let padded = extend offset file in
    (
      take offset padded,
      drop (offset + length b) padded,
      refl,
      omega (arith, length-take offset padded, length-extend offset file),
    )

extend-StandsAt :
    (n : ℕ) (file b : Bytes) (offset : ℕ)
    → StandsAt file offset b
    → StandsAt (extend n file) offset b
unfolding extend
extend-StandsAt n file b offset (front, back, e, l) =
    let zeros = replicate (n - length file) 0 in
    (
      front,
      back ++ zeros,
      ap (λ f. f ++ zeros) e
          ∙ append_assoc front (b ++ back) zeros
          ∙ ap (λ r. front ++ r) (append_assoc b back zeros),
      l,
    )

-- A cut behind `b` leaves it standing.
take-StandsAt :
    (n : ℕ) (file b more : Bytes) (offset : ℕ)
    → StandsAt file offset b
    → offset + length b ≤ n
    → StandsAt (take n file ++ more) offset b
take-StandsAt n file b more offset (front, back, e, l) h =
    let whole : file ≡ (front ++ b) ++ back = e ∙ sym (append_assoc front b back) in
    let long : length (front ++ b) ≤ n = omega (arith, length-append front b) in
    let k = n - length (front ++ b) in
    (
      front,
      take k back ++ more,
      ap (λ f. take n f ++ more) whole
          ∙ ap (λ f. f ++ more)
              (take-append_ge n (front ++ b) back long ∙ append_assoc front b (take k back))
          ∙ append_assoc front (b ++ take k back) more
          ∙ ap (λ r. front ++ r) (append_assoc b (take k back) more),
      l,
    )

-- A write behind `b` leaves it standing.
pub write_at-keeps :
    (file b c : Bytes) (offset at : ℕ)
    → StandsAt file offset b
    → offset + length b ≤ at
    → StandsAt (write_at file c at) offset b
unfolding write_at
write_at-keeps file b c offset at s h =
    let padded = extend at file in
    take-StandsAt at padded b (c ++ drop (at + length c) padded) offset
      (extend-StandsAt at file b offset s) h

-- A write before `b` leaves it standing.
pub write_at-keeps_behind :
    (file b c : Bytes) (offset at : ℕ)
    → StandsAt file offset b
    → at + length c ≤ offset
    → StandsAt (write_at file c at) offset b
unfolding write_at
write_at-keeps_behind file b c offset at s h =
    let padded = extend at file in
    let m = at + length c in
    let (front, back, e, l) = extend-StandsAt at file b offset s in
    let first = take at padded in
    let size : length first ≡ at = omega (arith, length-take at padded, length-extend at file) in
    let rest : drop m padded ≡ drop m front ++ (b ++ back) =
      ap (λ f. drop m f) e ∙ drop-append_le m front (b ++ back) (omega arith) in
    (
      first ++ (c ++ drop m front),
      back,
      ap (λ r. first ++ (c ++ r)) rest
          ∙ ap (λ r. first ++ r) (sym (append_assoc c (drop m front) (b ++ back)))
          ∙ sym (append_assoc first (c ++ drop m front) (b ++ back)),
      omega (
        arith,
        size,
        length-append first (c ++ drop m front),
        length-append c (drop m front),
        length-drop m front,
      ),
    )

pub drop-StandsAt :
    (file b : Bytes) (offset : ℕ) (s : StandsAt file offset b) → drop offset file ≡ b ++ s.1
drop-StandsAt file b offset (front, back, e, l) =
    ap (λ f. drop offset f) e ∙ drop-append_length offset front (b ++ back) l

-- A read at the place where `b` stands gives `b` and what follows it, cut at the buffer's length.
pub read_at-StandsAt :
    (file b : Bytes) (n offset : ℕ) (s : StandsAt file offset b)
    → offset + n ≤ length file
    → read_at file n offset ≡ ok (take n (b ++ s.1))
unfolding read_at
read_at-StandsAt file b n offset s h =
    rw (le→leb (offset + n) (length file) h)
      (ap (λ r. ok (take n r)) (drop-StandsAt file b offset s))

pub read_at-eof :
    (file : Bytes) (n offset : ℕ) → length file < offset + n → read_at file n offset ≡ err eof
unfolding read_at
read_at-eof file n offset h = ground arith

pub StandsAt-length :
    (file b : Bytes) (offset : ℕ) → StandsAt file offset b → offset + length b ≤ length file
StandsAt-length file b offset (front, back, e, l) =
    omega
      (arith, ap (λ (f : Bytes). length f) e, length-append front (b ++ back), length-append b back)

-- A part of what stands in the file stands there too.
pub StandsAt-tail :
    (file a b : Bytes) (offset : ℕ)
    → StandsAt file offset (a ++ b)
    → StandsAt file (offset + length a) b
StandsAt-tail file a b offset (front, back, e, l) = (
  front ++ a,
  back,
  e ∙ ap (λ r. front ++ r) (append_assoc a b back) ∙ sym (append_assoc front a (b ++ back)),
  omega (arith, length-append front a),
)
