-- ===== src/Db/Discard/Slots.antt =====
-- While the free list is not empty a record can be had.
use lazy_db.Prelude.{
  ℕ, ◌+◌, ◌≤◌, ◌<◌, ◌≡◌, inl, inr, refl, ap, ◌∙◌, some, List, [], ◌∷◌, ◌++◌, Bytes, length, arith,
  Option-cases, Bool-cases, ◌==◌, ◌||◌,
}
use lazy_db.Prelude.Res.{Res, ok, err, fatal, ◌>>=◌}
use lazy_db.Prelude.Exec.{or_fatal}
use lazy_db.Std.GoMap
use lazy_db.Std.GoMap.{nat_eq}
use lazy_db.Std.Endian.{put_u32}
use lazy_db.Std.OsFile.{write_at}
use lazy_db.Io.{file_write}
use lazy_db.Db.Discard.{Discard, split_last, alloc, write_record, set_total}

pub split_last_lem :
    (x : ℕ) (xs : List ℕ)
    → (front : List ℕ) × (last : ℕ) × (split_last (x ∷ xs) ≡ some (front, last))
      × (x ∷ xs ≡ front ++ last ∷ [])
      × (length front ≡ length xs)
unfolding split_last
split_last_lem x [] = ([], x, refl, refl, refl)
split_last_lem x (y ∷ ys) =
    let (front, last, e, whole, n) = split_last_lem y ys in
    (x ∷ front, last, rw (e, split_last), ap (λ l. x ∷ l) whole, omega (arith, n))

split_last-some :
    (xs : List ℕ)
    → 0 < length xs
    → (front : List ℕ) × (last : ℕ) × (split_last xs ≡ some (front, last))
      × (length xs ≡ length front + 1)
split_last-some [] h = absurd (omega arith)
split_last-some (x ∷ xs) h =
    let (front, last, e, whole, n) = split_last_lem x xs in (front, last, e, omega (arith, n))

-- The number of records that are free.
abbrev pub free_slots : Discard → ℕ
free_slots d = length d.free_list

pub alloc_lem :
    (d : Discard) (fid : ℕ)
    → 0 < free_slots d
    → (offset : ℕ) × (d' : Discard) × (alloc d fid ≡ ok (offset, d'))
      × (free_slots d ≤ free_slots d' + 1)
unfolding alloc
alloc_lem d fid h = elim (Option-cases (GoMap.lookup fid d.location)) [
  | inl new ↦
      let (front, last, e, n) = split_last-some d.free_list h in
      (
        last,
        record d { free_list = front; location = GoMap.insert fid last d.location },
        rw (new, alloc) (rw (e, alloc)),
        omega (arith, n),
      )
  | inr (offset, e) ↦ (offset, d, rw (e, alloc), omega arith)
]

-- `setTotal` needs a free record at most.
pub set_total_lem :
    (d : Discard) (fid total : ℕ)
    → 0 < free_slots d
    → (d' : Discard) × (set_total d fid total ≡ ok d') × (free_slots d ≤ free_slots d' + 1)
unfolding set_total write_record file_write
set_total_lem d fid total h = elim (Bool-cases (fid == 0 || total == 0)) [
  | inl t ↦ (d, rw t, omega arith)
  | inr f ↦ elim (Option-cases (GoMap.lookup fid d.location)) [
    | inr (offset, e) ↦ (d, rw f (rw (e, set_total)), omega arith)
    | inl new ↦
        let (offset, d', e, n) = alloc_lem d fid h in
        (
          record d' { file = write_at d'.file (put_u32 fid ++ put_u32 total) offset },
          rw f (rw (new, set_total) (rw e)),
          n,
        )
  ]
]

-- The channel and its capacity are the same.
pub record SameChan (d d' : Discard) : Type 0 where
  pub chan : d'.val_chan ≡ d.val_chan
  pub cap : d'.chan_cap ≡ d.chan_cap

pub SameChan-refl : (d : Discard) → SameChan d d
SameChan-refl d = record { chan = refl; cap = refl }

pub SameChan-trans : {a b c : Discard} → SameChan a b → SameChan b c → SameChan a c
SameChan-trans p q = record { chan = q.chan ∙ p.chan; cap = q.cap ∙ p.cap }

alloc-SameChan :
    (d : Discard) (fid offset : ℕ) (d' : Discard) → alloc d fid ≡ ok (offset, d') → SameChan d d'
unfolding alloc
alloc-SameChan d fid offset d' e = ground arith

-- The write that follows an allocation leaves the channel alone.
write_after :
    (d d' : Discard) (b : Bytes) (r : Res (ℕ × Discard))
    → ((offset : ℕ) (d1 : Discard) → r ≡ ok (offset, d1) → SameChan d d1)
    → (or_fatal r >>= λ p. or_fatal (write_record p.1 b p.0)) ≡ ok d'
    → SameChan d d'
unfolding write_record file_write
write_after d d' b (ok (offset, d1)) same e = ground (arith, same offset d1 refl)
write_after d d' b (err x) same e = absurd (cc)
write_after d d' b fatal same e = absurd (cc)

pub set_total-SameChan :
    (d : Discard) (fid total : ℕ) (d' : Discard) → set_total d fid total ≡ ok d' → SameChan d d'
unfolding set_total
set_total-SameChan d fid total d' e = elim (Bool-cases (fid == 0 || total == 0)) [
  | inl t ↦ ground arith
  | inr f ↦ elim (Option-cases (GoMap.lookup fid d.location)) [
    | inr (offset, old) ↦ ground arith
    | inl new ↦
        write_after d d' (put_u32 fid ++ put_u32 total) (alloc d fid) (alloc-SameChan d fid)
          (rw (new, set_total) at (rw f at e))
  ]
]
