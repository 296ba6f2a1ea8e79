-- ===== src/Tests/Numbers.antt =====
-- Bounds, counters, list numbers and a discard record.
use lazy_db.Prelude.{
  ◌+◌, ◌%◌, ◌^◌, ◌≡◌, ◌⊎◌, inl, refl, true, false, some, [], ◌∷◌, ◌++◌, Bytes, arith,
}
use lazy_db.Prelude.Res.{ok}
use lazy_db.Prelude.Int.{pos, negsuc, ◌+ℤ◌, IsI64}
use lazy_db.Std.Endian.{put_u32}
use lazy_db.Std.GoMap
use lazy_db.Std.GoMap.{nat_eq}
use lazy_db.Db.StrValues.{overflows, add64}
use lazy_db.Db.StrValues.Numbers.{overflows_exact}
use lazy_db.Db.Discard.{Discard, listen_update}
use lazy_db.Db.Discard.Counts.{RecordAt, listen_update-RecordAt}

abbrev text : Bytes
text = 1 ∷ 2 ∷ 3 ∷ 4 ∷ []

overflows_exact_example :
    ((overflows (negsuc 6) (pos 3) ≡ false)
      × IsI64 (pos 3 +ℤ negsuc 6)
      × (add64 (pos 3) (negsuc 6) ≡ pos 3 +ℤ negsuc 6))
    ⊎ ((overflows (negsuc 6) (pos 3) ≡ true) × ¬ IsI64 (pos 3 +ℤ negsuc 6))
overflows_exact_example = overflows_exact (negsuc 6) (pos 3) (omega arith) (omega arith)

abbrev counted : Discard
counted = record {
  file = ((put_u32 1 ++ put_u32 100) ++ put_u32 7) ++ ((put_u32 2 ++ put_u32 100) ++ put_u32 9);
  val_chan = (2, 30) ∷ [];
  chan_cap = 8;
  free_list = [];
  location = (2, 12) ∷ [];
}

located : GoMap.lookup 2 counted.location ≡ some 12
unfolding GoMap.lookup
located = refl

first : RecordAt counted.file 0 1 100 7
first = ([], (put_u32 2 ++ put_u32 100) ++ put_u32 9, refl, refl)

second : RecordAt counted.file 12 2 100 9
unfolding put_u32
second = ((put_u32 1 ++ put_u32 100) ++ put_u32 7, [], refl, refl)

listen_update-RecordAt_example :
    (d : Discard) × (listen_update counted ≡ ok d)
    × (d.val_chan ≡ [])
    × (d.location ≡ counted.location)
    × RecordAt d.file 12 2 100 ((9 + 30) % 2 ^ 32)
    × RecordAt d.file 0 1 100 7
listen_update-RecordAt_example =
    listen_update-RecordAt counted 2 30 12 100 9 0 1 100 7 [] refl located second first
      (inl (omega arith)) (omega arith) (omega arith)
