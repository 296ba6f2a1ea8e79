-- ===== src/Db/Discard.antt =====
-- discard.go: for each log file its size and how much of it is dead, in a file of 12-byte records.
pub mod Slots
pub mod Counts
use lazy_db.Prelude.{
  ℕ, zero, suc, ◌+◌, ◌-◌, ◌*◌, ◌/◌, ◌%◌, ◌^◌, ◌≤◌, ◌<◌, ◌≡◌, Bool, true, false, Option, none, some,
  List, [], ◌∷◌, ◌++◌, Bytes, length, take, drop, replicate, ltb, leb, ◌==◌, ◌&&◌, ◌||◌, not,
  if◌then◌else◌,
}
use lazy_db.Prelude.Res.{Res, ok, err, fatal, discard_no_space, eof, log_end_of_file, ◌>>=◌}
use lazy_db.Prelude.Exec.{or_fatal}
use lazy_db.Prelude.Int.{ℤ, pos}
use lazy_db.Std.Endian.{put_u32, get_u32}
use lazy_db.Std.Sort.{sort}
use lazy_db.Std.Float.{Float64}
use lazy_db.Std.GoMap
use lazy_db.Std.GoMap.{GoMap, nat_eq}
use lazy_db.Io.{file_io, open_file, file_read, file_write}

abbrev pub discard_record_size : ℕ
discard_record_size = 12

-- `2 << 12`
abbrev pub discard_file_size : ℕ
discard_file_size = 8192

-- `val_chan` is the buffered channel with its capacity; an element is the pair of a fid and an
-- entry size, which is all that the listener reads of a value.
pub record Discard : Type 0 where
  pub file : Bytes
  pub val_chan : List (ℕ × ℕ)
  pub chan_cap : ℕ
  pub free_list : List ℕ
  pub location : GoMap ℕ ℕ

-- The loop of `newDiscard` over the records; `n` bounds the rounds.
new_discard_loop : ℕ → Bytes → ℕ → List ℕ → GoMap ℕ ℕ → Res (List ℕ × GoMap ℕ ℕ)
new_discard_loop zero file offset free_list location = ok (free_list, location)
new_discard_loop (suc n) file offset free_list location =
    elim (file_read file discard_record_size offset) [
      | ok buf ↦ do
        fid ← get_u32 buf
        total ← get_u32 (drop 4 buf)
        let slot_free = fid == 0 && total == 0
        new_discard_loop n file (offset + discard_record_size)
            (if slot_free then free_list ++ offset ∷ [] else free_list)
            (if slot_free then location else GoMap.insert fid offset location)
      | err eof ↦ ok (free_list, location)
      | err log_end_of_file ↦ ok (free_list, location)
      | err e ↦ err e
      | fatal ↦ fatal
    ]

-- `newDiscard` over the contents that the file has on disk. A round reads 12 bytes, so the rounds
-- are fewer than the bytes.
unfoldable pub new_discard : Option Bytes → ℕ → Res Discard
unfolding new_discard_loop
new_discard disk buffer_size = do
  let file = open_file disk discard_file_size
  (free_list, location) ← new_discard_loop (length file) file 0 [] []
  ok (record {
    file = file;
    val_chan = [];
    chan_cap = buffer_size;
    free_list = free_list;
    location = location;
  })

-- The last element of a slice, and the slice without it.
unfoldable pub split_last : List ℕ → Option (List ℕ × ℕ)
split_last [] = none
split_last (x ∷ []) = some ([], x)
split_last (x ∷ y ∷ ys) = elim (split_last (y ∷ ys)) [
  | none ↦ none
  | some (front, last) ↦ some (x ∷ front, last)
]

-- `alloc`: the offset of the record of a fid, which is taken from the end of the free list.
unfoldable pub alloc : Discard → ℕ → Res (ℕ × Discard)
unfolding split_last
alloc d fid = elim (GoMap.lookup fid d.location) [
  | some offset ↦ ok (offset, d)
  | none ↦ elim (split_last d.free_list) [
    | none ↦ err discard_no_space
    | some (rest, offset) ↦
        ok (offset, record d { free_list = rest; location = GoMap.insert fid offset d.location })
  ]
]

-- A write into the file of the records.
unfoldable pub write_record : Discard → Bytes → ℕ → Res Discard
write_record d buf offset = do
  (n, file) ← file_write d.file buf offset
  ok (record d { file = file })

-- `setTotal`
unfoldable pub set_total : Discard → ℕ → ℕ → Res Discard
set_total d fid total =
    if fid == 0 || total == 0 then ok d else elim (GoMap.lookup fid d.location) [
      | some _ ↦ ok d
      | none ↦ do
        (offset, d) ← or_fatal (alloc d fid)
        or_fatal (write_record d (put_u32 fid ++ put_u32 total) offset)
    ]

-- `incrDiscard`: the counter is the third word of the record, and wraps at 32 bits.
unfoldable pub incr_discard : Discard → ℕ → ℕ → Res Discard
incr_discard d fid delta = if leb delta 0 then ok d else do
  (offset, d) ← or_fatal (alloc d fid)
  buf ← or_fatal (file_read d.file 4 (offset + 8))
  v ← get_u32 buf
  or_fatal (write_record d (put_u32 ((v + delta) % 2 ^ 32)) (offset + 8))

-- One round of `listenUpdate`, if a value waits in the channel.
unfoldable pub listen_update : Discard → Res Discard
listen_update d = elim d.val_chan [
  | [] ↦ ok d
  | (fid, entry_size) ∷ rest ↦ incr_discard (record d { val_chan = rest }) fid entry_size
]

-- `select { case d.valChan <- node: default: log.Fatal(…) }`
unfoldable pub send : Discard → ℕ → ℕ → Res Discard
send d fid entry_size =
    if ltb (length d.val_chan) d.chan_cap
    then ok (record d { val_chan = d.val_chan ++ (fid, entry_size) ∷ [] })
    else fatal

-- `removeDiscard`
unfoldable pub remove_discard : Discard → ℕ → Res Discard
remove_discard d fid = if fid == 0 then ok d else elim (GoMap.lookup fid d.location) [
  | none ↦ ok d
  | some offset ↦ do
    d ← or_fatal (write_record d (replicate discard_record_size 0) offset)
    ok (record d { free_list = d.free_list ++ offset ∷ []; location = GoMap.remove fid d.location })
]

-- `clear`
unfoldable pub clear : Discard → ℕ → Res Discard
clear d fid = do
  (offset, d) ← or_fatal (alloc d fid)
  d ← or_fatal (write_record d (replicate discard_record_size 0) offset)
  elim (GoMap.lookup fid d.location) [
    | none ↦ ok d
    | some offset ↦ ok (record d {
      free_list = d.free_list ++ offset ∷ [];
      location = GoMap.remove fid d.location;
    })
  ]

module _ (float : Float64) where
  open float use {F, zero_f, of_u32, div_f, lt_f}

  -- The share of dead bytes, 0 for a record that is not in use.
  unfoldable pub cur_ratio : ℕ → ℕ → ℕ → F
  cur_ratio fid total_size v =
      if not (total_size == 0) && not (fid == 0)
      then div_f (of_u32 v) (of_u32 total_size)
      else zero_f

  -- The loop of `getCCL` over the records; `n` bounds the rounds.
  ccl_loop : ℕ → Bytes → ℕ → ℕ → F → List ℕ → Res (List ℕ)
  ccl_loop zero file offset active_fid ratio ccl = ok ccl
  ccl_loop (suc n) file offset active_fid ratio ccl =
      elim (file_read file discard_record_size offset) [
        | ok buf ↦ do
          fid ← get_u32 buf
          total_size ← get_u32 (drop 4 buf)
          v ← get_u32 (drop 8 buf)
          let skip = fid == active_fid
          let over = lt_f ratio (cur_ratio fid total_size v)
          ccl_loop n file (offset + discard_record_size) active_fid ratio
              (if skip then ccl else if over then ccl ++ fid ∷ [] else ccl)
        | _ ↦ ok ccl
      ]

  -- `getCCL`: the files to compact, older ones first.
  unfoldable pub get_ccl : Discard → ℕ → F → Res (List ℕ)
  unfolding ccl_loop
  get_ccl d active_fid ratio = do
    ccl ← ccl_loop (length d.file) d.file 0 active_fid ratio []
    ok (sort ccl)
