-- ===== src/Db/Recovery/Rounds.antt =====
-- The inner loop of `buildIndexFromLogFiles` ends, whatever the file holds.
use lazy_db.Prelude.{ℕ, zero, suc, ◌+◌, ◌<◌, ◌≡◌, Bytes, length, arith, inl, inr}
use lazy_db.Prelude.Res.{Res, Error, ok, err, fatal, eof, log_end_of_file, Res-cases}
use lazy_db.Io.{IoType}
use lazy_db.Ds.Art.{Art}
use lazy_db.Logfile.{read_log_entry}
use lazy_db.Logfile.Entry.{LogEntry}
use lazy_db.Logfile.Sizes.{read_log_entry-grows}
use lazy_db.Db.Index.{Value}
use lazy_db.Db.Recovery.{build_str_index, build_loop}

module _ ⦃art : Art Value⦄ (io : IoType) (file : Bytes) (fid : ℕ) where
  -- How the loop ends where no entry can be read.
  abbrev pub stopped : Error → art.Tree → ℕ → Res (art.Tree × ℕ)
  stopped eof tree offset = ok (tree, offset)
  stopped log_end_of_file tree offset = ok (tree, offset)
  stopped x tree offset = fatal

  abbrev indexed : art.Tree → LogEntry → ℕ → ℕ → Res art.Tree
  indexed tree entry offset size =
      build_str_index tree entry (record { fid = fid; offset = offset; entry_size = size })

  -- The loop from an offset and a tree ends with a result: its rounds, one after the other,
  -- without a bound on their number.
  pub data Ends : ℕ → art.Tree → Res (art.Tree × ℕ) → Type 0 where
    stops :
        (offset : ℕ) (tree : art.Tree) (x : Error)
        → read_log_entry io file offset ≡ err x
        → Ends offset tree (stopped x tree offset)
    dies :
        (offset : ℕ) (tree : art.Tree)
        → read_log_entry io file offset ≡ fatal
        → Ends offset tree fatal
    fails :
        (offset : ℕ) (tree : art.Tree) (entry : LogEntry) (size : ℕ) (x : Error)
        → read_log_entry io file offset ≡ ok (entry, size)
        → indexed tree entry offset size ≡ err x
        → Ends offset tree (err x)
    breaks :
        (offset : ℕ) (tree : art.Tree) (entry : LogEntry) (size : ℕ)
        → read_log_entry io file offset ≡ ok (entry, size)
        → indexed tree entry offset size ≡ fatal
        → Ends offset tree fatal
    goes :
        (offset : ℕ) (tree : art.Tree) (entry : LogEntry) (size : ℕ) (tree' : art.Tree)
        (r : Res (art.Tree × ℕ))
        → read_log_entry io file offset ≡ ok (entry, size)
        → indexed tree entry offset size ≡ ok tree'
        → Ends (offset + size) tree' r
        → Ends offset tree r

  -- One round, where no entry can be read.
  round-stopped :
      (n offset : ℕ) (tree : art.Tree) (x : Error)
      → read_log_entry io file offset ≡ err x
      → build_loop (suc n) io file fid offset tree ≡ stopped x tree offset
  unfolding build_loop
  round-stopped n offset tree x h = ground (arith, h)

  -- On any file, the loop that rebuilds an index, with more rounds at hand than the bytes that
  -- are left, ends as the loop without a bound does: the rounds do not run out.
  pub build_loop-Ends :
      (n offset : ℕ) (tree : art.Tree)
      → length file < n + offset
      → 0 < n
      → Ends offset tree (build_loop n io file fid offset tree)
  unfolding build_loop
  build_loop-Ends zero offset tree h pos = absurd (omega (arith, pos))
  build_loop-Ends (suc n) offset tree h pos = elim (Res-cases (read_log_entry io file offset)) [
    | inl ((entry, size), r) ↦
        let (grows, inside) = read_log_entry-grows io file offset entry size r in
        elim (Res-cases (indexed tree entry offset size)) [
          | inl (tree', b) ↦
              rw (r, build_loop)
                (rw (b) (
                  goes offset tree entry size tree' _ r b (
                    build_loop-Ends n (offset + size) tree' (omega (arith, h, grows))
                      (omega (arith, h, inside)))))
          | inr (inl (x, b)) ↦ rw (r, build_loop) (rw b (fails offset tree entry size x r b))
          | inr (inr b) ↦ rw (r, build_loop) (rw b (breaks offset tree entry size r b))
        ]
    | inr (inl (x, r)) ↦ rw (round-stopped n offset tree x r) (stops offset tree x r)
    | inr (inr r) ↦ rw (r, build_loop) (dies offset tree r)
  ]
