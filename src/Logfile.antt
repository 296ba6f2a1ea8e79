-- ===== src/Logfile.antt =====
-- logfile/log_file.go: a log file, its reads and its appends.
pub mod Entry
pub mod Codec
pub mod Header
pub mod ReadBack
pub mod Limits
pub mod Sizes
use lazy_db.Prelude.{
  ℕ, zero, suc, ◌+◌, ◌-◌, ◌≤◌, ◌<◌, ◌≡◌, Option, none, some, Bytes, length, take, drop, leb, ltb,
  ◌==◌, ◌&&◌, ◌||◌, if◌then◌else◌, Bool, true, false,
}
use lazy_db.Prelude.Res.{
  Res, ok, err, fatal, ◌>>=◌, illegal_file_size, unsupported_io_type, log_end_of_file, invalid_crc,
  write_size_not_equal,
}
use lazy_db.Prelude.Int.{ℤ, pos, negsuc, ◌+ℤ◌}
use lazy_db.Io.{IoType, file_io, mmap, unsupported, open_file, io_read, io_write}
use Entry.{LogEntry, max_header_size, decode_header, get_entry_crc}

-- `LogFile`: its contents lie on the disk, under its fid.
pub record LogFile : Type 0 where
  pub fid : ℕ
  pub offset : ℕ
  pub io : IoType

-- The `switch` on the kind of controller; the file's contents once it is open.
unfoldable pub new_controller : IoType → Option Bytes → ℕ → Res Bytes
new_controller file_io file fsize = ok (open_file file fsize)
new_controller mmap file fsize = ok (open_file file fsize)
new_controller unsupported file fsize = err unsupported_io_type

-- `Open`: the log file, and the file's contents after it.
unfoldable pub open_log_file : ℕ → ℕ → IoType → Option Bytes → Res (LogFile × Bytes)
unfolding new_controller
open_log_file fid fsize io file = if fsize == 0 then err illegal_file_size else do
  contents ← new_controller io file fsize
  ok (record { fid = fid; offset = 0; io = io }, contents)

-- `buf[:size]`
slice_to : Bytes → ℤ → Res (Bytes × ℕ)
slice_to buf (pos n) = if leb n (length buf) then ok (take n buf, n) else fatal
slice_to buf (negsuc n) = fatal

-- The second read, which is made only where there is something to read.
unfoldable pub read_body : IoType → Bytes → ℤ → LogEntry → Res LogEntry
read_body io file at le =
    if ltb 0 le.k_size || ltb 0 le.v_size
    then (do
      kv ← io_read io file (le.k_size + le.v_size) at
      ok (record le { key = take le.k_size kv; value = drop le.k_size kv }))
    else ok le

-- `ReadLogEntry`: the entry and its size.
unfoldable pub read_log_entry : IoType → Bytes → ℕ → Res (LogEntry × ℕ)
unfolding read_body slice_to
read_log_entry io file offset = do
  header_buf ← io_read io file max_header_size (pos offset)
  (le, size) ← decode_header header_buf
  if le.crc == 0 && le.k_size == 0 && le.v_size == 0 then err log_end_of_file else do
    le ← read_body io file (pos offset +ℤ size) le
    (header, n) ← slice_to header_buf size
    if get_entry_crc header le == le.crc
        then ok (le, n + le.k_size + le.v_size)
        else err invalid_crc

-- `LogFile.Write`: the log file and its contents after it.
unfoldable pub write_log : LogFile → Bytes → Bytes → Res (LogFile × Bytes)
write_log lf file buf = if leb (length buf) 0 then ok (lf, file) else do
  (size, file') ← io_write lf.io file buf lf.offset
  if size == length buf
      then ok (record lf { offset = lf.offset + size }, file')
      else err write_size_not_equal
