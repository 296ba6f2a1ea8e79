-- ===== src/Io.antt =====
-- iocontroller/: the two ways of file access. Both see one file: a mapping is shared with it.
-- Calls of the operating system (open, truncate, sync, unmap) are taken to succeed.
use lazy_db.Prelude.{
  ℕ, ◌+◌, Bytes, length, take, drop, leb, ltb, if◌then◌else◌, ◌||◌, [], Option, none, some,
}
use lazy_db.Prelude.Res.{Res, ok, err, eof, negative_offset, unsupported_io_type}
use lazy_db.Prelude.Int.{ℤ, pos, negsuc}
use lazy_db.Std.OsFile.{extend, write_at, read_at}

-- `iocontroller.IOController` behind `logfile.IOType`.
pub data IoType : Type 0 where
  file_io mmap unsupported : IoType

-- `openFile`: a file that is not there is created, and a short one is filled up.
unfoldable pub open_file : Option Bytes → ℕ → Bytes
open_file none fsize = extend fsize []
open_file (some file) fsize = if ltb (length file) fsize then extend fsize file else file

-- `FileIOController.Write`: all bytes are written.
unfoldable pub file_write : Bytes → Bytes → ℕ → Res (ℕ × Bytes)
file_write file b offset = ok (length b, write_at file b offset)

-- `FileIOController.Read`
unfoldable pub file_read : Bytes → ℕ → ℕ → Res Bytes
file_read file n offset = read_at file n offset

-- `MMapController.Write`: the mapping does not grow.
unfoldable pub mmap_write : Bytes → Bytes → ℕ → Res (ℕ × Bytes)
mmap_write buf b offset =
    if leb (length b) 0
    then ok (0, buf)
    else if ltb (length buf) (offset + length b)
    then err eof
    else ok (length b, write_at buf b offset)

-- `MMapController.Read`
unfoldable pub mmap_read : Bytes → ℕ → ℕ → Res Bytes
mmap_read buf n offset =
    if leb (length buf) offset || leb (length buf) (offset + n)
    then err eof
    else ok (take n (drop offset buf))

-- The controller that `logfile.Open` chose. An unsupported one is never opened.
unfoldable pub io_write : IoType → Bytes → Bytes → ℕ → Res (ℕ × Bytes)
unfolding file_write mmap_write
io_write file_io file b offset = file_write file b offset
io_write mmap file b offset = mmap_write file b offset
io_write unsupported file b offset = err unsupported_io_type

-- A read at a signed position: both controllers refuse a negative one.
unfoldable pub io_read : IoType → Bytes → ℕ → ℤ → Res Bytes
unfolding file_read mmap_read
io_read file_io file n (pos offset) = file_read file n offset
io_read file_io file n (negsuc k) = err negative_offset
io_read mmap file n (pos offset) = mmap_read file n offset
io_read mmap file n (negsuc k) = err eof
io_read unsupported file n offset = err unsupported_io_type
