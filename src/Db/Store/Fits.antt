-- ===== src/Db/Store/Fits.antt =====
-- `writeLogEntry` where the active file has room: no file is opened, and the entry goes to its end.
use lazy_db.Prelude.{◌+◌, ◌≤◌, ◌≡◌, false, length, ltb, arith}
use lazy_db.Prelude.Res.{ok}
use lazy_db.Logfile.{LogFile}
use lazy_db.Logfile.Entry.{LogEntry}
use lazy_db.Logfile.Codec.{entry_bytes, IsEncodable, encode_entry_lem}
use lazy_db.Db.Store.{Config, LogSet, make_room, write_log_entry}
use lazy_db.Db.Store.Valid.{Ready}
use lazy_db.Db.Store.Append.{appended}
use lazy_db.Db.Store.Room.{RoomAt, position}
use lazy_db.Db.Store.Write.{append_succeeds, get_active_ready}

pub write_fits :
    (cfg : Config) (l : LogSet) (lf : LogFile) (e : LogEntry)
    → Ready cfg l lf
    → IsEncodable e
    → lf.offset + length (entry_bytes e) ≤ cfg.max_log_file_size
    → RoomAt cfg.io_type cfg.max_log_file_size lf.offset (length (entry_bytes e))
    → write_log_entry cfg e l ≡ (ok (position lf e), appended l lf (entry_bytes e))
unfolding write_log_entry make_room
write_fits cfg l lf e r able fits room =
    let free : ltb cfg.max_log_file_size (lf.offset + length (entry_bytes e)) ≡ false =
      ground arith in
    rw (get_active_ready cfg l lf r.is_active)
      (rw (encode_entry_lem e able.fits) (rw free (rw (append_succeeds cfg l lf r e room))))
