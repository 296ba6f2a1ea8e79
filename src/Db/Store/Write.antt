-- ===== src/Db/Store/Write.antt =====
-- `writeLogEntry` as a whole: the entry is stored, and what was stored stays stored.
use lazy_db.Prelude.{
  ℕ, ◌+◌, ◌%◌, ◌^◌, ◌≤◌, ◌<◌, ◌≡◌, inl, inr, refl, ap, none, some, Bytes, length, ltb,
  if◌then◌else◌, arith, Bool-cases,
}
use mathlib.Core.Path.{subst}
use lazy_db.Prelude.Res.{ok}
use lazy_db.Prelude.Exec.{pure, ◌>>=◌, ◌>>◌, lift}
use lazy_db.Std.OsFile.{write_at, length-write_at}
use lazy_db.Logfile.{LogFile}
use lazy_db.Logfile.Entry.{LogEntry, encode_entry}
use lazy_db.Logfile.Codec.{entry_bytes, IsEncodable, encode_entry_lem, length-entry_bytes}
use lazy_db.Db.Discard.{Discard, set_total}
use lazy_db.Db.Discard.Slots.{
  free_slots, set_total_lem, SameChan, SameChan-refl, SameChan-trans, set_total-SameChan,
}
use lazy_db.Db.Store.{
  Config, LogSet, ValuePos, contents, get_active_log_file, append_to, make_room, write_log_entry,
}
use lazy_db.Db.Store.Valid.{Ready, IsValid, Holds, Sealed, Sealed-refl, Sealed-trans}
use lazy_db.Db.Store.Rotate.{IsUsable, CanCount, opened, rotate-Advances}
use lazy_db.Db.Store.First.{first-Advances, first_opened}
use lazy_db.Db.Store.Append.{
  appended, written, append_runs, appended-Ready, appended-Holds, appended-stored, appended_file,
  appended-Sealed,
}
use lazy_db.Db.Store.Room.{
  next_offset, RoomAt, CanStore, Stores, room-CanWrite, room-IsReadable, position,
}

-- The last step of the write, on the file that has the room.
module _ (cfg : Config) (l : LogSet) (lf : LogFile) (r : Ready cfg l lf) (e : LogEntry)
    (room : RoomAt cfg.io_type cfg.max_log_file_size lf.offset (length (entry_bytes e))) where
  pub append_succeeds : append_to lf (entry_bytes e) l ≡ (ok tt, appended l lf (entry_bytes e))
  append_succeeds =
      let b = entry_bytes e in
      append_runs cfg l lf r b (omega (arith, length-entry_bytes e))
        (rw r.same_io (room-CanWrite cfg.io_type _ lf.offset (length b) _ room r.long))

  append-Stores : Stores cfg l e (position lf e) (appended l lf (entry_bytes e))
  append-Stores =
      let b = entry_bytes e in
      let (longer, inside) = length-write_at (contents l.disk lf.fid) b lf.offset in
      let grown : length (contents (appended l lf b).disk lf.fid)
          ≡ length (write_at (contents l.disk lf.fid) b lf.offset) =
        ap (λ (f : Bytes). length f) (appended_file cfg l lf r b) in
      record {
        valid = inr (written lf b, appended-Ready cfg l lf r b);
        held = appended-stored cfg l lf r e (
            rw r.same_io (
              room-IsReadable cfg.io_type _ lf.offset (length b) _ room
                (omega (arith, r.long, grown, longer)) (omega (arith, grown, inside))));
        keeps = appended-Holds cfg l lf r b;
        entry_size = refl;
        seals = appended-Sealed cfg l lf b r;
        is_newest = λ a h. ground (arith, h);
        same_chan = SameChan-refl l.discard;
      }

-- A file with room, which holds all that was held.
record Prepared (cfg : Config) (l l' : LogSet) (lf : LogFile) (offset : ℕ) : Type 0 where
  ready : Ready cfg l' lf
  keeps : (k o : ℕ) (x : LogEntry) → Holds l k o x → Holds l' k o x
  seals : Sealed l l'
  starts : lf.offset ≡ offset
  same_chan : SameChan l.discard l'.discard

make_room_lem :
    (cfg : Config) (l : LogSet) (lf : LogFile) (size : ℕ)
    → IsUsable cfg
    → Ready cfg l lf
    → lf.fid + 1 < 2 ^ 32
    → CanCount cfg l (lf.fid + 1)
    → (lf' : LogFile) × (l' : LogSet) × (make_room cfg lf size l ≡ (ok lf', l'))
      × Prepared cfg l l' lf'
          (if ltb cfg.max_log_file_size (lf.offset + size) then 0 else lf.offset)
unfolding make_room
make_room_lem cfg l lf size u r small count =
    elim (Bool-cases (ltb cfg.max_log_file_size (lf.offset + size))) [
      | inl full ↦
          let (l', e, a) = rotate-Advances cfg l lf u r small count in
          (
            opened cfg (lf.fid + 1),
            l',
            rw full e,
            record {
              ready = a.ready;
              keeps = a.keeps;
              seals = a.seals;
              starts = rw full;
              same_chan = a.same_chan;
            },
          )
      | inr free ↦ (
        lf,
        l,
        rw free,
        record {
          ready = r;
          keeps = λ k o x h. h;
          seals = Sealed-refl l;
          starts = rw free;
          same_chan = SameChan-refl l.discard;
        },
      )
    ]

-- The write, once there is an active file.
module _ (cfg : Config) (l : LogSet) (lf : LogFile) (e : LogEntry) (u : IsUsable cfg)
    (able : IsEncodable e) (r : Ready cfg l lf) (small : lf.fid + 1 < 2 ^ 32)
    (count : CanCount cfg l (lf.fid + 1))
    (room : RoomAt cfg.io_type cfg.max_log_file_size
      (if ltb cfg.max_log_file_size (lf.offset + length (entry_bytes e)) then 0 else lf.offset)
      (length (entry_bytes e))) where
  abbrev Continues : ValuePos → LogSet → Type 0
  Continues p l' =
      (do
        (buf, size) ← lift (encode_entry e)
        lf ← make_room cfg lf size
        append_to lf buf
        pure {S = LogSet} (record { fid = lf.fid; offset = lf.offset; entry_size = size }))
        l
      ≡ (ok p, l')

  write_active : (p : ValuePos) × (l' : LogSet) × Continues p l' × Stores cfg l e p l'
  write_active =
      let b = entry_bytes e in
      let (lf2, l2, runs, p) = make_room_lem cfg l lf (length b) u r small count in
      let room2 : RoomAt cfg.io_type cfg.max_log_file_size lf2.offset (length b) =
        rw p.starts room in
      let s = append-Stores cfg l2 lf2 p.ready e room2 in
      (
        position lf2 e,
        appended l2 lf2 b,
        rw (encode_entry_lem e able.fits, runs, append_succeeds cfg l2 lf2 p.ready e room2),
        record {
          valid = s.valid;
          held = s.held;
          keeps = λ k o x h. s.keeps k o x (p.keeps k o x h);
          entry_size = s.entry_size;
          seals = Sealed-trans p.seals s.seals;
          is_newest = s.is_newest;
          same_chan = SameChan-trans p.same_chan s.same_chan;
        },
      )

count_of :
    (cfg : Config) (d : Discard) (fid : ℕ)
    → 0 < free_slots d
    → (d' : Discard) × (set_total d fid (cfg.max_log_file_size % 2 ^ 32) ≡ ok d')
      × (free_slots d ≤ free_slots d' + 1)
count_of cfg d fid h = set_total_lem d fid (cfg.max_log_file_size % 2 ^ 32) h

next_offset_active :
    (cfg : Config) (l : LogSet) (lf : LogFile) (size : ℕ)
    → l.active ≡ some lf
    → next_offset cfg l size
      ≡ (if ltb cfg.max_log_file_size (lf.offset + size) then 0 else lf.offset)
next_offset_active cfg l lf size h = rw (h, next_offset)

next_offset_fresh :
    (cfg : Config) (l : LogSet) (size : ℕ)
    → l.active ≡ none
    → next_offset cfg l size ≡ (if ltb cfg.max_log_file_size (0 + size) then 0 else 0)
next_offset_fresh cfg l size h = ground (arith, h)

pub get_active_ready :
    (cfg : Config) (l : LogSet) (lf : LogFile)
    → l.active ≡ some lf
    → get_active_log_file cfg l ≡ (ok lf, l)
unfolding get_active_log_file
get_active_ready cfg l lf h = ground (arith, h)

-- On a valid set of log files and an entry that can be stored there, `writeLogEntry` succeeds,
-- also where it makes the first file or rotates a full one; the new state is valid, holds the
-- entry at the position that comes back with the entry's size, holds all that the old state held
-- at the old positions, and has the archived files with their contents and the discard channel as
-- they were; the position lies in the new active file.
pub write_log_entry-Stores :
    (cfg : Config) (l : LogSet) (e : LogEntry)
    → IsValid cfg l
    → CanStore cfg l e
    → (p : ValuePos) × (l' : LogSet) × (write_log_entry cfg e l ≡ (ok p, l')) × Stores cfg l e p l'
unfolding write_log_entry
write_log_entry-Stores cfg l e (inr (lf, r)) can =
    let size = length (entry_bytes e) in
    let (d, counted, _) = count_of cfg l.discard (lf.fid + 1) (omega (arith, can.slots)) in
    let room =
      subst (λ (o : ℕ). RoomAt cfg.io_type cfg.max_log_file_size o size)
        (next_offset_active cfg l lf size r.is_active) can.room in
    let (p, l', runs, s) =
      write_active cfg l lf e can.usable can.encodable r (can.next_fid lf r.is_active) (d, counted)
        room in
    (p, l', rw (get_active_ready cfg l lf r.is_active) runs, s)
write_log_entry-Stores cfg l e (inl f) can =
    let size = length (entry_bytes e) in
    let (d, counted, left) = count_of cfg l.discard 1 (omega (arith, can.slots)) in
    let (opens, a) = first-Advances cfg l can.usable f (d, counted) in
    let l1 = first_opened cfg l d in
    let (d2, counted2, _) = count_of cfg d 2 (omega (arith, can.slots, left)) in
    let room =
      subst (λ (o : ℕ). RoomAt cfg.io_type cfg.max_log_file_size o size)
        (next_offset_fresh cfg l size f.no_active) can.room in
    let (p, l', runs, s) =
      write_active cfg l1 (opened cfg 1) e can.usable can.encodable a.ready (omega arith)
        (d2, counted2) room in
    (
      p,
      l',
      rw opens runs,
      record {
        valid = s.valid;
        held = s.held;
        keeps = λ k o x h. s.keeps k o x (a.keeps k o x h);
        entry_size = s.entry_size;
        seals = Sealed-trans a.seals s.seals;
        is_newest = s.is_newest;
        same_chan = SameChan-trans (set_total-SameChan l.discard _ _ d counted) s.same_chan;
      },
    )
