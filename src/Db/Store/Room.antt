-- ===== src/Db/Store/Room.antt =====
-- Where the next entry goes, what a write asks of the state, and what it gives.
use lazy_db.Prelude.{
  ℕ, ◌+◌, ◌^◌, ◌≤◌, ◌<◌, ◌≡◌, ◌⊎◌, none, some, Bytes, length, ltb, if◌then◌else◌, arith,
}
use lazy_db.Io.{IoType, file_io, mmap, unsupported}
use lazy_db.Logfile.{LogFile}
use lazy_db.Logfile.Entry.{LogEntry, max_header_size}
use lazy_db.Logfile.Codec.{entry_bytes, IsEncodable}
use lazy_db.Logfile.ReadBack.{CanRead}
use lazy_db.Db.Discard.Slots.{free_slots, SameChan}
use lazy_db.Db.Store.{Config, LogSet, ValuePos}
use lazy_db.Db.Store.Valid.{IsValid, Holds, Sealed}
use lazy_db.Db.Store.Rotate.{IsUsable}
use lazy_db.Db.Store.Append.{CanWrite}

-- Where an entry of `size` bytes goes: to the end of the active file, or to a new file.
abbrev pub next_offset : Config → LogSet → ℕ → ℕ
next_offset cfg l size = elim l.active [
  | none ↦ 0
  | some lf ↦ if ltb cfg.max_log_file_size (lf.offset + size) then 0 else lf.offset
]

-- At this offset an entry of this size can be read again: behind its start the file has room for
-- the header's buffer of 25 bytes, and a mapping has one byte more.
abbrev pub RoomAt : IoType → ℕ → ℕ → ℕ → Type 0
RoomAt file_io limit offset size = (offset + 25 ≤ limit) ⊎ (25 ≤ size)
RoomAt mmap limit offset size = (offset + 25 < limit) × (offset + size < limit)
RoomAt unsupported limit offset size = ⊥

-- What a write of `e` asks of the state.
pub record CanStore (cfg : Config) (l : LogSet) (e : LogEntry) : Type 0 where
  pub usable : IsUsable cfg
  pub encodable : IsEncodable e
  pub room :
      RoomAt cfg.io_type cfg.max_log_file_size
        (next_offset cfg l (length (entry_bytes e)))
        (length (entry_bytes e))
  pub slots : 2 ≤ free_slots l.discard
  pub next_fid : (lf : LogFile) → l.active ≡ some lf → lf.fid + 1 < 2 ^ 32

-- What a write of `e` gives: a position where it is stored, and a state that holds all that the
-- old one held.
pub record Stores (cfg : Config) (l : LogSet) (e : LogEntry) (p : ValuePos) (l' : LogSet)
    : Type 0 where
  pub valid : IsValid cfg l'
  pub held : Holds l' p.fid p.offset e
  pub keeps : (k offset : ℕ) (x : LogEntry) → Holds l k offset x → Holds l' k offset x
  pub entry_size : p.entry_size ≡ length (entry_bytes e)
  pub seals : Sealed l l'
  pub is_newest : (a : LogFile) → l'.active ≡ some a → a.fid ≡ p.fid
  pub same_chan : SameChan l.discard l'.discard

pub room-CanWrite :
    (io : IoType) (limit offset size : ℕ) (file : Bytes)
    → RoomAt io limit offset size
    → limit ≤ length file
    → CanWrite io file size offset
room-CanWrite file_io limit offset size file r h = tt
room-CanWrite mmap limit offset size file r h = omega arith
room-CanWrite unsupported limit offset size file r h = absurd r

pub room-IsReadable :
    (io : IoType) (limit offset size : ℕ) (file : Bytes)
    → RoomAt io limit offset size
    → limit ≤ length file
    → offset + size ≤ length file
    → CanRead io file max_header_size offset × CanRead io file size offset
room-IsReadable file_io limit offset size file r h w = (omega arith, w)
room-IsReadable mmap limit offset size file r h w = omega arith
room-IsReadable unsupported limit offset size file r h w = absurd r

abbrev pub position : LogFile → LogEntry → ValuePos
position lf e = record { fid = lf.fid; offset = lf.offset; entry_size = length (entry_bytes e) }
