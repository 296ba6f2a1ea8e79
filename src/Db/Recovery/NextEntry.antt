-- ===== src/Db/Recovery/NextEntry.antt =====
-- A read in a file that holds entries from its start on and zeros behind them.
use lazy_db.Prelude.{
  ℕ, ◌+◌, ◌-◌, ◌<◌, ◌≡◌, sym, ap, ◌∙◌, List, ◌∷◌, ◌++◌, Bytes, length, arith, replicate,
  append_assoc, length-append, length-replicate,
}
use lazy_db.Prelude.Res.{ok, err, log_end_of_file}
use lazy_db.Std.GoMap.{nat_eq}
use lazy_db.Io.{IoType}
use lazy_db.Logfile.{read_log_entry}
use lazy_db.Logfile.Entry.{LogEntry, max_header_size}
use lazy_db.Logfile.Codec.{entry_bytes}
use lazy_db.Logfile.ReadBack.{stored, read_log_entry-StandsAt}
use lazy_db.Db.Recovery.Replay.{
  log_bytes, AllWritten, Reads, can_read, read_log_entry-zeros, split_zeros,
}

-- What is read at the start of an entry, and behind the last one.
module _ (io : IoType) (file front : Bytes) (o z : ℕ) (r : Reads io) (at : o ≡ length front)
    (room : max_header_size < z) where
  pub read_next :
      (e : LogEntry) (es : List LogEntry)
      → AllWritten (e ∷ es)
      → file ≡ front ++ (log_bytes (e ∷ es) ++ replicate z 0)
      → read_log_entry io file o ≡ ok (stored e, length (entry_bytes e))
  read_next e es (able, some_byte, w) whole =
      let b = entry_bytes e in
      let back = log_bytes es ++ replicate z 0 in
      let split = whole ∙ ap (λ r. front ++ r) (append_assoc b (log_bytes es) (replicate z 0)) in
      let total : length file ≡ length front + (length b + (length (log_bytes es) + z)) = omega (
        arith,
        ap (λ (r : Bytes). length r) split,
        length-append front (b ++ back),
        length-append b back,
        length-append (log_bytes es) (replicate z 0),
        length-replicate {A = ℕ} z 0,
      ) in
      read_log_entry-StandsAt io file o e able some_byte (front, back, split, sym at)
        (
          can_read io file max_header_size o r (omega (arith, total, at, room)),
          can_read io file (length b) o r (omega (arith, total, at, room)),
        )

  pub read_last : file ≡ front ++ replicate z 0 → read_log_entry io file o ≡ err log_end_of_file
  read_last whole =
      let total : length file ≡ length front + z = omega (
        arith,
        ap (λ (r : Bytes). length r) whole,
        length-append front (replicate z 0),
        length-replicate {A = ℕ} z 0,
      ) in
      read_log_entry-zeros io file o r
        (
          front,
          replicate (z - max_header_size) 0,
          whole ∙ ap (λ b. front ++ b) (split_zeros z room),
          sym at,
        )
        (omega (arith, total, at, room))
