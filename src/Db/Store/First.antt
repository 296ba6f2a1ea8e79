-- ===== src/Db/Store/First.antt =====
-- The first file of a value type.
use lazy_db.Prelude.{ℕ, ◌≡◌, refl, some, [], ◌∷◌, ◌++◌, arith}
use lazy_db.Prelude.Res.{ok}
use lazy_db.Std.GoMap
use lazy_db.Std.GoMap.{GoMap, nat_eq}
use lazy_db.Logfile.Entry.{LogEntry}
use lazy_db.Db.Discard.{Discard}
use lazy_db.Db.Discard.Slots.{set_total-SameChan}
use lazy_db.Db.Store.{
  Config, LogSet, find_log_file, set_total_of, append_fid, set_active, first_log_file,
  get_active_log_file,
}
use lazy_db.Db.Store.Valid.{Fresh, Holds, contents-insert}
use lazy_db.Db.Store.Rotate.{
  IsUsable, length-open_file, opened, opened_file, open_log_lem, Advances, CanCount,
}

-- The first file of a type: nothing was stored before.
abbrev pub first_opened : Config → LogSet → Discard → LogSet
first_opened cfg l d = record l {
  disk = GoMap.insert 1 (opened_file cfg l 1) l.disk;
  active = some (opened cfg 1);
  fids = l.fids ++ 1 ∷ [];
  discard = d;
}

module _ (cfg : Config) (l : LogSet) (u : IsUsable cfg) (f : Fresh l) where
  first_runs :
      (count : CanCount cfg l 1)
      → get_active_log_file cfg l ≡ (ok (opened cfg 1), first_opened cfg l count.0)
  unfolding get_active_log_file first_log_file set_total_of append_fid set_active
  first_runs count =
      rw (f.no_active, get_active_log_file)
        (rw (open_log_lem cfg 1 l u) (rw (count.1, set_total_of)))

  nothing_held : (k offset : ℕ) (e : LogEntry) → ¬ Holds l k offset e
  unfolding find_log_file
  nothing_held k offset e h = ground (arith, f.no_active, h.is_found)

  -- The first call opens file 1, which is active and empty.
  pub first-Advances :
      (count : CanCount cfg l 1)
      → (get_active_log_file cfg l ≡ (ok (opened cfg 1), first_opened cfg l count.0))
        × Advances cfg l (first_opened cfg l count.0) 1
  first-Advances count =
      let file = opened_file cfg l 1 in
      (
        first_runs count,
        record {
          ready = record {
            is_active = refl;
            same_io = refl;
            long = ground (
              arith,
              contents-insert l.disk 1 1 file,
              length-open_file (GoMap.lookup 1 l.disk) cfg.max_log_file_size,
            );
            map_valid = f.map_valid;
            own_fid = λ k a h. cc (f.no_archived k);
            older = λ k a h. cc (f.no_archived k);
          };
          keeps = λ k offset e h. absurd (nothing_held k offset e h);
          seals = record { kept = λ k a h. cc (f.no_archived k) };
          same_chan = set_total-SameChan l.discard _ _ count.0 count.1;
        },
      )
