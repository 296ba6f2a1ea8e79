-- ===== src/Tests.antt =====
-- Concrete inputs: a store whose log files hold 100 bytes, and the first entry that goes in.
pub mod Codec
pub mod Maps
pub mod Strings
pub mod Sets
pub mod Numbers
pub mod Rebuilds
pub mod Hashes
pub mod Transactions
pub mod Merges
pub mod ZSets
pub mod Queues
pub mod Hashing
use lazy_db.Prelude.{
  ℕ, zero, suc, ◌+◌, ◌^◌, ◌≤◌, ◌<◌, ◌≡◌, refl, inl, inr, Option, none, some, List, [], ◌∷◌, Bytes,
  replicate, arith, length,
}
use lazy_db.Prelude.Res.{Res, ok}
use lazy_db.Prelude.Int.{ℤ, pos}
use lazy_db.Io.{IoType, file_io, unsupported}
use lazy_db.Std.GoMap.{nat_eq}
use lazy_db.Ds.ConcurrentMap
use lazy_db.Ds.ConcurrentMap.{new_concurrent_map, simple_sharding}
use lazy_db.Ds.ConcurrentMap.Laws
use lazy_db.Ds.ConcurrentMap.Laws.{view, get_lem, new-view}
use lazy_db.Ds.Art.{Art, list_tree}
use lazy_db.Logfile.Entry.{LogEntry}
use lazy_db.Logfile.Limits.{small-IsEncodable}
use lazy_db.Logfile.Codec.{IsEncodable}
use lazy_db.Db.Discard.{Discard}
use lazy_db.Db.Store.{Config, LogSet}
use lazy_db.Db.Store.Valid.{IsValid, Fresh}
use lazy_db.Db.Store.Room.{CanStore}
use lazy_db.Db.Index.{Value, plain_entry}
use lazy_db.Db.Str.{StrDb}
use lazy_db.Db.Str.Models.{Spec, Models, new-Models}

abbrev pub cfg : Config
cfg = record { max_log_file_size = 100; io_type = file_io }

abbrev pub discard0 : Discard
discard0 = record {
  file = replicate 48 0;
  val_chan = [];
  chan_cap = 8;
  free_list = 0 ∷ 12 ∷ 24 ∷ 36 ∷ [];
  location = [];
}

abbrev pub log0 : LogSet
log0 = record {
  disk = [];
  active = none;
  archived = new_concurrent_map (pos 32) simple_sharding;
  fids = [];
  discard = discard0;
}

abbrev pub key0 : Bytes
key0 = b'k' ∷ []

abbrev pub value0 : Bytes
value0 = b'v' ∷ []

abbrev pub trees : Art Value
trees = list_tree Value

abbrev pub db0 : StrDb ⦃art = trees⦄
db0 = record { idx_tree = trees.new; log = log0 }

abbrev pub spec0 : Spec
spec0 = λ k. none

pub log0-IsValid : IsValid cfg log0
log0-IsValid =
    let (valid, empty) = new-view (pos 32) simple_sharding (inl (omega arith)) in
    inl (record {
      no_active = refl;
      map_valid = valid;
      no_archived = λ k. let e = get_lem log0.archived k valid in let n = empty k in cc;
    })

pub db0-Models : Models ⦃art = trees⦄ cfg db0 spec0
db0-Models = new-Models ⦃art = trees⦄ cfg log0 log0-IsValid

-- Any small entry without a transaction can be stored.
pub log0-CanStore :
    (e : LogEntry)
    → e.tx_id ≡ 0
    → e.tx_stat < 64
    → (n : ℕ) → e.expired_at ≡ pos n
    → n < 2 ^ 48
    → length e.key < 2 ^ 27
    → length e.value < 2 ^ 27
    → CanStore cfg log0 e
log0-CanStore e id stat n time hn hk hv = record {
  usable = record { positive = omega arith; supported = λ h. cc };
  encodable = small-IsEncodable e id stat n time hn hk hv;
  room = inl (omega arith);
  slots = omega arith;
  next_fid = λ lf h. absurd cc;
}
