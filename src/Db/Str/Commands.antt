-- ===== src/Db/Str/Commands.antt =====
-- The commands of str.go and tx_str.go, each against the abstract store.
use lazy_db.Prelude.{
  ◌+◌, ◌<◌, ◌≡◌, refl, Option, none, some, ◌++◌, Bytes, length, if◌then◌else◌, arith, Bool-cases,
  Option-cases, inl, inr,
}
use lazy_db.Prelude.Res.{ok, err, key_not_found}
use lazy_db.Prelude.Exec.{Exec}
use lazy_db.Prelude.Int.{ℤ, pos, ◌+ℤ◌}
use lazy_db.Std.Clock.{unix}
use lazy_db.Ds.Art.{Art}
use lazy_db.Db.Store.{Config}
use lazy_db.Db.Store.Room.{CanStore}
use lazy_db.Db.Index.{Value, delete_entry, has_expired, get_value}
use lazy_db.Db.Index.Lookup.{timed_entry, reply, get_value_at-reply}
use lazy_db.Db.Str.{StrDb, set, set_ex, set_nx, append, get_del}
use lazy_db.Db.StrValues.{or_nil, bytes_of}
use lazy_db.Db.Str.Models.{Spec, update, Models, ChanRoom, store_entry-Models}
use lazy_db.Db.Str.Deletes.{delete_key-Models}

-- The value that a key shows at a time, none when it is missing or has expired.
abbrev pub shown : ℤ → Option (Bytes × ℤ) → Option Bytes
shown ts none = none
shown ts (some (v, t)) = if has_expired t ts then none else some v

pub or_nil-reply : (ts : ℤ) (x : Option (Bytes × ℤ)) → or_nil (reply ts x) ≡ ok (shown ts x)
or_nil-reply ts none = refl
or_nil-reply ts (some (v, t)) = elim (Bool-cases (has_expired t ts)) [ inl e ↦ rw e | inr e ↦ rw e ]

-- A key whose value shows has that value.
pub reply-shown :
    (ts : ℤ) (x : Option (Bytes × ℤ)) (v : Bytes) → shown ts x ≡ some v → reply ts x ≡ ok (some v)
reply-shown ts none v e = absurd (ground (arith, e))
reply-shown ts (some (w, t)) v e = elim (Bool-cases (has_expired t ts)) [
  | inl h ↦ absurd (ground (arith, h, e))
  | inr h ↦ rw h (ground (arith, h, e))
]

-- Any other key is missing to a lookup.
pub reply-hidden :
    (ts : ℤ) (x : Option (Bytes × ℤ)) → shown ts x ≡ none → reply ts x ≡ err key_not_found
reply-hidden ts none e = refl
reply-hidden ts (some (w, t)) e = elim (Bool-cases (has_expired t ts)) [
  | inl h ↦ rw h
  | inr h ↦ absurd (ground (arith, h, e))
]

module _ ⦃art : Art Value⦄ where
  -- What a store of `v` under `key` asks of the database.
  abbrev pub CanSet : Config → StrDb → Bytes → Bytes → ℤ → Type 0
  CanSet cfg db key v t =
      CanStore cfg db.log (timed_entry key v t) × (0 < length key + length v) × ChanRoom db 1

  -- A step succeeds with `a`, and leaves a database that stands for `f`.
  abbrev pub Does : {A : Type 0} → Config → Exec StrDb A → StrDb → A → Spec → Type 0
  Does cfg m db a f = (db' : StrDb) × (m db ≡ (ok a, db')) × Models cfg db' f

  pub get_value_lem :
      (cfg : Config) (db : StrDb) (f : Spec) (key : Bytes) (ts : ℤ)
      → Models cfg db f
      → get_value db.idx_tree key ts db.log ≡ reply ts (f key)
  unfolding get_value
  get_value_lem cfg db f key ts m =
      get_value_at-reply ts db.log key (art.search db.idx_tree key) (f key) (m.index key)

  pub find_lem :
      (cfg : Config) (db : StrDb) (f : Spec) (key : Bytes) (ts : ℤ)
      → Models cfg db f
      → or_nil (get_value db.idx_tree key ts db.log) ≡ ok (shown ts (f key))
  find_lem cfg db f key ts m = rw (get_value_lem cfg db f key ts m) (or_nil-reply ts (f key))

  pub set-Models :
      (cfg : Config) (db : StrDb) (f : Spec) (key v : Bytes)
      → Models cfg db f
      → CanSet cfg db key v (pos 0)
      → Does cfg (set cfg key v) db tt (update f key (some (v, pos 0)))
  unfolding set
  set-Models cfg db f key v m can = store_entry-Models cfg db f key v (pos 0) m can.0 can.1 can.2

  pub set_ex-Models :
      (cfg : Config) (db : StrDb) (f : Spec) (key v : Bytes) (duration now : ℤ)
      → Models cfg db f
      → CanSet cfg db key v (unix (now +ℤ duration))
      → Does cfg
          (set_ex cfg key v duration now)
          db
          tt
          (update f key (some (v, unix (now +ℤ duration))))
  unfolding set_ex
  set_ex-Models cfg db f key v duration now m can =
      store_entry-Models cfg db f key v (unix (now +ℤ duration)) m can.0 can.1 can.2

  -- `SetNX` stores the value without an expiry where the key shows none, and leaves the store
  -- as it was where it shows one; the value can be stored.
  pub set_nx-Models :
      (cfg : Config) (db : StrDb) (f : Spec) (key v : Bytes) (ts : ℤ)
      → Models cfg db f
      → CanSet cfg db key v (pos 0)
      → Does cfg
          (set_nx cfg key v ts)
          db
          tt
          (elim (shown ts (f key)) [ some w ↦ f | none ↦ update f key (some (v, pos 0)) ])
  unfolding set_nx
  set_nx-Models cfg db f key v ts m can =
      let find = find_lem cfg db f key ts m in
      elim (Option-cases (shown ts (f key))) [
        | inl e ↦
            let (db', run, m') = store_entry-Models cfg db f key v (pos 0) m can.0 can.1 can.2 in
            (db', rw (find, e) run, rw e m')
        | inr (w, e) ↦ (db, rw (find, e), rw e m)
      ]

  -- `GetDel` answers the value that the key shows and leaves a database that stands for the
  -- store without the key, or, where it shows none, for the store as it was; the entry of the
  -- deletion can be stored and the discard channel has room for two values.
  pub get_del-Models :
      (cfg : Config) (db : StrDb) (f : Spec) (key : Bytes) (ts : ℤ)
      → Models cfg db f
      → CanStore cfg db.log (delete_entry key)
      → ChanRoom db 2
      → Does cfg
          (get_del cfg key ts)
          db
          (shown ts (f key))
          (elim (shown ts (f key)) [ some w ↦ update f key none | none ↦ f ])
  unfolding get_del
  get_del-Models cfg db f key ts m can room =
      let find = find_lem cfg db f key ts m in
      elim (Option-cases (shown ts (f key))) [
        | inl e ↦ (db, rw (find, e), rw e m)
        | inr (w, e) ↦
            let (db', run, m') = delete_key-Models cfg db f key m can room in
            (db', rw (find, e) (rw run), rw e m')
      ]

  -- `Append` stores the value that the key shows, nothing in the place of a missing one,
  -- followed by the new bytes, without an expiry; the value can be stored.
  pub append-Models :
      (cfg : Config) (db : StrDb) (f : Spec) (key v : Bytes) (ts : ℤ)
      → Models cfg db f
      → CanSet cfg db key (bytes_of (shown ts (f key)) ++ v) (pos 0)
      → Does cfg
          (append cfg key v ts)
          db
          tt
          (update f key (some (bytes_of (shown ts (f key)) ++ v, pos 0)))
  unfolding append
  append-Models cfg db f key v ts m can =
      let (db', run, m') =
        store_entry-Models cfg db f key (bytes_of (shown ts (f key)) ++ v) (pos 0) m can.0 can.1
          can.2 in
      (db', rw (find_lem cfg db f key ts m) run, m')
