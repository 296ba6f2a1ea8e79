-- ===== src/Db/Str/Reads.antt =====
-- `TTL` and `StrLen` of str.go against the abstract store.
use lazy_db.Prelude.{
  ◌≡◌, refl, sym, ap, ◌∙◌, Option, none, some, Bytes, length, inl, inr, Option-cases, if◌then◌else◌,
}
use lazy_db.Prelude.Res.{Res, ok, err, key_not_found}
use lazy_db.Prelude.Int.{ℤ, pos, ◌-ℤ◌, is_zero}
use lazy_db.Ds.Art.{Art}
use lazy_db.Db.Store.{Config, LogSet}
use lazy_db.Db.Index.{Value}
use lazy_db.Db.Index.Lookup.{Matches}
use lazy_db.Db.StrValues.{bytes_of}
use lazy_db.Db.Str.{StrDb, ttl, str_len}
use lazy_db.Db.Str.Models.{Spec, Models}
use lazy_db.Db.Str.Commands.{shown, reply-shown, reply-hidden, get_value_lem}

-- The seconds that are left to a key, negative after its expiry; 0 for a key that does not expire.
abbrev pub time_left : ℤ → Option (Bytes × ℤ) → Res ℤ
time_left ts none = err key_not_found
time_left ts (some (v, t)) = ok (if is_zero t then pos 0 else t -ℤ ts)

left_of : ℤ → Option Value → Res ℤ
left_of ts none = err key_not_found
left_of ts (some node) = ok (if is_zero node.expired_at then pos 0 else node.expired_at -ℤ ts)

left_of-Matches :
    (ts : ℤ) (l : LogSet) (k : Bytes) (o : Option Value) (x : Option (Bytes × ℤ))
    → Matches l k o x
    → left_of ts o ≡ time_left ts x
unfolding left_of
left_of-Matches ts l k none none m = refl
left_of-Matches ts l k none (some x) m = absurd m
left_of-Matches ts l k (some val) none m = absurd m
left_of-Matches ts l k (some val) (some (v, t)) m =
    ap (λ (u : ℤ). ok (if is_zero u then pos 0 else u -ℤ ts)) m.expiry

module _ ⦃art : Art Value⦄ where
  -- On a database that stands for an abstract store, `TTL` answers the seconds from the clock
  -- to the expiry of the key, also the negative ones of a key that has expired, 0 for a key
  -- that does not expire, and `ErrKeyNotFound` for one that the store does not have.
  pub ttl-Models :
      (cfg : Config) (db : StrDb) (f : Spec) (key : Bytes) (ts : ℤ)
      → Models cfg db f
      → ttl key ts db ≡ time_left ts (f key)
  unfolding ttl left_of
  ttl-Models cfg db f key ts m = elim (Option-cases (art.search db.idx_tree key)) [
    | inl e ↦
        rw (e, ttl)
          (ap (left_of ts) (sym e)
            ∙ left_of-Matches ts db.log key (art.search db.idx_tree key) (f key) (m.index key))
    | inr (node, e) ↦
        rw (e, ttl)
          (ap (left_of ts) (sym e)
            ∙ left_of-Matches ts db.log key (art.search db.idx_tree key) (f key) (m.index key))
  ]

  -- On a database that stands for an abstract store, `StrLen` answers the length of the value
  -- that the key shows, and 0 where it shows none.
  pub str_len-Models :
      (cfg : Config) (db : StrDb) (f : Spec) (key : Bytes) (ts : ℤ)
      → Models cfg db f
      → str_len key ts db ≡ ok (length (bytes_of (shown ts (f key))))
  unfolding str_len
  str_len-Models cfg db f key ts m =
      let found = get_value_lem cfg db f key ts m in
      elim (Option-cases (shown ts (f key))) [
        | inl e ↦ rw (found ∙ reply-hidden ts (f key) e, str_len) (rw e)
        | inr (v, e) ↦ rw (found ∙ reply-shown ts (f key) v e, str_len) (rw e)
      ]
