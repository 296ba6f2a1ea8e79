-- ===== src/Db/Index/Lookup.antt =====
-- What an index entry stands for, and what `getValue` and `updateIndexTree` do with it.
use lazy_db.Prelude.{
  ℕ, ◌+◌, ◌≤◌, ◌<◌, ◌≡◌, inl, inr, refl, ap, ◌∙◌, Bool, true, false, Option, none, some, [], ◌∷◌,
  ◌++◌, Bytes, length, ◌==◌, ◌&&◌, if◌then◌else◌, is_some, arith, Bool-cases, length-append,
}
use lazy_db.Prelude.Res.{Res, ok, err, key_not_found}
use lazy_db.Prelude.Int.{ℤ}
use lazy_db.Logfile.Entry.{LogEntry, s_delete}
use lazy_db.Logfile.Codec.{IsEncodable}
use lazy_db.Logfile.ReadBack.{stored}
use lazy_db.Db.Discard.{Discard, send}
use lazy_db.Db.Store.{Config, LogSet, find_log_file, get_archived_log_file}
use lazy_db.Db.Store.Valid.{IsValid, Holds, Holds-read}
use lazy_db.Db.Index.{
  Value, plain_entry, value_slice, has_expired, send_value, send_discard, check_entry, get_value_at,
}

-- `{Key: key, Value: value, ExpiredAt: t}`
abbrev pub timed_entry : Bytes → Bytes → ℤ → LogEntry
timed_entry key value t = record (plain_entry key value) { expired_at = t }

-- The index value leads to a stored entry with value `v` and expiry `t`.
pub record Leads (l : LogSet) (val : Value) (v : Bytes) (t : ℤ) : Type 0 where
  pub e : LogEntry
  pub held : Holds l val.fid val.offset e
  pub expiry : val.expired_at ≡ t
  pub encodable : IsEncodable e
  pub some_byte : 0 < length e.key + length e.value
  pub plain : (e.stat == s_delete) ≡ false
  pub has_value : e.value ≡ v
  pub has_expiry : e.expired_at ≡ t

-- What the index has for a key, beside what the abstract store has.
abbrev pub Matches : LogSet → Bytes → Option Value → Option (Bytes × ℤ) → Type 0
Matches l key none none = Unit {0}
Matches l key none (some x) = ⊥
Matches l key (some val) none = ⊥
Matches l key (some val) (some (v, t)) = Leads l val v t

-- What a lookup answers from the abstract store.
abbrev pub reply : ℤ → Option (Bytes × ℤ) → Res (Option Bytes)
reply ts none = err key_not_found
reply ts (some (v, t)) = if has_expired t ts then err key_not_found else ok (some v)

value_slice-stored :
    (e : LogEntry) → 0 < length e.key + length e.value → value_slice (stored e) ≡ some e.value
unfolding value_slice
value_slice-stored e h =
    let test : (length e.key == 0 && length e.value == 0) ≡ false = ground arith in rw test

pub check_entry-stored :
    (ts : ℤ) (e : LogEntry)
    → 0 < length e.key + length e.value
    → (e.stat == s_delete) ≡ false
    → check_entry ts (stored e) ≡ reply ts (some (e.value, e.expired_at))
unfolding check_entry
check_entry-stored ts e h p = rw (p, value_slice-stored e h)

-- A lookup through a matching index value answers as the abstract store does.
pub get_value_at-reply :
    (ts : ℤ) (l : LogSet) (key : Bytes) (o : Option Value) (x : Option (Bytes × ℤ))
    → Matches l key o x
    → get_value_at ts l o ≡ reply ts x
unfolding get_value_at
get_value_at-reply ts l key none none m = refl
get_value_at-reply ts l key none (some x) m = absurd m
get_value_at-reply ts l key (some val) none m = absurd m
get_value_at-reply ts l key (some val) (some (v, t)) m =
    let same : has_expired val.expired_at ts ≡ has_expired t ts =
      ap (λ x. has_expired x ts) m.expiry in
    let read = Holds-read l val.fid val.offset m.e m.encodable m.some_byte m.held in
    let answer : check_entry ts (stored m.e) ≡ reply ts (some (v, t)) =
      check_entry-stored ts m.e m.some_byte m.plain
      ∙ ap (λ (b : Bytes). reply ts (some (b, m.e.expired_at))) m.has_value
      ∙ ap (λ (u : ℤ). reply ts (some (v, u))) m.has_expiry in
    elim (Bool-cases (has_expired t ts)) [
      | inl old ↦ rw (same ∙ old, old)
      | inr new ↦ rw (same ∙ new) (rw (read, get_value_at) answer)
    ]

-- A change of the discard record alone leaves what is stored.
pub discard-Holds :
    (l : LogSet) (d : Discard) (k offset : ℕ) (e : LogEntry)
    → Holds l k offset e
    → Holds (record l { discard = d }) k offset e
unfolding find_log_file get_archived_log_file
discard-Holds l d k offset e h = record {
  lf = h.lf;
  is_found = h.is_found;
  named = h.named;
  stands = h.stands;
  readable = h.readable;
  closed = h.closed;
}

pub discard-IsValid :
    (cfg : Config) (l : LogSet) (d : Discard)
    → IsValid cfg l
    → IsValid cfg (record l { discard = d })
discard-IsValid cfg l d (inl f) =
    inl (record { no_active = f.no_active; map_valid = f.map_valid; no_archived = f.no_archived })
discard-IsValid cfg l d (inr (lf, r)) = inr (
  lf,
  record {
    is_active = r.is_active;
    same_io = r.same_io;
    long = r.long;
    map_valid = r.map_valid;
    own_fid = r.own_fid;
    older = r.older;
  },
)

-- A later state of the same log files: what was stored is stored, and the channel has taken `n`
-- values more at most.
pub record Follows (cfg : Config) (l l' : LogSet) (n : ℕ) : Type 0 where
  pub valid : IsValid cfg l'
  pub keeps : (k offset : ℕ) (e : LogEntry) → Holds l k offset e → Holds l' k offset e
  pub chan : length l'.discard.val_chan ≤ length l.discard.val_chan + n
  pub cap : l'.discard.chan_cap ≡ l.discard.chan_cap

pub Follows-trans :
    {cfg : Config} {a b c : LogSet} {m n : ℕ}
    → Follows cfg a b m
    → Follows cfg b c n
    → Follows cfg a c (m + n)
Follows-trans f g = record {
  valid = g.valid;
  keeps = λ k offset e h. g.keeps k offset e (f.keeps k offset e h);
  chan = omega (arith, f.chan, g.chan);
  cap = g.cap ∙ f.cap;
}

-- A value goes into the channel while that has room.
pub send_value-Follows :
    (cfg : Config) (fid size : ℕ) (l : LogSet)
    → IsValid cfg l
    → length l.discard.val_chan < l.discard.chan_cap
    → (l' : LogSet) × (send_value fid size l ≡ (ok tt, l')) × Follows cfg l l' 1
unfolding send_value send
send_value-Follows cfg fid size l valid room =
    let d = record l.discard { val_chan = l.discard.val_chan ++ (fid, size) ∷ [] } in
    (
      record l { discard = d },
      ground arith,
      record {
        valid = discard-IsValid cfg l d valid;
        keeps = discard-Holds l d;
        chan = omega (arith, length-append l.discard.val_chan ((fid, size) ∷ []));
        cap = refl;
      },
    )

pub Follows-refl : {cfg : Config} {l : LogSet} → IsValid cfg l → (n : ℕ) → Follows cfg l l n
Follows-refl valid n = record {
  valid = valid;
  keeps = λ k offset e h. h;
  chan = omega arith;
  cap = refl;
}

pub send_discard-Follows :
    (cfg : Config) (o : Option Value) (updated : Bool) (l : LogSet)
    → IsValid cfg l
    → length l.discard.val_chan < l.discard.chan_cap
    → (l' : LogSet) × (send_discard o updated l ≡ (ok tt, l')) × Follows cfg l l' 1
unfolding send_discard
send_discard-Follows cfg none updated l valid room = (l, refl, Follows-refl valid 1)
send_discard-Follows cfg (some node) false l valid room = (l, refl, Follows-refl valid 1)
send_discard-Follows cfg (some node) true l valid room = elim (Bool-cases (node.entry_size == 0)) [
  | inl z ↦ (l, rw z, Follows-refl valid 1)
  | inr s ↦
      let (l', e, f) = send_value-Follows cfg node.fid node.entry_size l valid room in
      (l', rw s e, f)
]

-- What the index leads to stays where it is.
pub Matches-Follows :
    {cfg : Config} {l l' : LogSet} {n : ℕ} (key : Bytes) (o : Option Value) (x : Option (Bytes × ℤ))
    → Follows cfg l l' n
    → Matches l key o x
    → Matches l' key o x
Matches-Follows key none none f m = tt
Matches-Follows key none (some x) f m = m
Matches-Follows key (some val) none f m = m
Matches-Follows key (some val) (some (v, t)) f m = record {
  e = m.e;
  held = f.keeps val.fid val.offset m.e m.held;
  expiry = m.expiry;
  encodable = m.encodable;
  some_byte = m.some_byte;
  plain = m.plain;
  has_value = m.has_value;
  has_expiry = m.has_expiry;
}

-- A matching index has a value just where the abstract store has one.
pub Matches-is_some :
    (l : LogSet) (k : Bytes) (o : Option Value) (x : Option (Bytes × ℤ))
    → Matches l k o x
    → is_some o ≡ is_some x
Matches-is_some l k none none m = refl
Matches-is_some l k none (some y) m = absurd m
Matches-is_some l k (some v) none m = absurd m
Matches-is_some l k (some v) (some (w, t)) m = refl
