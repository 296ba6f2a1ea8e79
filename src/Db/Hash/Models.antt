-- ===== src/Db/Hash/Models.antt =====
-- Hashes against a map from keys and fields to values.
use lazy_db.Prelude.{
  ◌+◌, ◌≤◌, ◌<◌, ◌≡◌, refl, sym, ap, ◌∙◌, Bool, Option, none, some, Bytes, length, if◌then◌else◌,
  arith, Bool-cases, Option-cases, inl, inr, bytes_eq, bytes_eq_iff, bytes_eq→eq, is_some, ◌&&◌,
}
use mathlib.Core.Path.{subst}
use lazy_db.Prelude.Res.{ok}
use lazy_db.Prelude.Int.{ℤ, pos}
use lazy_db.Std.GoMap.{bytes_eq_keys}
use lazy_db.Ds.Art.{Art}
use lazy_db.Db.Store.{Config, value_type_hash}
use lazy_db.Db.Store.Room.{CanStore}
use lazy_db.Db.Index.{Value, plain_entry, delete_entry, get_value}
use lazy_db.Db.Index.Lookup.{get_value_at-reply, Matches-is_some}
use lazy_db.Db.Keys.RoundTrip.{key_bytes, IsShort, encode_key_lem, encode_key-injective}
use lazy_db.Db.Str.Models.{update}
use lazy_db.Db.Str.Commands.{shown, or_nil-reply}
use lazy_db.Db.Trees.{TreeDb, tree_of}
use lazy_db.Db.Trees.Models.{Specs, update_at, TreesModel, TreeMatches}
use lazy_db.Db.Trees.Writes.{store_in-Models, delete_in-Models}
use lazy_db.Db.Hash.{get_field, h_get}
use lazy_db.Db.Hash.Update.{set_field, delete_field}

-- The abstract hashes: a key, a field.
abbrev pub Hashes : Type 0
Hashes = Bytes → Bytes → Option (Bytes × ℤ)

abbrev pub set_at : Hashes → Bytes → Bytes → Option (Bytes × ℤ) → Hashes
set_at f key field x k j = if bytes_eq key k && bytes_eq field j then x else f k j

same_bytes_eq : (a b c d : Bytes) → (a ≡ b → c ≡ d) → (c ≡ d → a ≡ b) → bytes_eq a b ≡ bytes_eq c d
same_bytes_eq a b c d h1 h2 = elim (Bool-cases (bytes_eq a b)) [
  | inl e ↦ ground (arith, bytes_eq_iff a b, bytes_eq_iff c d, h1 (bytes_eq→eq a b e))
  | inr e ↦ elim (Bool-cases (bytes_eq c d)) [
    | inl f ↦ ground (arith, bytes_eq_iff a b, h2 (bytes_eq→eq c d f))
    | inr f ↦ e ∙ sym f
  ]
]

-- Encoded fields are equal only where the fields are.
same_field :
    (key field field' : Bytes)
    → IsShort key
    → IsShort field
    → IsShort field'
    → bytes_eq (key_bytes key field) (key_bytes key field') ≡ bytes_eq field field'
same_field key field field' hk hf hf' =
    same_bytes_eq (key_bytes key field) (key_bytes key field') field field'
      (λ e.
        (encode_key-injective key field key field' hk hf hk hf'
          (encode_key_lem key field hk hf ∙ ap ok e ∙ sym (encode_key_lem key field' hk hf'))).1)
      (λ e. ap (λ x. key_bytes key x) e)

module _ ⦃art : Art Value⦄ where
  -- The trees hold the fields of `f` under their encoded names.
  pub record HashModels (cfg : Config) (db : TreeDb) (f : Hashes) : Type 0 where
    pub raw : Specs
    pub stored : TreesModel cfg db raw
    pub named :
        (key field : Bytes)
        → IsShort key
        → IsShort field
        → raw key (key_bytes key field) ≡ f key field

  pub named_update :
      (raw : Specs) (f : Hashes) (key field : Bytes) (x : Option (Bytes × ℤ))
      → IsShort key
      → IsShort field
      → ((k j : Bytes) → IsShort k → IsShort j → raw k (key_bytes k j) ≡ f k j)
      → (k j : Bytes) → IsShort k
      → IsShort j
      → update_at raw key (key_bytes key field) x k (key_bytes k j) ≡ set_at f key field x k j
  named_update raw f key field x hk hf named k j sk sj = elim (Bool-cases (bytes_eq key k)) [
    | inr other ↦ rw other (named k j sk sj)
    | inl e ↦
        let same = bytes_eq→eq key k e in
        rw e (
          subst
            (λ i.
              update (raw key) (key_bytes key field) x (key_bytes i j)
              ≡ (if bytes_eq field j then x else f i j))
            same
            (rw (same_field key field j hk hf sj)
              (ap (λ y. if bytes_eq field j then x else y) (named key j hk sj))))
  ]

  -- On a database that stands for abstract hashes, `HGet` answers the value that a field
  -- shorter than 2 ^ 34 bytes of such a key shows at that second, and nil without an error
  -- where it shows none.
  pub h_get-Models :
      (cfg : Config) (db : TreeDb) (f : Hashes) (key field : Bytes) (ts : ℤ)
      → HashModels cfg db f
      → IsShort key
      → IsShort field
      → h_get key field ts db ≡ ok (shown ts (f key field))
  unfolding h_get get_field get_value
  h_get-Models cfg db f key field ts m hk hf =
      let k = key_bytes key field in
      let name = m.named key field hk hf in
      elim (Option-cases (tree_of db key)) [
        | inl e ↦
            let h = subst (λ o. TreeMatches db.log o (m.raw key)) e (m.stored.index key) in
            let empty = sym name ∙ h k in rw (e, h_get) (rw empty)
        | inr (t, e) ↦
            let h = subst (λ o. TreeMatches db.log o (m.raw key)) e (m.stored.index key) in
            rw (e, h_get)
              (rw (encode_key_lem key field hk hf) (
                rw (get_value_at-reply ts db.log k (art.search t k) (m.raw key k) (h k), name)
                  (or_nil-reply ts (f key field))))
      ]

  -- A round of `HSet` on a database that stands for abstract hashes succeeds, and the new
  -- database stands for the hashes updated at that key and field alone; the key has a tree, key
  -- and field are shorter than 2 ^ 34 bytes, and the entry can be stored.
  pub set_field-Models :
      (cfg : Config) (db : TreeDb) (f : Hashes) (key field v : Bytes) (tree : art.Tree)
      → HashModels cfg db f
      → tree_of db key ≡ some tree
      → IsShort key
      → IsShort field
      → CanStore cfg db.log (plain_entry (key_bytes key field) v)
      → 0 < length (key_bytes key field) + length v
      → (db' : TreeDb) × (set_field cfg key field v db ≡ (ok tt, db'))
        × HashModels cfg db' (set_at f key field (some (v, pos 0)))
  unfolding set_field
  set_field-Models cfg db f key field v tree m there hk hf can some_byte =
      let k = key_bytes key field in
      let (db', run, m') =
        store_in-Models value_type_hash cfg db m.raw key (plain_entry k v) tree there m.stored can
          some_byte refl in
      (
        db',
        rw (encode_key_lem key field hk hf) run,
        record {
          raw = update_at m.raw key k (some (v, pos 0));
          stored = m';
          named = named_update m.raw f key field (some (v, pos 0)) hk hf m.named;
        },
      )

  -- A round of `HDel` on a database that stands for abstract hashes succeeds, tells whether the
  -- field had an entry, expired or not, and leaves a database that stands for the hashes
  -- without the field; the key has a tree, key and field are shorter than 2 ^ 34 bytes, the
  -- entry of the deletion can be stored, and the discard channel has room for two values.
  pub delete_field-Models :
      (cfg : Config) (db : TreeDb) (f : Hashes) (key field : Bytes) (tree : art.Tree)
      → HashModels cfg db f
      → tree_of db key ≡ some tree
      → IsShort key
      → IsShort field
      → CanStore cfg db.log (delete_entry (key_bytes key field))
      → length db.log.discard.val_chan + 2 ≤ db.log.discard.chan_cap
      → (db' : TreeDb) × (delete_field cfg key field db ≡ (ok (is_some (f key field)), db'))
        × HashModels cfg db' (set_at f key field none)
  unfolding delete_field
  delete_field-Models cfg db f key field tree m there hk hf can room =
      let k = key_bytes key field in
      let (db', run, m') = delete_in-Models cfg db m.raw key k tree there m.stored can room in
      let h = subst (λ o. TreeMatches db.log o (m.raw key)) there (m.stored.index key) in
      let had : is_some (art.search tree k) ≡ is_some (f key field) =
        Matches-is_some db.log k (art.search tree k) (m.raw key k) (h k)
        ∙ ap (λ (x : Option (Bytes × ℤ)). is_some x) (m.named key field hk hf) in
      (
        db',
        rw (encode_key_lem key field hk hf) (run ∙ ap (λ (b : Bool). (ok b, db')) had),
        record {
          raw = update_at m.raw key k none;
          stored = m';
          named = named_update m.raw f key field none hk hf m.named;
        },
      )
