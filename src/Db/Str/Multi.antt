-- ===== src/Db/Str/Multi.antt =====
-- str.go: `MGet`, `MSet` and `MSetNX`.
use lazy_db.Prelude.{
  ℕ, ◌%◌, Bool, true, false, Option, none, some, List, [], ◌∷◌, Bytes, length, ◌==◌, ◌||◌, not,
  if◌then◌else◌,
}
use lazy_db.Prelude.Res.{invalid_param}
use lazy_db.Prelude.Exec.{Exec, pure, raise, ◌>>=◌, ◌>>◌}
use lazy_db.Prelude.Int.{ℤ}
use lazy_db.Ds.Art.{Art}
use lazy_db.Db.Store.{Config}
use lazy_db.Db.Index.{Value, plain_entry, get_value}
use lazy_db.Db.StrValues.{or_nil, elem}
use lazy_db.Db.Str.{StrDb, store_entry, find_str}

module _ ⦃art : Art Value⦄ where
  -- The loop of `MGet`.
  m_get_loop : List Bytes → ℤ → Exec StrDb (List (Option Bytes))
  m_get_loop [] ts = pure []
  m_get_loop (key ∷ keys) ts = do
    value ← λ db. (or_nil (get_value db.idx_tree key ts db.log), db)
    values ← m_get_loop keys ts
    pure (value ∷ values)

  -- `MGet`
  unfoldable pub m_get : List Bytes → ℤ → Exec StrDb (List (Option Bytes))
  unfolding m_get_loop
  m_get [] ts = raise invalid_param
  m_get (key ∷ keys) ts = m_get_loop (key ∷ keys) ts

  -- The loops of `MSet`, over the pairs of the arguments.
  m_set_loop : Config → List Bytes → Exec StrDb (Unit {0})
  m_set_loop cfg [] = pure tt
  m_set_loop cfg (key ∷ []) = pure tt
  m_set_loop cfg (key ∷ val ∷ args) = do store_entry cfg (plain_entry key val); m_set_loop cfg args

  -- `MSet`
  unfoldable pub m_set : Config → List Bytes → Exec StrDb (Unit {0})
  unfolding m_set_loop
  m_set cfg args =
      if length args == 0 || length args % 2 == 1 then raise invalid_param else m_set_loop cfg args

  -- The first loop of `MSetNX`: whether one of the keys has a value.
  any_exists : List Bytes → ℤ → Exec StrDb Bool
  any_exists [] ts = pure false
  any_exists (key ∷ []) ts = pure false
  any_exists (key ∷ value ∷ args) ts = do
    val ← find_str key ts
    elim val [ some v ↦ pure true | none ↦ any_exists args ts ]

  -- The second loop: a key whose hash was met before is passed over.
  m_set_nx_loop : Config → (Bytes → ℕ) → List Bytes → List ℕ → Exec StrDb (Unit {0})
  m_set_nx_loop cfg mem_hash [] new_keys = pure tt
  m_set_nx_loop cfg mem_hash (key ∷ []) new_keys = pure tt
  m_set_nx_loop cfg mem_hash (key ∷ value ∷ args) new_keys =
      let h = mem_hash key in
      let skip = m_set_nx_loop cfg mem_hash args new_keys in
      let write =
        store_entry cfg (plain_entry key value) >> m_set_nx_loop cfg mem_hash args (h ∷ new_keys) in
      if elem h new_keys then skip else write

  -- `MSetNX`. `mem_hash` is `util.MemHash`, the hash of Go's runtime.
  unfoldable pub m_set_nx : Config → (Bytes → ℕ) → List Bytes → ℤ → Exec StrDb (Unit {0})
  unfolding any_exists m_set_nx_loop
  m_set_nx cfg mem_hash args ts =
      if length args == 0 || not (length args % 2 == 0) then raise invalid_param else do
        exists ← any_exists args ts
        if exists then pure tt else m_set_nx_loop cfg mem_hash args []
