-- ===== src/Ds/Art.antt =====
-- ds/adaptive_radix_tree.go. The tree is the package `plar/go-adaptive-radix-tree`: its type and
-- its operations are parameters, with what their documentation says.
use lazy_db.Prelude.{
  ℕ, zero, suc, ◌≡◌, refl, Bool, true, false, Option, none, some, List, [], ◌∷◌, Bytes, length,
  bytes_eq, if◌then◌else◌, is_some, ◌&&◌, ◌==◌,
}
use lazy_db.Prelude.Int.{ℤ, pos, negsuc}
use lazy_db.Std.GoMap
use lazy_db.Std.GoMap.{GoMap, lookup, bytes_eq_keys, lookup-insert, lookup-remove}

abbrev pub has_prefix : Bytes → Bytes → Bool
has_prefix [] ys = true
has_prefix (x ∷ xs) [] = false
has_prefix (x ∷ xs) (y ∷ ys) = x == y && has_prefix xs ys

abbrev pub with_prefix {ℓ} : {V : Type ℓ} → Bytes → List (Bytes × V) → List (Bytes × V)
with_prefix p [] = []
with_prefix p ((k, v) ∷ l) =
    let rest = with_prefix p l in if has_prefix p k then (k, v) ∷ rest else rest

-- `art.Tree` with values in `V`. `insert` and `delete` also give the value that the key had, and
-- whether it had one. `leaves` is the order of `ForEach` and of `Iterator`.
pub record Art (V : Type 0) : Type 1 where
  pub Tree : Type 0
  pub new : Tree
  pub search : Tree → Bytes → Option V
  pub insert : Tree → Bytes → V → Tree × Option V × Bool
  pub delete : Tree → Bytes → Tree × Option V × Bool
  pub size : Tree → ℕ
  pub leaves : Tree → List (Bytes × V)
  pub leaves_with_prefix : Tree → Bytes → List (Bytes × V)
  pub search-new : (k : Bytes) → search new k ≡ none
  pub search-insert :
      (t : Tree) (k : Bytes) (v : V) (j : Bytes)
      → search (insert t k v).0 j ≡ (if bytes_eq k j then some v else search t j)
  pub insert_old : (t : Tree) (k : Bytes) (v : V) → (insert t k v).1 ≡ search t k
  pub insert_updated : (t : Tree) (k : Bytes) (v : V) → (insert t k v).2 ≡ is_some (search t k)
  pub search-delete :
      (t : Tree) (k j : Bytes)
      → search (delete t k).0 j ≡ (if bytes_eq k j then none else search t j)
  pub delete_old : (t : Tree) (k : Bytes) → (delete t k).1 ≡ search t k
  pub delete_updated : (t : Tree) (k : Bytes) → (delete t k).2 ≡ is_some (search t k)
  pub lookup-leaves : (t : Tree) (k : Bytes) → GoMap.lookup k (leaves t) ≡ search t k
  pub size-leaves : (t : Tree) → size t ≡ length (leaves t)
  pub prefix-leaves : (t : Tree) (p : Bytes) → leaves_with_prefix t p ≡ with_prefix p (leaves t)

module _ {V : Type 0} ⦃art : Art V⦄ where
  -- `Get`: the value of `Search`, nil where there is none.
  abbrev pub tree_get : art.Tree → Bytes → Option V
  tree_get t key = art.search t key

  -- `Put`
  abbrev pub tree_put : art.Tree → Bytes → V → art.Tree × Option V × Bool
  tree_put t key value = art.insert t key value

  -- `Delete`
  abbrev pub tree_delete : art.Tree → Bytes → art.Tree × Option V × Bool
  tree_delete t key = art.delete t key

-- The callback of `PrefixScan` over the leaves: a count below 0 sets no limit.
abbrev pub scan_leaves : {V : Type 0} → List (Bytes × V) → ℤ → List Bytes
scan_leaves [] count = []
scan_leaves ((k, v) ∷ l) (negsuc n) = k ∷ scan_leaves l (negsuc n)
scan_leaves ((k, v) ∷ l) (pos zero) = []
scan_leaves ((k, v) ∷ l) (pos (suc n)) = k ∷ scan_leaves l (pos n)

-- `PrefixScan`
unfoldable pub prefix_scan : {V : Type 0} (art : Art V) → art.Tree → Bytes → ℤ → List Bytes
prefix_scan art t [] count = scan_leaves (art.leaves t) count
prefix_scan art t (p ∷ ps) count = scan_leaves (art.leaves_with_prefix t (p ∷ ps)) count

pub lookup-nil : (V : Type 0) (k : Bytes) → GoMap.lookup {V = V} k [] ≡ none
unfolding lookup
lookup-nil V k = refl

-- A tree that meets the laws: an association list.
abbrev pub list_tree : (V : Type 0) → Art V
list_tree V = record {
  Tree = GoMap Bytes V;
  new = [];
  search = λ t k. GoMap.lookup k t;
  insert = λ t k v. (GoMap.insert k v t, GoMap.lookup k t, is_some (GoMap.lookup k t));
  delete = λ t k. (GoMap.remove k t, GoMap.lookup k t, is_some (GoMap.lookup k t));
  size = λ t. length t;
  leaves = λ t. t;
  leaves_with_prefix = λ t p. with_prefix p t;
  search-new = λ k. lookup-nil V k;
  search-insert = λ t k v j. lookup-insert k j v t;
  insert_old = λ t k v. refl;
  insert_updated = λ t k v. refl;
  search-delete = λ t k j. lookup-remove k j t;
  delete_old = λ t k. refl;
  delete_updated = λ t k. refl;
  lookup-leaves = λ t k. refl;
  size-leaves = λ t. refl;
  prefix-leaves = λ t p. refl;
}
