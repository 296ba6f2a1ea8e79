-- ===== src/Db/Lists/Reads.antt =====
-- `LIndex`, `LLen` and `LRange` against the sequence that a list is.
use lazy_db.Prelude.{
  ℕ, suc, ◌+◌, ◌^◌, ◌<◌, ◌≡◌, refl, ◌∙◌, false, some, List, [], ◌∷◌, ◌++◌, Bytes, length, leb, ltb,
  ◌-◌, Option, arith, length-append, ◌||◌,
}
use mathlib.Core.Path.{subst}
use lazy_db.Prelude.Res.{ok}
use lazy_db.Prelude.Int.{ℤ}
use lazy_db.Ds.Art.{Art}
use lazy_db.Db.Store.{Config}
use lazy_db.Db.Index.{Value}
use lazy_db.Db.Str.Models.{Spec}
use lazy_db.Db.Trees.{TreeDb, tree_of}
use lazy_db.Db.Trees.Models.{Specs, TreesModel}
use lazy_db.Db.Lists.{add32, sub32, encode_list_key, l_sequence, l_meta}
use lazy_db.Db.Lists.Numbers.{Place, l_sequence_lem}
use lazy_db.Db.Lists.Deque.{IsList, Elems}
use lazy_db.Db.Lists.Pushes.{l_meta_lem}
use lazy_db.Db.Lists.Pops.{elem_found}
use lazy_db.Db.Lists.Commands.{find_seq, l_index, l_len, range_loop, range_seqs, l_range}

-- The elements behind the first ones.
Elems-behind :
    (h : Spec) (key : Bytes) (s : ℕ) (ys zs : List Bytes)
    → Elems h key s (ys ++ zs)
    → Elems h key (s + length ys) zs
Elems-behind h key s [] zs es = subst (λ (n : ℕ). Elems h key n zs) (omega arith) es
Elems-behind h key s (y ∷ ys) zs es =
    subst (λ (n : ℕ). Elems h key n zs) (omega arith) (Elems-behind h key (suc s) ys zs es.1)

-- The values of a range: each is there.
abbrev pub all_some : List Bytes → List (Option Bytes)
all_some [] = []
all_some (x ∷ xs) = some x ∷ all_some xs

module _ ⦃art : Art Value⦄ where
  find_seq_lem :
      (key : Bytes) (index ts : ℤ) (tree : art.Tree) (db : TreeDb) (head_seq n i : ℕ)
      → l_meta tree key ts db ≡ ok (head_seq, head_seq + n + 1)
      → head_seq + n + 1 < 2 ^ 32
      → i < n
      → Place n index i
      → find_seq tree key index ts db ≡ (ok (suc head_seq + i), db)
  unfolding find_seq
  find_seq_lem key index ts tree db head_seq n i metas below lt place =
      let number : l_sequence head_seq (head_seq + n + 1) index ≡ suc head_seq + i =
        l_sequence_lem head_seq n i index below lt place ∙ omega arith in
      let inside : (leb (suc head_seq + i) head_seq || leb (head_seq + n + 1) (suc head_seq + i))
          ≡ false =
        ground arith in
      rw metas (rw number (rw inside refl))

  -- On a database that stands for abstract trees, where the tree of the key has the elements of
  -- a sequence, `LIndex` of an index, from the front or by a negative number from the end, that
  -- stands for a place of the sequence answers the element there and changes nothing; the key
  -- has a tree.
  pub l_index-Models :
      (cfg : Config) (db : TreeDb) (g : Specs) (key : Bytes) (index ts : ℤ) (tree : art.Tree)
      (head_seq : ℕ) (ys zs : List Bytes) (x : Bytes)
      → tree_of db key ≡ some tree
      → TreesModel cfg db g
      → IsList (g key) key head_seq (ys ++ x ∷ zs)
      → Place (length (ys ++ x ∷ zs)) index (length ys)
      → l_index key index ts db ≡ (ok (some x), db)
  unfolding l_index
  l_index-Models cfg db g key index ts tree head_seq ys zs x there m list place =
      let n = length (ys ++ x ∷ zs) in
      let lt : length ys < n = omega (arith, length-append ys (x ∷ zs)) in
      let metas = l_meta_lem cfg db g key ts tree m there ∙ list.meta ts in
      let seq =
        find_seq_lem key index ts tree db head_seq n (length ys) metas list.below lt place in
      let has = (Elems-behind (g key) key (suc head_seq) ys (x ∷ zs) list.elems).0 in
      let k = encode_list_key key (suc head_seq + length ys) in
      rw (there, l_index) (rw seq (rw (elem_found cfg db g key k x ts tree m there has) refl))

  -- `LLen` of such a list is the length of the sequence.
  pub l_len-Models :
      (cfg : Config) (db : TreeDb) (g : Specs) (key : Bytes) (ts : ℤ) (tree : art.Tree)
      (head_seq : ℕ) (xs : List Bytes)
      → tree_of db key ≡ some tree
      → TreesModel cfg db g
      → IsList (g key) key head_seq xs
      → l_len key ts db ≡ ok (length xs)
  unfolding l_len
  l_len-Models cfg db g key ts tree head_seq xs there m list =
      let n = length xs in
      let metas = l_meta_lem cfg db g key ts tree m there ∙ list.meta ts in
      let below : head_seq + n + 1 < 2 ^ 32 = list.below in
      let count : sub32 (sub32 (head_seq + n + 1) head_seq) 1 ≡ n = omega (arith, below) in
      rw (there, l_len) (rw metas (rw count))

  range_loop_lem :
      (cfg : Config) (db : TreeDb) (g : Specs) (key : Bytes) (ts : ℤ) (tree : art.Tree) (s : ℕ)
      (xs zs : List Bytes)
      → tree_of db key ≡ some tree
      → TreesModel cfg db g
      → Elems (g key) key s (xs ++ zs)
      → range_loop (length xs) tree key s ts db ≡ (ok (all_some xs), db)
  unfolding range_loop
  range_loop_lem cfg db g key ts tree s [] zs there m es = refl
  range_loop_lem cfg db g key ts tree s (x ∷ xs) zs there m es =
      let found = elem_found cfg db g key (encode_list_key key s) x ts tree m there es.0 in
      let next : s + 1 ≡ suc s = omega arith in
      let rest = range_loop_lem cfg db g key ts tree (suc s) xs zs there m es.1 in
      rw found (rw next (rw rest refl))

  range_seqs_lem :
      (tree : art.Tree) (key : Bytes) (head_seq n i k : ℕ) (ts : ℤ)
      → head_seq + n + 1 < 2 ^ 32
      → i + k < n
      → range_seqs tree key head_seq
          (head_seq + n + 1)
          (suc head_seq + i)
          (suc head_seq + (i + k))
          ts
        ≡ range_loop (suc k) tree key (suc head_seq + i) ts
  unfolding range_seqs
  range_seqs_lem tree key head_seq n i k ts below lt =
      let inside : leb (suc head_seq + i) head_seq ≡ false = ground arith in
      let inside' : leb (head_seq + n + 1) (suc head_seq + (i + k)) ≡ false = ground arith in
      let test : (ltb (suc head_seq + (i + k)) (suc head_seq + i)
            || leb (head_seq + n + 1) (suc head_seq + i)
            || leb (suc head_seq + (i + k)) head_seq)
          ≡ false =
        ground arith in
      let count : add32 (suc head_seq + (i + k)) 1 - (suc head_seq + i) ≡ suc k = omega arith in
      rw (inside, inside', test, count) refl

  -- On a database that stands for abstract trees, where the tree of the key has the elements of
  -- a sequence, `LRange` between two indexes, from the front or by a negative number from the
  -- end, that stand for the first and the last place of a part of the sequence answers the
  -- elements of that part and changes nothing; the key has a tree.
  pub l_range-Models :
      (cfg : Config) (db : TreeDb) (g : Specs) (key : Bytes) (start stop ts : ℤ) (tree : art.Tree)
      (head_seq : ℕ) (ys xs zs : List Bytes) (x : Bytes)
      → tree_of db key ≡ some tree
      → TreesModel cfg db g
      → IsList (g key) key head_seq (ys ++ (x ∷ xs ++ zs))
      → Place (length (ys ++ (x ∷ xs ++ zs))) start (length ys)
      → Place (length (ys ++ (x ∷ xs ++ zs))) stop (length ys + length xs)
      → l_range key start stop ts db ≡ (ok (all_some (x ∷ xs)), db)
  unfolding l_range
  l_range-Models cfg db g key start stop ts tree head_seq ys xs zs x there m list first last =
      let i = length ys in
      let n = length (ys ++ (x ∷ xs ++ zs)) in
      let below : head_seq + n + 1 < 2 ^ 32 = list.below in
      let lt : i + length xs < n =
        omega (arith, length-append ys (x ∷ xs ++ zs), length-append xs zs) in
      let metas = l_meta_lem cfg db g key ts tree m there ∙ list.meta ts in
      let from : l_sequence head_seq (head_seq + n + 1) start ≡ suc head_seq + i =
        l_sequence_lem head_seq n i start below (omega (arith, lt)) first ∙ omega arith in
      let to : l_sequence head_seq (head_seq + n + 1) stop ≡ suc head_seq + (i + length xs) =
        l_sequence_lem head_seq n (i + length xs) stop below lt last ∙ omega arith in
      let es = Elems-behind (g key) key (suc head_seq) ys (x ∷ xs ++ zs) list.elems in
      rw (there, l_range)
        (rw metas (
          rw (from, to)
            (rw (range_seqs_lem tree key head_seq n i (length xs) ts below lt)
              (range_loop_lem cfg db g key ts tree (suc head_seq + i) (x ∷ xs) zs there m es))))
