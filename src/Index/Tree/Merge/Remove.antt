-- ===== src/Index/Tree/Merge/Remove.antt =====
-- src/index/btree_index.cpp: `remove` of a key from a tree that is one leaf.
use somedb.Base.{
  ℕ, ◌≡◌, refl, sym, ◌∙◌, true, false, inl, inr, Option-cases, none, some, List, [], ◌∷◌, ◌++◌,
  length,
}
use mathlib.Core.List.{map-append}
use somedb.Index.Key.{BTreeKey, key_eq}
use somedb.Index.Page.{Rid, ◌>>=◌}
use somedb.Index.Page.Shift.{Entry, keys_of, values_of, length-map}
use somedb.Index.Serial.RoundTrip.{leaf_page}
use somedb.Index.Tree.{BTree}
use somedb.Index.Tree.Search.{Reached, leaf_records, find_leaf}
use somedb.Index.Tree.Merge.{erase, key_index, remove}
use somedb.Index.Tree.Merge.Leaves.{erase-length}
use somedb.Index.Tree.Store.{NodeStore}

-- No key is the given one.
abbrev pub Absent : BTreeKey → List BTreeKey → Type 0
Absent key [] = Unit
Absent key (k ∷ ks) = (key_eq k key ≡ false) × Absent key ks

key_index-first :
    (key k : BTreeKey) (front back : List BTreeKey)
    → Absent key front
    → key_eq k key ≡ true
    → key_index (front ++ k ∷ back) key ≡ length front
unfolding key_index
key_index-first key k [] back absent here = rw here
key_index-first key k (x ∷ front) back absent here =
    rw (absent.0, key_index-first key k front back absent.1 here)

key_index-Absent :
    (key : BTreeKey) (ks : List BTreeKey) → Absent key ks → key_index ks key ≡ length ks
unfolding key_index
key_index-Absent key [] absent = refl
key_index-Absent key (k ∷ ks) absent = rw (absent.0, key_index-Absent key ks absent.1)

erase-end : {A : Type 0} (xs : List A) → erase (length xs) xs ≡ none
unfolding erase
erase-end [] = refl
erase-end (x ∷ xs) = rw (erase-end xs)

module _ (nodes : NodeStore) where
  -- In a tree that is one leaf, where the search ends with no breadcrumb, remove of a key takes
  -- the first entry with that key out of the leaf, the others staying in their order, flushes the
  -- leaf, and nothing else, and leaves the tree as it was.
  pub remove-leaf :
      (fuel : ℕ) (key : BTreeKey) (tree : BTree) (s : nodes.Store) (r : Reached nodes.Store)
      (flags rightmost next : ℕ) (front back : List (Entry Rid)) (e : Entry Rid)
      → find_leaf nodes fuel tree key s ≡ some r
      → r.temp ≡ leaf_page flags rightmost next (front ++ e ∷ back)
      → r.breadcrumbs ≡ []
      → Absent key (keys_of front)
      → key_eq e.0 key ≡ true
      → remove nodes fuel key tree s ≡ (
          nodes.flush r.pid (leaf_page flags rightmost next (front ++ back)) r.store >>= λ s'.
          some (tree, s'))
  unfolding remove leaf_records
  remove-leaf fuel key tree s r flags rightmost next front back e found page top absent here =
      let k = λ (x : Entry Rid). x.0 in
      let v = λ (x : Entry Rid). x.1 in
      let index : key_index (keys_of (front ++ e ∷ back)) key ≡ length front =
        rw (map-append k front (e ∷ back))
          (key_index-first key e.0 (keys_of front) (keys_of back) absent here)
        ∙ length-map k front in
      let keys : erase (length front) (keys_of (front ++ e ∷ back))
          ≡ some (keys_of (front ++ back)) =
        rw (map-append k front (e ∷ back), map-append k front back)
          (erase-length (length front) (keys_of front) e.0 (keys_of back)
            (sym (length-map k front))) in
      let vals : erase (length front) (values_of (front ++ e ∷ back))
          ≡ some (values_of (front ++ back)) =
        rw (map-append v front (e ∷ back), map-append v front back)
          (erase-length (length front) (values_of front) e.1 (values_of back)
            (sym (length-map v front))) in
      rw (remove, found, ◌>>=◌, page, index, keys, vals, top)

  -- Where the search ends at a leaf in which no key is the given one, remove has no defined
  -- result.
  pub remove-Absent :
      (fuel : ℕ) (key : BTreeKey) (tree : BTree) (s : nodes.Store) (r : Reached nodes.Store)
      → find_leaf nodes fuel tree key s ≡ some r
      → Absent key r.temp.keys
      → remove nodes fuel key tree s ≡ none
  unfolding remove
  remove-Absent fuel key tree s r found absent =
      let past : erase (key_index r.temp.keys key) r.temp.keys ≡ none =
        rw (key_index-Absent key r.temp.keys absent) (erase-end r.temp.keys) in
      elim (Option-cases (leaf_records r.temp.values)) [
        | inl not_leaf ↦ rw (remove, found, ◌>>=◌, not_leaf)
        | inr (vals, are) ↦ rw (remove, found, ◌>>=◌, are, past)
      ]
