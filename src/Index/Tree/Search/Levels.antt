-- ===== src/Index/Tree/Search/Levels.antt =====
-- src/index/btree_index.cpp: `findLeaf` in a tree whose root is an internal node above leaves.
use somedb.Base.{
  ℕ, zero, suc, ◌+◌, ◌<◌, ◌≡◌, refl, Bool, true, false, Option, none, some, List, [], ◌∷◌, length,
  arith, if◌then◌else◌,
}
use somedb.Index.Key.{BTreeKey, cmp_keys}
use somedb.Index.Page.{BTreePage, at, is_above, ◌>>=◌}
use somedb.Index.Page.Shift.{Entry, keys_of, values_of, length-map}
use somedb.Index.Serial.RoundTrip.{internal_page}
use somedb.Index.Tree.{BTree}
use somedb.Index.Tree.Search.{
  Reached, internal_children, descend, search_round, find_leaf_from, find_leaf,
}
use somedb.Index.Tree.Search.Ends.{Upward, find_child-Upward}
use somedb.Index.Tree.Store.{NodeStore}

-- Which end of an internal node the search takes.
abbrev pub end_pid : Bool → ℕ → ℕ → ℕ
end_pid below c rightmost = if below then c else rightmost

abbrev pub end_index : Bool → Option ℕ
end_index below = if below then some 0 else none

module _ (nodes : NodeStore) where
  search_round-ends :
      (fuel : ℕ) (key : BTreeKey) (flags rightmost next : ℕ) (k : BTreeKey) (c : ℕ)
      (es : List (Entry ℕ)) (r : Reached nodes.Store) (b : Bool)
      → r.temp ≡ internal_page flags rightmost next ((k, c) ∷ es)
      → is_above (cmp_keys k key) ≡ b
      → Upward key (k ∷ keys_of es)
      → length es < 65535
      → length es < fuel
      → search_round nodes fuel key r ≡ descend nodes (end_index b) (end_pid b c rightmost) r
  unfolding search_round internal_children
  search_round-ends fuel key flags rightmost next k c es r true page above up small enough =
      let first : at r.temp.keys 0 ≡ some k = rw page in
      let cs : internal_children r.temp.values ≡ some (c ∷ values_of es) = rw page in
      rw (first, ◌>>=◌, above, cs)
  search_round-ends fuel key flags rightmost next k c es r false page above up small enough =
      let len = length-map (λ (e : Entry ℕ). e.0) es in
      let keys : r.temp.keys ≡ k ∷ keys_of es = rw page in
      let found =
        find_child-Upward nodes fuel key r [] k (keys_of es) keys up (rw keys (omega (arith, len)))
          (omega (arith, len)) in
      let first : at r.temp.keys 0 ≡ some k = rw keys in
      let last : r.temp.rightmost_ptr ≡ rightmost = rw page in rw (first, ◌>>=◌, above, found, last)

  find_leaf_from-leaf :
      (fuel : ℕ) (key : BTreeKey) (r : Reached nodes.Store)
      → r.temp.is_leaf ≡ true
      → find_leaf_from nodes (suc fuel) key r ≡ some r
  unfolding find_leaf_from
  find_leaf_from-leaf fuel key r h = rw h

  -- In a tree whose root is fetched as an internal node of fewer than 65536 keys, where a key
  -- above the given one is followed by such keys only, the search takes the first child if the
  -- first key is above the given one, and the rightmost child if not, so that it reaches none of
  -- the children between. If that child is fetched as a leaf, the search ends there with one
  -- breadcrumb, for fuel above the number of keys.
  pub find_leaf-ends :
      (fuel : ℕ) (tree : BTree) (key : BTreeKey) (s s₁ s₂ : nodes.Store) (flags rightmost next : ℕ)
      (k : BTreeKey) (c : ℕ) (es : List (Entry ℕ)) (leaf : BTreePage)
      → nodes.fetch tree.root_pid s ≡ some (internal_page flags rightmost next ((k, c) ∷ es), s₁)
      → Upward key (k ∷ keys_of es)
      → length es < 65535
      → length es + 1 < fuel
      → leaf.is_leaf ≡ true
      → nodes.fetch (end_pid (is_above (cmp_keys k key)) c rightmost) s₁ ≡ some (leaf, s₂)
      → find_leaf nodes fuel tree key s
        ≡ some (record {
          pid = end_pid (is_above (cmp_keys k key)) c rightmost;
          temp = leaf;
          breadcrumbs =
              record { pid = tree.root_pid; index = end_index (is_above (cmp_keys k key)) } ∷ [];
          store = s₂;
        })
  unfolding find_leaf find_leaf_from descend
  find_leaf-ends zero tree key s s₁ s₂ flags rightmost next k c es leaf root up small enough is_leaf
        there =
      absurd (omega arith)
  find_leaf-ends (suc zero) tree key s s₁ s₂ flags rightmost next k c es leaf root up small enough
        is_leaf there =
      absurd (omega arith)
  find_leaf-ends (suc (suc fuel)) tree key s s₁ s₂ flags rightmost next k c es leaf root up small
        enough is_leaf there =
      let b = is_above (cmp_keys k key) in
      let r : Reached nodes.Store = record {
        pid = tree.root_pid;
        temp = internal_page flags rightmost next ((k, c) ∷ es);
        breadcrumbs = [];
        store = s₁;
      } in
      let below : Reached nodes.Store = record {
        pid = end_pid b c rightmost;
        temp = leaf;
        breadcrumbs = record { pid = tree.root_pid; index = end_index b } ∷ [];
        store = s₂;
      } in
      let round =
        search_round-ends (suc fuel) key flags rightmost next k c es r b refl refl up small
          (omega arith) in
      let down : descend nodes (end_index b) (end_pid b c rightmost) r ≡ some below = rw there in
      rw (root, round, down) (find_leaf_from-leaf fuel key below is_leaf)
