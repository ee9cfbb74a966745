-- ===== src/Index/Tree/Tests.antt =====
-- Small trees over a store that is a function.
use somedb.Base.{
  ℕ, ◌+◌, ◌≡◌, refl, ltb, ◌==◌, false, Option, none, some, List, [], ◌∷◌, ◌++◌, length, arith,
  if◌then◌else◌,
}
use somedb.Index.Key.{BTreeKey, cmp_keys}
use somedb.Index.Page.{Rid, BTreePage, at, insert_record, is_above, ◌>>=◌}
use somedb.Index.Page.Shift.{Entry, keys_of}
use somedb.Index.Serial.RoundTrip.{leaf_page, internal_page}
use somedb.Index.Tree.{BTree, btree_index}
use somedb.Index.Tree.Merge.{merge_leaf}
use somedb.Index.Tree.Merge.Leaves.{merge_leaf-right, merge_leaf-left}
use somedb.Index.Tree.Merge.{remove}
use somedb.Index.Tree.Merge.Remove.{remove-leaf, remove-Absent}
use somedb.Index.Key.{key_eq}
use somedb.Index.Tree.Ops.{has_key, insert}
use somedb.Index.Tree.Ops.Insert.{insert-duplicate, insert-room}
use somedb.Index.Tree.Ops.Full.{insert-full}
use somedb.Index.Tree.Ops.NewRoot.{insert-root}
use somedb.Index.Order.{Placed}
use somedb.Index.Page.Insert.{Sorted}
use somedb.Index.Tree.Search.{Reached, find_leaf}
use somedb.Index.Tree.Search.Levels.{find_leaf-ends}
use somedb.Index.Tree.Store.{NodeStore, flush_all}

abbrev empty_leaf : BTreePage
empty_leaf = leaf_page 0 0 0 []

-- The count of nodes, and the node of each page.
abbrev stores : NodeStore
stores = record {
  Store = ℕ × (ℕ → Option BTreePage);
  fetch = λ pid s. s.1 pid >>= λ node. some (node, s);
  flush = λ pid node s. some (s.0, λ q. if q == pid then some node else s.1 q);
  flush_metadata = λ tree s. some (tree.node_count, s.1);
  new_node = λ leaf s.
      if ltb (s.0 + 1) 65536
      then some (s.0 + 1, (s.0 + 1, λ q. if q == s.0 + 1 then some empty_leaf else s.1 q))
      else none;
}

abbrev key : ℕ → BTreeKey
key n = record { bytes = n ∷ []; size = 1 }

abbrev rid : ℕ → Rid
rid n = record { pid = n; slot_num = 0 }

abbrev low_entries : List (Entry Rid)
low_entries = (key 1, rid 1) ∷ (key 2, rid 2) ∷ []

abbrev high_entries : List (Entry Rid)
high_entries = (key 5, rid 5) ∷ []

abbrev tree : BTree
tree = record { magic_num = btree_index; max_size = 4; root_pid = 1; node_count = 1 }

-- A tree that is one leaf.
abbrev single : stores.Store
single = (1, λ q. if q == 1 then some (leaf_page 0 0 0 low_entries) else none)

abbrev found : Reached stores.Store
found = record { pid = 1; temp = leaf_page 0 0 0 low_entries; breadcrumbs = []; store = single }

found_leaf : (k : BTreeKey) → find_leaf stores 2 tree k single ≡ some found
unfolding find_leaf somedb.Index.Tree.Search.find_leaf_from
found_leaf k = refl

insert-duplicate_example :
    insert stores empty_leaf 2 (key 2) (rid 9) tree single ≡ some (0, tree, single)
insert-duplicate_example =
    insert-duplicate stores empty_leaf 2 (key 2) (key 2) (rid 9) tree single found (key 1 ∷ []) []
      (omega arith) (found_leaf (key 2)) (omega arith) refl refl

has_no_key_3 : has_key found.temp.keys (key 3) ≡ false
unfolding has_key cmp_keys somedb.Index.Key.memcmp somedb.Index.Key.same_sign
has_no_key_3 = refl

abbrev three : BTreePage
three = leaf_page 0 0 0 ((key 1, rid 1) ∷ (key 2, rid 2) ∷ (key 3, rid 3) ∷ [])

inserted_3 : insert_record found.temp (key 3) (rid 3) ≡ some three
unfolding insert_record somedb.Index.Page.insert_entries somedb.Index.Page.resize
    somedb.Index.Page.insert_last somedb.Index.Page.put cmp_keys somedb.Index.Key.memcmp
inserted_3 = refl

low_entries-Sorted : Sorted low_entries
unfolding cmp_keys somedb.Index.Key.memcmp
low_entries-Sorted = ((λ e. cc), (tt, tt))

insert-room_example :
    (after : List (Entry Rid)) × Placed low_entries (key 3, rid 3) after
    × Sorted after
    × (insert stores empty_leaf 2 (key 3) (rid 3) tree single
        ≡ (stores.flush 1 (leaf_page 0 0 0 after) single >>= λ s. some (1, tree, s)))
insert-room_example =
    insert-room stores empty_leaf 2 (key 3) (rid 3) tree single found 0 0 0 low_entries
      (omega arith) (found_leaf (key 3)) refl (omega arith) has_no_key_3 low_entries-Sorted
      (omega arith) (omega arith)

abbrev low_tree : BTree
low_tree = record tree { max_size = 2 }

abbrev three_entries : List (Entry Rid)
three_entries = (key 1, rid 1) ∷ (key 2, rid 2) ∷ (key 3, rid 3) ∷ []

found_low_leaf : find_leaf stores 2 low_tree (key 3) single ≡ some found
unfolding find_leaf somedb.Index.Tree.Search.find_leaf_from
found_low_leaf = refl

-- The store with new pages.
abbrev with_page : ℕ → stores.Store → stores.Store
with_page n s = (n, λ q. if q == n then some empty_leaf else s.1 q)

insert-root_example :
    (front back : List (Entry Rid)) × (front ++ back ≡ three_entries)
    × (length front ≡ 1)
    × (insert stores empty_leaf 2 (key 3) (rid 3) low_tree single ≡ (
        (stores.flush_metadata
            (record low_tree { node_count = 3; root_pid = 3 })
            (with_page 3 (with_page 2 single))
          >>= flush_all stores (
              (2, leaf_page 0 0 0 back)
              ∷ (3, internal_page 0 2 0 ((key 2, 1) ∷ []))
              ∷ (1, leaf_page 0 0 2 front)
              ∷ (1, leaf_page 0 0 2 front)
              ∷ []))
        >>= λ s. some (1, record low_tree { node_count = 3; root_pid = 3 }, s)))
insert-root_example =
    insert-root stores empty_leaf 2 (key 3) (rid 3) low_tree single (with_page 2 single)
      (with_page 3 (with_page 2 single)) found 0 0 0 2 3 three_entries (key 2) (omega arith)
      found_low_leaf refl refl has_no_key_3 inserted_3 (omega arith) refl refl refl (omega arith)
      (omega arith)

-- Two leaves under a root.
abbrev two_leaves : stores.Store
two_leaves = (
  3,
  λ q.
      if q == 1
      then some (leaf_page 0 0 2 low_entries)
      else if q == 2
      then some (leaf_page 0 0 0 high_entries)
      else if q == 3
      then some (internal_page 0 2 0 ((key 5, 1) ∷ []))
      else none,
)

abbrev tall : BTree
tall = record tree { node_count = 3; root_pid = 3 }

abbrev small : BTree
small = record tall { max_size = 2 }

abbrev found_left : Reached stores.Store
found_left = record {
  pid = 1;
  temp = leaf_page 0 0 2 low_entries;
  breadcrumbs = record { pid = 3; index = some 0 } ∷ [];
  store = two_leaves;
}

found_left_leaf : find_leaf stores 4 small (key 3) two_leaves ≡ some found_left
unfolding find_leaf somedb.Index.Tree.Search.find_leaf_from somedb.Index.Tree.Search.search_round
    somedb.Index.Tree.Search.find_child somedb.Index.Tree.Search.descend cmp_keys
    somedb.Index.Key.memcmp somedb.Index.Tree.Search.internal_children
found_left_leaf = refl

inserted_low :
    insert_record (leaf_page 0 0 2 low_entries) (key 3) (rid 3)
    ≡ some (leaf_page 0 0 2 three_entries)
unfolding insert_record somedb.Index.Page.insert_entries somedb.Index.Page.resize
    somedb.Index.Page.insert_last somedb.Index.Page.put cmp_keys somedb.Index.Key.memcmp
inserted_low = refl

-- The left leaf is split: the key 2 goes to the root.
insert-full_example :
    (front back : List (Entry Rid)) × (after : List (Entry ℕ)) × (last : BTreeKey) × (front ++ back
      ≡ three_entries)
    × (length front ≡ 1)
    × Placed ((key 5, 1) ∷ []) (key 2, 1) after
    × Sorted after
    × (at (keys_of after) 1 ≡ some last)
    × (insert stores empty_leaf 4 (key 3) (rid 3) small two_leaves ≡ (
        flush_all stores
          ((3, internal_page 0 (if key_eq last (key 2) then 4 else 2) 0 after)
            ∷ (4, leaf_page 0 0 2 back)
            ∷ (1, leaf_page 0 0 4 front)
            ∷ (1, leaf_page 0 0 4 front)
            ∷ [])
          (with_page 4 two_leaves)
        >>= λ s. some (1, record small { node_count = 4 }, s)))
insert-full_example =
    insert-full stores empty_leaf 3 (key 3) (rid 3) small two_leaves (with_page 4 two_leaves)
      (with_page 4 two_leaves) (with_page 4 two_leaves) found_left 0 0 2 4 three_entries (key 2) 0 2
      0 ((key 5, 1) ∷ []) (record { pid = 3; index = some 0 }) [] (omega arith) found_left_leaf
      has_no_key_3 inserted_low (omega arith) refl refl (omega arith) refl (omega arith) refl refl
      (tt, tt) (omega arith) (omega arith)

-- Three leaves: a key between the two keys of the root is looked for in the last one.
abbrev three_leaves : stores.Store
three_leaves = (
  4,
  λ q.
      if q == 2
      then some (leaf_page 0 0 0 high_entries)
      else if q == 3
      then some (internal_page 0 2 0 ((key 3, 1) ∷ (key 5, 4) ∷ []))
      else none,
)

find_leaf-ends_example :
    find_leaf stores 3 tall (key 4) three_leaves
    ≡ some (record {
      pid = 2;
      temp = leaf_page 0 0 0 high_entries;
      breadcrumbs = record { pid = 3; index = none } ∷ [];
      store = three_leaves;
    })
unfolding cmp_keys somedb.Index.Key.memcmp
find_leaf-ends_example =
    find_leaf-ends stores 3 tall (key 4) three_leaves three_leaves three_leaves 0 2 0 (key 3) 1
      ((key 5, 4) ∷ []) (leaf_page 0 0 0 high_entries) refl ((λ above. refl), tt) (omega arith)
      (omega arith) refl refl

merge_leaf-right_example :
    merge_leaf stores tree
      (some 0)
      (record {
        node = leaf_page 0 0 2 low_entries;
        node_pid = 1;
        sibling = leaf_page 0 0 8 high_entries;
        sibling_pid = 2;
        parent = internal_page 0 8 0 ((key 5, 1) ∷ (key 7, 2) ∷ []);
      })
      two_leaves
    ≡ (stores.flush 1 (leaf_page 0 0 8 (low_entries ++ high_entries)) two_leaves >>= λ s. some (
      record {
        node = leaf_page 0 0 8 (low_entries ++ high_entries);
        node_pid = 1;
        sibling = leaf_page 0 0 8 high_entries;
        sibling_pid = 2;
        parent = internal_page 0 8 0 ((key 7, 1) ∷ []);
      },
      s,
    ))
merge_leaf-right_example =
    merge_leaf-right stores two_leaves tree 1 2 low_entries high_entries [] [] (key 5) (key 7) 0 0 2
      0 0 8 0 8 0 (omega arith) (omega arith) (omega arith)

merge_leaf-left_example :
    merge_leaf stores tree none
      (record {
        node = leaf_page 0 0 0 high_entries;
        node_pid = 2;
        sibling = leaf_page 0 0 2 low_entries;
        sibling_pid = 1;
        parent = internal_page 0 2 0 ((key 0, 8) ∷ (key 5, 1) ∷ []);
      })
      two_leaves
    ≡ (stores.flush 1 (leaf_page 0 0 2 (low_entries ++ high_entries)) two_leaves >>= λ s. some (
      record {
        node = leaf_page 0 0 0 high_entries;
        node_pid = 2;
        sibling = leaf_page 0 0 2 (low_entries ++ high_entries);
        sibling_pid = 1;
        parent = internal_page 0 1 0 ((key 0, 8) ∷ []);
      },
      s,
    ))
merge_leaf-left_example =
    merge_leaf-left stores two_leaves tree 2 1 high_entries low_entries (key 0, 8) [] (key 5) 0 0 0
      0 0 2 0 0 (omega arith) (omega arith)

remove-leaf_example :
    remove stores 2 (key 2) tree single
    ≡ (stores.flush 1 (leaf_page 0 0 0 ((key 1, rid 1) ∷ [])) single >>= λ s. some (tree, s))
unfolding key_eq somedb.Index.Key.memcmp somedb.Index.Key.same_sign
remove-leaf_example =
    remove-leaf stores 2 (key 2) tree single found 0 0 0 ((key 1, rid 1) ∷ []) [] (key 2, rid 2)
      (found_leaf (key 2)) refl refl (refl, tt) refl

remove-Absent_example : remove stores 2 (key 3) tree single ≡ none
unfolding key_eq somedb.Index.Key.memcmp somedb.Index.Key.same_sign
remove-Absent_example =
    remove-Absent stores 2 (key 3) tree single found (found_leaf (key 3)) (refl, (refl, tt))
