-- ===== src/Index/Tree/Search.antt =====
-- src/index/btree_index.cpp: the way from the root to a leaf.
pub mod Ends
pub mod Levels
use somedb.Base.{
  ℕ, zero, suc, ◌+◌, ◌-◌, ◌%◌, ◌^◌, ltb, ◌&&◌, Bool, true, false, Option, none, some, List, [], ◌∷◌,
  length, if◌then◌else◌,
}
use somedb.Index.Key.{BTreeKey, cmp_keys}
use somedb.Index.Page.{Rid, BTreePage, Values, records, children, at, is_above, ◌>>=◌}
use somedb.Index.Tree.{BTree}
use somedb.Index.Tree.Store.{NodeStore}

-- `BREADCRUMB_TYPE`; the index -1 is `none`.
pub record Breadcrumb : Type 0 where
  pub pid : ℕ
  pub index : Option ℕ

-- What the search has reached: `curr_bpm_page->id`, `temp`, the stack with its top first.
pub record Reached (Store : Type 0) : Type 0 where
  pub pid : ℕ
  pub temp : BTreePage
  pub breadcrumbs : List Breadcrumb
  pub store : Store

-- `std::get<internal_pointers>`, `std::get<leaf_records>`; `none` is `std::bad_variant_access`.
unfoldable pub internal_children : Values → Option (List ℕ)
internal_children (children cs) = some cs
internal_children (records rs) = none

unfoldable pub leaf_records : Values → Option (List Rid)
leaf_records (records rs) = some rs
leaf_records (children cs) = none

module _ (nodes : NodeStore) where
  -- A step to a child, with the index that the breadcrumb takes.
  unfoldable pub descend : Option ℕ → ℕ → Reached nodes.Store → Option (Reached nodes.Store)
  descend index next_ptr r = do
    (temp, store) ← nodes.fetch next_ptr r.store
    some (record {
      pid = next_ptr;
      temp = temp;
      breadcrumbs = record { pid = r.pid; index = index } ∷ r.breadcrumbs;
      store = store;
    })

  -- The loop over the keys. `continue` is that of this loop: it goes on with the keys of the child.
  unfoldable pub find_child : ℕ → ℕ → BTreeKey → Reached nodes.Store → Option (Reached nodes.Store)
  find_child zero i key r = none
  find_child (suc fuel) i key r = elim (ltb i (length r.temp.keys)) [
    | false ↦ some r
    | true ↦ do
      prev_key ← at r.temp.keys (i - 1)
      curr_key ← at r.temp.keys i
      elim (is_above (cmp_keys prev_key key)) [
        | false ↦ find_child fuel ((i + 1) % 2 ^ 16) key r
        | true ↦ elim (is_above (cmp_keys curr_key key)) [
          | true ↦ find_child fuel ((i + 1) % 2 ^ 16) key r
          | false ↦ do
            cs ← internal_children r.temp.values
            next_ptr ← at cs i
            below ← descend (some i) next_ptr r
            find_child fuel ((i + 1) % 2 ^ 16) key below
        ]
      ]
  ]

  -- The round of the `while` loop at an internal node.
  unfoldable pub search_round : ℕ → BTreeKey → Reached nodes.Store → Option (Reached nodes.Store)
  search_round fuel key r = do
    first_key ← at r.temp.keys 0
    elim (is_above (cmp_keys first_key key)) [
      | true ↦ do
        cs ← internal_children r.temp.values
        next_ptr ← at cs 0
        descend (some 0) next_ptr r
      | false ↦ do found ← find_child fuel 1 key r; descend none found.temp.rightmost_ptr found
    ]

  unfoldable pub find_leaf_from : ℕ → BTreeKey → Reached nodes.Store → Option (Reached nodes.Store)
  find_leaf_from zero key r = none
  find_leaf_from (suc fuel) key r = elim r.temp.is_leaf [
    | true ↦ some r
    | false ↦ do below ← search_round fuel key r; find_leaf_from fuel key below
  ]

  -- The result holds the leaf, its page id, and the breadcrumbs.
  unfoldable pub find_leaf : ℕ → BTree → BTreeKey → nodes.Store → Option (Reached nodes.Store)
  find_leaf fuel tree key s = do
    (temp, store) ← nodes.fetch tree.root_pid s
    find_leaf_from fuel key
        (record { pid = tree.root_pid; temp = temp; breadcrumbs = []; store = store })
