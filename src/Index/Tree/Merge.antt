-- ===== src/Index/Tree/Merge.antt =====
-- src/index/btree_strategy.cpp, include/index/index_page.hpp and src/index/btree_index.cpp: removal,
-- and the merge of a node with a sibling.
-- `none` is an exception, undefined behaviour of a vector, or a page that cannot be fetched.
pub mod Leaves
pub mod Remove
use somedb.Base.{
  ℕ, zero, suc, ◌+◌, ◌-◌, ◌%◌, ◌^◌, ltb, ◌==◌, ◌||◌, Bool, true, false, Option, none, some, List,
  [], ◌∷◌, ◌++◌, length, if◌then◌else◌,
}
use somedb.Index.Key.{BTreeKey, key_eq}
use somedb.Index.Page.{BTreePage, records, children, at, put, drop_last, ◌>>=◌}
use somedb.Index.Tree.{BTree}
use somedb.Index.Tree.Search.{Breadcrumb, internal_children, leaf_records, find_leaf}
use somedb.Index.Tree.Store.{NodeStore}

-- `xs.erase(xs.begin() + i)`
unfoldable pub erase {ℓ} : {A : Type ℓ} → ℕ → List A → Option (List A)
erase i [] = none
erase zero (x ∷ xs) = some xs
erase (suc i) (x ∷ xs) = do xs' ← erase i xs; some (x ∷ xs')

-- `xs.pop_back()`
unfoldable pub pop_back {ℓ} : {A : Type ℓ} → List A → Option (List A)
pop_back [] = none
pop_back (x ∷ xs) = some (drop_last (x ∷ xs))

-- `BTreePageLocalInfo`, with the page id of the parent in the breadcrumb.
pub record LocalInfo : Type 0 where
  pub node : BTreePage
  pub node_pid : ℕ
  pub sibling : BTreePage
  pub sibling_pid : ℕ
  pub parent : BTreePage

-- The index of a key, or the number of keys.
unfoldable pub key_index : List BTreeKey → BTreeKey → ℕ
key_index [] key = 0
key_index (leaf_key ∷ keys) key = if key_eq leaf_key key then 0 else suc (key_index keys key)

module _ (nodes : NodeStore) where
  -- `MergeLeafNodeStrategy::merge` into the left sibling.
  unfoldable pub merge_leaf_left : LocalInfo → nodes.Store → Option (LocalInfo × nodes.Store)
  merge_leaf_left local s = do
    sibling_vals ← leaf_records local.sibling.values
    node_vals ← leaf_records local.node.values
    parent_vals ← internal_children local.parent.values
    let sibling = record local.sibling {
      keys = local.sibling.keys ++ local.node.keys;
      values = records (sibling_vals ++ node_vals);
    }
    s' ← nodes.flush local.sibling_pid sibling s
    replaced ← put parent_vals 0 local.sibling_pid
    let one_key = length local.parent.keys == 1
    parent_vals' ← pop_back (if one_key then replaced else parent_vals)
    parent_keys ← pop_back local.parent.keys
    let parent = record local.parent {
      keys = parent_keys;
      values = children parent_vals';
      rightmost_ptr = if one_key then local.parent.rightmost_ptr else local.sibling_pid;
    }
    some (record local { sibling = sibling; parent = parent }, s')

  -- The right sibling is merged into the node.
  unfoldable pub merge_leaf_right : ℕ → LocalInfo → nodes.Store → Option (LocalInfo × nodes.Store)
  merge_leaf_right index local s = do
    sibling_vals ← leaf_records local.sibling.values
    node_vals ← leaf_records local.node.values
    parent_vals ← internal_children local.parent.values
    let node = record local.node {
      keys = local.node.keys ++ local.sibling.keys;
      values = records (node_vals ++ sibling_vals);
    }
    elim (local.sibling_pid == local.parent.rightmost_ptr) [
      | true ↦ do
        s' ← nodes.flush local.node_pid node s
        some (record local { node = node; parent = record local.parent { rightmost_ptr = 0 } }, s')
      | false ↦ do
        erased ← erase index parent_vals
        parent_vals' ← put erased index local.node_pid
        parent_keys ← erase index local.parent.keys
        let node' = record node { next = local.sibling.next }
        s' ← nodes.flush local.node_pid node' s
        some (
          record local {
            node = node';
            parent = record local.parent { keys = parent_keys; values = children parent_vals' };
          },
          s',
        )
    ]

  -- A breadcrumb with the index -1 chooses the left sibling.
  unfoldable pub merge_leaf :
      BTree → Option ℕ → LocalInfo → nodes.Store → Option (LocalInfo × nodes.Store)
  merge_leaf tree index local s =
      elim (length local.sibling.keys == 0
        || ltb tree.max_size (length local.node.keys + length local.sibling.keys)) [
          | true ↦ some (local, s)
          | false ↦ elim index [
            | none ↦ merge_leaf_left local s
            | some i ↦ merge_leaf_right i local s
          ]
        ]

  -- `MergeNonLeafNodeStrategy::merge` into the left sibling.
  unfoldable pub merge_non_leaf_left : LocalInfo → nodes.Store → Option (LocalInfo × nodes.Store)
  merge_non_leaf_left local s = do
    sibling_vals ← internal_children local.sibling.values
    node_vals ← internal_children local.node.values
    demoted_key ← at local.parent.keys (length local.parent.keys - 1)
    parent_keys ← erase (length local.parent.keys - 1) local.parent.keys
    let sibling = record local.sibling {
      keys = local.sibling.keys ++ demoted_key ∷ local.node.keys;
      values = children (sibling_vals ++ local.sibling.rightmost_ptr ∷ node_vals);
      rightmost_ptr = local.node.rightmost_ptr;
    }
    s' ← nodes.flush local.sibling_pid sibling s
    some (
      record local {
        sibling = sibling;
        parent = record local.parent { keys = parent_keys; rightmost_ptr = 0 };
      },
      s',
    )

  unfoldable pub merge_non_leaf_right :
      ℕ → LocalInfo → nodes.Store → Option (LocalInfo × nodes.Store)
  merge_non_leaf_right index local s = do
    sibling_vals ← internal_children local.sibling.values
    node_vals ← internal_children local.node.values
    demoted_key ← at local.parent.keys index
    parent_keys ← erase index local.parent.keys
    let node = record local.node {
      keys = local.node.keys ++ demoted_key ∷ local.sibling.keys;
      values = children (node_vals ++ sibling_vals);
      rightmost_ptr = local.sibling.rightmost_ptr;
    }
    s' ← nodes.flush local.node_pid node s
    some (record local { node = node; parent = record local.parent { keys = parent_keys } }, s')

  unfoldable pub merge_non_leaf :
      BTree → ℕ → Option ℕ → LocalInfo → nodes.Store → Option (LocalInfo × nodes.Store)
  merge_non_leaf tree parent_pid index local s =
      let total_ptr_num = (length local.node.keys + 1 + length local.sibling.keys + 1) % 2 ^ 16 in
      elim (ltb (tree.max_size + 1) total_ptr_num) [
        | true ↦ some (local, s)
        | false ↦ do
          (local', s₁) ← elim index [
            | none ↦ merge_non_leaf_left local s
            | some i ↦ merge_non_leaf_right i local s
          ]
          s₂ ← nodes.flush parent_pid local'.parent s₁
          some (local', s₂)
      ]

  -- One call of `merge`, up to the flush of the parent.
  unfoldable pub merge_level :
      ℕ → Breadcrumb → BTree → nodes.Store → Option (LocalInfo × nodes.Store)
  merge_level node_pid parent_crumb tree s = do
    (parent, s₁) ← nodes.fetch parent_crumb.pid s
    parent_vals ← internal_children parent.values
    (node, s₂) ← nodes.fetch node_pid s₁
    sib_pid ← elim parent_crumb.index [
      | none ↦ at parent_vals (length parent_vals - 1)
      | some i ↦ some node.next
    ]
    (sib, s₃) ← nodes.fetch sib_pid s₂
    let local : LocalInfo = record {
      node = node;
      node_pid = node_pid;
      sibling = sib;
      sibling_pid = sib_pid;
      parent = parent;
    }
    (local', s₄) ← elim node.is_leaf [
      | true ↦ merge_leaf tree parent_crumb.index local s₃
      | false ↦ merge_non_leaf tree parent_crumb.pid parent_crumb.index local s₃
    ]
    s₅ ← nodes.flush parent_crumb.pid local'.parent s₄
    some (local', s₅)

  -- The end of `merge` at the last breadcrumb, which is that of the root.
  unfoldable pub merge_root :
      Option ℕ → LocalInfo → BTree → nodes.Store → Option (BTree × nodes.Store)
  merge_root index local tree s =
      let new_root : BTree = record tree {
        root_pid = elim index [ none ↦ local.sibling_pid | some i ↦ local.node_pid ];
      } in
      elim (length local.parent.keys == 0) [
        | false ↦ some (tree, s)
        | true ↦ do s' ← nodes.flush_metadata new_root s; some (new_root, s')
      ]

  -- `top` of an empty stack is undefined.
  unfoldable pub merge : ℕ → List Breadcrumb → BTree → nodes.Store → Option (BTree × nodes.Store)
  merge node_pid [] tree s = none
  merge node_pid (parent_crumb ∷ []) tree s = do
    (local, s') ← merge_level node_pid parent_crumb tree s
    merge_root parent_crumb.index local tree s'
  merge node_pid (parent_crumb ∷ next ∷ breadcrumbs) tree s = do
    (local, s') ← merge_level node_pid parent_crumb tree s
    merge parent_crumb.pid (next ∷ breadcrumbs) tree s'

  unfoldable pub remove : ℕ → BTreeKey → BTree → nodes.Store → Option (BTree × nodes.Store)
  remove fuel key tree s = do
    found ← find_leaf nodes fuel tree key s
    leaf_vals ← leaf_records found.temp.values
    let i = key_index found.temp.keys key
    keys ← erase i found.temp.keys
    vals ← erase i leaf_vals
    s₁ ←
        nodes.flush found.pid (record found.temp { keys = keys; values = records vals }) found.store
    elim found.breadcrumbs [
      | [] ↦ some (tree, s₁)
      | crumb ∷ more ↦ merge found.pid (crumb ∷ more) tree s₁
    ]
