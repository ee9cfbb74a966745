-- ===== src/Index/Tree/Ops.antt =====
-- src/index/btree_index.cpp: insertion, with the splits of full nodes.
-- `none` is an exception, a failed `assert`, or a page that cannot be fetched. A number behind the
-- keys in `mem` is memory that is not initialised.
pub mod Insert
pub mod Root
pub mod Level
pub mod Full
pub mod NewRoot
use somedb.Base.{
  ℕ, zero, suc, ◌+◌, ◌-◌, ◌/◌, ◌%◌, ◌^◌, ltb, leb, ◌==◌, ◌||◌, Bool, true, false, Option, none,
  some, List, [], ◌∷◌, length, if◌then◌else◌,
}
use somedb.Index.Key.{BTreeKey, cmp_keys, key_eq, same_sign}
use somedb.Index.Page.{Rid, BTreePage, records, children, at, insert_record, insert_child, ◌>>=◌}
use somedb.Index.Tree.{BTree, redistribute_records, redistribute_children}
use somedb.Index.Tree.Search.{Breadcrumb, Reached, find_leaf}
use somedb.Index.Tree.Store.{NodeStore}

-- `BTreePage(is_leaf)`; the fields that it does not set are those of `mem`.
unfoldable pub new_page : Bool → BTreePage → BTreePage
new_page is_leaf mem = record mem {
  is_leaf = is_leaf;
  keys = [];
  values = if is_leaf then records [] else children [];
}

unfoldable pub has_key : List BTreeKey → BTreeKey → Bool
has_key [] key = false
has_key (leaf_key ∷ keys) key = same_sign (cmp_keys leaf_key key) || has_key keys key

-- `redistribute_kv` of the values of a leaf, or of an internal node.
unfoldable pub redistribute : Bool → BTreePage → BTreePage → Option (BTreePage × BTreePage)
redistribute true empty_node full_node = redistribute_records empty_node full_node
redistribute false empty_node full_node = redistribute_children empty_node full_node

module _ (nodes : NodeStore) (mem : BTreePage) where
  -- The old root, the tree and the pages after the split.
  unfoldable pub split_root_node :
      Bool → BTreePage → BTree → nodes.Store → Option (BTreePage × BTree × nodes.Store)
  split_root_node is_old_root_leaf old_root_node tree s = do
    mid_key ← at old_root_node.keys (length old_root_node.keys / 2)
    (new_node_id, s₁) ← nodes.new_node is_old_root_leaf s
    (new_root_id, s₂) ← nodes.new_node false s₁
    (new_node, old_half) ←
        redistribute is_old_root_leaf (new_page is_old_root_leaf mem) old_root_node
    let old_root = record old_half { next = new_node_id }
    let new_root = record (new_page false mem) {
      keys = mid_key ∷ [];
      values = children (tree.root_pid ∷ []);
      rightmost_ptr = new_node_id;
    }
    let tree' = record tree { node_count = (tree.node_count + 2) % 2 ^ 16; root_pid = new_root_id }
    elim (new_node_id == 0 || new_root_id == 0) [
      | true ↦ none
      | false ↦ do
        s₃ ← nodes.flush_metadata tree' s₂
        s₄ ← nodes.flush new_node_id new_node s₃
        s₅ ← nodes.flush new_root_id new_root s₄
        s₆ ← nodes.flush tree.root_pid old_root s₅
        some (old_root, tree', s₆)
    ]

  -- `getPrevBreadcrumbPid`
  unfoldable pub prev_breadcrumb_pid :
      List Breadcrumb → nodes.Store → Option (ℕ × List Breadcrumb × nodes.Store)
  prev_breadcrumb_pid [] s = some (0, [], s)
  prev_breadcrumb_pid (top ∷ breadcrumbs) s = do
    (page, s') ← nodes.fetch top.pid s
    some (top.pid, breadcrumbs, s')

  -- `fuel` bounds the depth of the recursion, which takes two breadcrumbs for a level.
  unfoldable pub split_non_root_node :
      ℕ
      → Bool
      → BTreePage
      → ℕ
      → List Breadcrumb
      → BTree
      → nodes.Store
      → Option (BTreePage × BTree × nodes.Store)
  split_non_root_node zero is_node_leaf old_node old_node_pid breadcrumbs tree s = none
  split_non_root_node (suc fuel) is_node_leaf old_node old_node_pid breadcrumbs tree s = do
    mid_key ← at old_node.keys (length old_node.keys / 2)
    (new_node_id, s₁) ← nodes.new_node is_node_leaf s
    let tree₁ = record tree { node_count = (tree.node_count + 1) % 2 ^ 16 }
    (new_half, old_half) ← redistribute is_node_leaf (new_page is_node_leaf mem) old_node
    let new_node = record new_half { next = old_half.next }
    let old_node' = record old_half { next = new_node_id }
    (parent_pid, breadcrumbs₁, s₂) ← prev_breadcrumb_pid breadcrumbs s₁
    (fetched, s₃) ← nodes.fetch parent_pid s₂
    inserted ← insert_child fetched mid_key old_node_pid
    last_key ← at inserted.keys (length inserted.keys - 1)
    let parent =
        if key_eq last_key mid_key
        then record inserted { rightmost_ptr = new_node_id }
        else inserted
    elim (new_node_id == 0 || old_node_pid == 0) [
      | true ↦ none
      | false ↦ do
        s₄ ← nodes.flush parent_pid parent s₃
        s₅ ← nodes.flush new_node_id new_node s₄
        s₆ ← nodes.flush old_node_pid old_node' s₅
        elim (ltb tree.max_size (length parent.keys)) [
          | false ↦ some (old_node', tree₁, s₆)
          | true ↦ elim breadcrumbs₁ [
            | [] ↦ do
              (root_page, s₇) ← nodes.fetch tree.root_pid s₆
              (root_page', tree₂, s₈) ← split_root_node false root_page tree₁ s₇
              some (old_node', tree₂, s₈)
            | crumb ∷ more ↦ do
              (top_pid, breadcrumbs₂, s₇) ← prev_breadcrumb_pid (crumb ∷ more) s₆
              (top_node, s₈) ← nodes.fetch top_pid s₇
              (top_node', tree₂, s₉) ←
                  split_non_root_node fuel false top_node top_pid breadcrumbs₂ tree₁ s₈
              some (old_node', tree₂, s₉)
          ]
        ]
    ]

  -- The start of `insert`: a tree without a root gets a leaf.
  unfoldable pub with_root : BTree → nodes.Store → Option (BTree × nodes.Store)
  with_root tree s = elim (tree.root_pid == 0) [
    | false ↦ some (tree, s)
    | true ↦ do
      (root_pid, s') ← nodes.new_node true s
      (if root_pid == 0
          then none
          else some (
            record tree { root_pid = root_pid; node_count = (tree.node_count + 1) % 2 ^ 16 },
            s',
          ))
  ]

  -- A leaf that is above its size after the insertion is split.
  unfoldable pub split_leaf :
      ℕ
      → BTreePage
      → ℕ
      → List Breadcrumb
      → BTree
      → nodes.Store
      → Option (BTreePage × BTree × nodes.Store)
  split_leaf fuel leaf leaf_pid breadcrumbs tree s = elim (ltb tree.max_size (length leaf.keys)) [
    | false ↦ some (leaf, tree, s)
    | true ↦ elim breadcrumbs [
      | [] ↦ split_root_node true leaf tree s
      | crumb ∷ more ↦ split_non_root_node fuel true leaf leaf_pid (crumb ∷ more) tree s
    ]
  ]

  -- The page id of the leaf, or 0 for a key that is there.
  unfoldable pub insert :
      ℕ → BTreeKey → Rid → BTree → nodes.Store → Option (ℕ × BTree × nodes.Store)
  insert fuel key val tree s = do
    (tree₁, s₁) ← with_root tree s
    found ← find_leaf nodes fuel tree₁ key s₁
    elim (found.pid == 0) [
      | true ↦ none
      | false ↦ elim (has_key found.temp.keys key) [
        | true ↦ some (0, tree₁, found.store)
        | false ↦ do
          leaf ← insert_record found.temp key val
          (leaf', tree₂, s₂) ← split_leaf fuel leaf found.pid found.breadcrumbs tree₁ found.store
          s₃ ← nodes.flush found.pid leaf' s₂
          some (found.pid, tree₂, s₃)
      ]
    ]
