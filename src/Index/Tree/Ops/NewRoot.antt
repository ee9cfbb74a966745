-- ===== src/Index/Tree/Ops/NewRoot.antt =====
-- src/index/btree_index.cpp: `insert` into a root that is a full leaf.
use somedb.Base.{
  refl, ◌%◌, ◌^◌, Option, ap, sym, [], ℕ, ◌+◌, ◌/◌, ◌<◌, ◌≡◌, ◌≢◌, ◌∙◌, ltb, true, false, some,
  List, ◌∷◌, ◌++◌, length, arith,
}
use somedb.Index.Key.{BTreeKey}
use somedb.Index.Page.{Rid, BTreePage, at, insert_record, ◌>>=◌}
use somedb.Index.Page.Shift.{Entry, keys_of, length-map}
use somedb.Index.Serial.RoundTrip.{leaf_page, internal_page}
use somedb.Index.Tree.{BTree}
use somedb.Index.Tree.Ops.{has_key, split_leaf, split_root_node, insert}
use somedb.Index.Tree.Ops.Full.{insert-split}
use somedb.Index.Tree.Ops.Root.{split_root_node-leaf}
use somedb.Index.Tree.Search.{Reached, find_leaf}
use somedb.Index.Tree.Store.{NodeStore, flush_all, flush_all-last, >>=-same, >>=-assoc}

module _ (nodes : NodeStore) (mem : BTreePage) where
  split_leaf-root :
      (fuel : ℕ) (tree : BTree) (s : nodes.Store) (r : Reached nodes.Store)
      (flags rightmost next : ℕ) (es : List (Entry Rid))
      → tree.max_size < length es
      → r.breadcrumbs ≡ []
      → split_leaf nodes mem fuel (leaf_page flags rightmost next es) r.pid r.breadcrumbs tree s
        ≡ split_root_node nodes mem true (leaf_page flags rightmost next es) tree s
  unfolding split_leaf
  split_leaf-root fuel tree s r flags rightmost next es full crumbs =
      let keys : length (keys_of es) ≡ length es = length-map (λ (e : Entry Rid). e.0) es in
      let full' : ltb tree.max_size (length (keys_of es)) ≡ true = ground (arith, full, keys) in
      rw (split_leaf, full', crumbs) refl

  -- Where the search ends, with no breadcrumb, at a root that is a leaf without the key, the
  -- leaf with the new record is above the size of a node and has a middle key, and the two new
  -- pages have page ids: insert gives the page id of that leaf, counts two nodes more, in 16
  -- bits, and makes the second new page the root. The old root keeps the first half of the
  -- entries, and points to the new leaf, which has the others; the new root has the middle key,
  -- with the old root below it and the new leaf as its rightmost child. The metadata, the new
  -- leaf, the new root and the old one are flushed in this order, then the old one again, and
  -- nothing else is.
  pub insert-root :
      (fuel : ℕ) (key : BTreeKey) (val : Rid) (tree : BTree) (s s₁ s₂ : nodes.Store)
      (r : Reached nodes.Store) (flags rightmost next new new_root : ℕ) (es : List (Entry Rid))
      (k : BTreeKey)
      → tree.root_pid ≢ 0
      → find_leaf nodes fuel tree key s ≡ some r
      → r.pid ≡ tree.root_pid
      → r.breadcrumbs ≡ []
      → has_key r.temp.keys key ≡ false
      → insert_record r.temp key val ≡ some (leaf_page flags rightmost next es)
      → tree.max_size < length es
      → at (keys_of es) (length es / 2) ≡ some k
      → nodes.new_node true r.store ≡ some (new, s₁)
      → nodes.new_node false s₁ ≡ some (new_root, s₂)
      → new ≢ 0
      → new_root ≢ 0
      → (front back : List (Entry Rid)) × (front ++ back ≡ es)
        × (length front ≡ length es / 2)
        × (insert nodes mem fuel key val tree s ≡ (
            (nodes.flush_metadata
                (record tree { node_count = (tree.node_count + 2) % 2 ^ 16; root_pid = new_root })
                s₂
              >>= flush_all nodes (
                  (new, leaf_page mem.flags mem.rightmost_ptr mem.next back)
                  ∷ (new_root, internal_page mem.flags new mem.next ((k, tree.root_pid) ∷ []))
                  ∷ (tree.root_pid, leaf_page flags rightmost new front)
                  ∷ (tree.root_pid, leaf_page flags rightmost new front)
                  ∷ []))
            >>= λ s'. some (
              tree.root_pid,
              record tree { node_count = (tree.node_count + 2) % 2 ^ 16; root_pid = new_root },
              s',
            )))
  insert-root fuel key val tree s s₁ s₂ r flags rightmost next new new_root es k root found here
        crumbs absent inserted full mid run₁ run₂ rn rr =
      let (front, back, joined, half, run) =
        split_root_node-leaf nodes mem r.store s₁ s₂ tree flags rightmost next new new_root es k mid
          run₁ run₂ rn rr in
      let left = leaf_page flags rightmost new front in
      let tree' : BTree = record tree {
        node_count = (tree.node_count + 2) % 2 ^ 16;
        root_pid = new_root;
      } in
      let writes =
        (new, leaf_page mem.flags mem.rightmost_ptr mem.next back)
        ∷ (new_root, internal_page mem.flags new mem.next ((k, tree.root_pid) ∷ []))
        ∷ (tree.root_pid, left)
        ∷ [] in
      let meta = nodes.flush_metadata tree' s₂ in
      let done = λ (s' : nodes.Store). some (tree.root_pid, tree', s') in
      let real : r.pid ≢ 0 = λ e. root (sym here ∙ e) in
      (
        front,
        back,
        joined,
        half,
        insert-split nodes mem fuel key val tree tree' s r (leaf_page flags rightmost next es) left
              (meta >>= flush_all nodes writes) root found real absent inserted
              (split_leaf-root fuel tree r.store r flags rightmost next es full crumbs ∙ run)
            ∙ ap
                (λ (q : ℕ). ((meta >>= flush_all nodes writes) >>= nodes.flush q left) >>= λ s'.
                  some (q, tree', s'))
                here
            ∙ ap (λ (m : Option nodes.Store). m >>= done)
                (>>=-assoc meta (flush_all nodes writes) (nodes.flush tree.root_pid left)
                  ∙ >>=-same meta _ _
                      (λ s₃. sym (flush_all-last nodes writes tree.root_pid left s₃))),
      )
