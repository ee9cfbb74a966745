-- ===== src/Index/Tree/Ops/Root.antt =====
-- src/index/btree_index.cpp: the split of a root that is a leaf.
use somedb.Base.{
  ℕ, ◌+◌, ◌/◌, ◌%◌, ◌^◌, ◌≡◌, ◌≢◌, sym, ◌∙◌, ◌==◌, ◌||◌, true, false, some, List, [], ◌∷◌, ◌++◌,
  length, arith,
}
use somedb.Index.Key.{BTreeKey}
use somedb.Index.Page.{Rid, BTreePage, at, ◌>>=◌}
use somedb.Index.Page.Shift.{Entry, keys_of, length-map}
use somedb.Index.Serial.RoundTrip.{leaf_page, internal_page}
use somedb.Index.Tree.{BTree, redistribute_records}
use somedb.Index.Tree.Ops.{new_page, redistribute, split_root_node}
use somedb.Index.Tree.Split.{redistribute_records-halves}
use somedb.Index.Tree.Store.{NodeStore, flush_all, flush_all-three, >>=-same, >>=-assoc}

module _ (nodes : NodeStore) (mem : BTreePage) where
  -- `split_root_node` with the results of its steps, up to the pages that it flushes.
  split_root_node-run :
      (s s₁ s₂ : nodes.Store) (tree : BTree) (old_root new_node old_half : BTreePage) (k : BTreeKey)
      (new root : ℕ)
      → at old_root.keys (length old_root.keys / 2) ≡ some k
      → nodes.new_node true s ≡ some (new, s₁)
      → nodes.new_node false s₁ ≡ some (root, s₂)
      → redistribute_records (new_page true mem) old_root ≡ some (new_node, old_half)
      → new ≢ 0
      → root ≢ 0
      → split_root_node nodes mem true old_root tree s ≡ (
          nodes.flush_metadata
            (record tree { node_count = (tree.node_count + 2) % 2 ^ 16; root_pid = root })
            s₂
          >>= λ s₃. nodes.flush new new_node s₃ >>= λ s₄.
              nodes.flush root (internal_page mem.flags new mem.next ((k, tree.root_pid) ∷ [])) s₄
              >>= λ s₅. nodes.flush tree.root_pid (record old_half { next = new }) s₅ >>= λ s₆.
                  some (
                    record old_half { next = new },
                    record tree { node_count = (tree.node_count + 2) % 2 ^ 16; root_pid = root },
                    s₆,
                  ))
  unfolding split_root_node new_page redistribute
  split_root_node-run s s₁ s₂ tree old_root new_node old_half k new root mid run₁ run₂ halved rn
        rr =
      let ids : (new == 0 || root == 0) ≡ false = ground arith in
      rw (mid, run₁, ◌>>=◌, run₂, halved, ids)

  -- The split of a root that is a leaf with a middle key, where the two new pages have page ids.
  -- The old root keeps the first half of the entries, and points to the new leaf, which has the
  -- others; the new root has the middle key, with the old root below it and the new leaf as its
  -- rightmost child. The metadata, the new leaf, the new root and the old one are flushed, in this
  -- order.
  pub split_root_node-leaf :
      (s s₁ s₂ : nodes.Store) (tree : BTree) (flags rightmost next new root : ℕ)
      (es : List (Entry Rid)) (k : BTreeKey)
      → at (keys_of es) (length es / 2) ≡ some k
      → nodes.new_node true s ≡ some (new, s₁)
      → nodes.new_node false s₁ ≡ some (root, s₂)
      → new ≢ 0
      → root ≢ 0
      → (front back : List (Entry Rid)) × (front ++ back ≡ es)
        × (length front ≡ length es / 2)
        × (split_root_node nodes mem true (leaf_page flags rightmost next es) tree s ≡ (
            (nodes.flush_metadata
                (record tree { node_count = (tree.node_count + 2) % 2 ^ 16; root_pid = root })
                s₂
              >>= flush_all nodes (
                  (new, leaf_page mem.flags mem.rightmost_ptr mem.next back)
                  ∷ (root, internal_page mem.flags new mem.next ((k, tree.root_pid) ∷ []))
                  ∷ (tree.root_pid, leaf_page flags rightmost new front)
                  ∷ []))
            >>= λ s'. some (
              leaf_page flags rightmost new front,
              record tree { node_count = (tree.node_count + 2) % 2 ^ 16; root_pid = root },
              s',
            )))
  unfolding new_page
  split_root_node-leaf s s₁ s₂ tree flags rightmost next new root es k mid run₁ run₂ rn rr =
      let (front, back, halved, joined, half) =
        redistribute_records-halves flags rightmost next mem.flags mem.rightmost_ptr mem.next es in
      let tree' : BTree = record tree {
        node_count = (tree.node_count + 2) % 2 ^ 16;
        root_pid = root;
      } in
      let left = leaf_page flags rightmost new front in
      let right = leaf_page mem.flags mem.rightmost_ptr mem.next back in
      let above = internal_page mem.flags new mem.next ((k, tree.root_pid) ∷ []) in
      let writes = (new, right) ∷ (root, above) ∷ (tree.root_pid, left) ∷ [] in
      let done = λ (s' : nodes.Store). some (left, tree', s') in
      let mid' : at (keys_of es) (length (keys_of es) / 2) ≡ some k =
        rw (length-map (λ (e : Entry Rid). e.0) es) mid in
      (
        front,
        back,
        joined,
        half,
        split_root_node-run s s₁ s₂ tree (leaf_page flags rightmost next es) right
              (leaf_page flags rightmost next front) k new root mid' run₁ run₂ halved rn rr
            ∙ sym (
                >>=-assoc (nodes.flush_metadata tree' s₂) (flush_all nodes writes) done
                ∙ >>=-same (nodes.flush_metadata tree' s₂) _ _
                    (λ s₃. flush_all-three nodes new root tree.root_pid right above left s₃ done)),
      )
