-- ===== src/Index/Tree/Ops/Full.antt =====
-- src/index/btree_index.cpp: `insert` into a full leaf, below a parent that has room.
use somedb.Base.{
  refl, [], sym, ap, ◌%◌, ◌^◌, Option, ℕ, suc, ◌+◌, ◌/◌, ◌<◌, ◌≡◌, ◌≢◌, ◌∙◌, ◌==◌, ltb, true, false,
  some, List, ◌∷◌, ◌++◌, length, arith, if◌then◌else◌,
}
use somedb.Index.Key.{BTreeKey, key_eq}
use somedb.Index.Order.{Placed}
use somedb.Index.Page.{Rid, BTreePage, at, insert_record, ◌>>=◌}
use somedb.Index.Page.Insert.{Sorted}
use somedb.Index.Page.Shift.{Entry, keys_of, length-map}
use somedb.Index.Serial.RoundTrip.{leaf_page, internal_page}
use somedb.Index.Tree.{BTree}
use somedb.Index.Tree.Ops.{has_key, split_leaf, split_non_root_node, insert}
use somedb.Index.Tree.Ops.Insert.{with_root-there}
use somedb.Index.Tree.Ops.Level.{split_non_root_node-leaf}
use somedb.Index.Tree.Search.{Breadcrumb, Reached, find_leaf}
use somedb.Index.Tree.Store.{NodeStore, flush_all, flush_all-last, >>=-assoc}

module _ (nodes : NodeStore) (mem : BTreePage) where
  -- `insert` into a leaf without the key, from the split on.
  pub insert-split :
      (fuel : ℕ) (key : BTreeKey) (val : Rid) (tree tree' : BTree) (s : nodes.Store)
      (r : Reached nodes.Store) (leaf leaf' : BTreePage) (split : Option nodes.Store)
      → tree.root_pid ≢ 0
      → find_leaf nodes fuel tree key s ≡ some r
      → r.pid ≢ 0
      → has_key r.temp.keys key ≡ false
      → insert_record r.temp key val ≡ some leaf
      → split_leaf nodes mem fuel leaf r.pid r.breadcrumbs tree r.store
        ≡ (split >>= λ s'. some (leaf', tree', s'))
      → insert nodes mem fuel key val tree s
        ≡ ((split >>= nodes.flush r.pid leaf') >>= λ s'. some (r.pid, tree', s'))
  unfolding insert
  insert-split fuel key val tree tree' s r leaf leaf' split root found real absent inserted run =
      let rooted = with_root-there nodes mem tree s root in
      let real' : (r.pid == 0) ≡ false = ground arith in
      rw (insert, rooted, ◌>>=◌, found, ◌>>=◌, real', absent, inserted, run)
        (>>=-assoc split (λ s'. some (leaf', tree', s'))
            (λ x. nodes.flush r.pid x.0 x.2 >>= λ s'. some (r.pid, x.1, s'))
          ∙ sym (>>=-assoc split (nodes.flush r.pid leaf') (λ s'. some (r.pid, tree', s'))))

  split_leaf-full :
      (fuel : ℕ) (tree : BTree) (s : nodes.Store) (r : Reached nodes.Store)
      (flags rightmost next : ℕ) (es : List (Entry Rid)) (crumb : Breadcrumb)
      (more : List Breadcrumb)
      → tree.max_size < length es
      → r.breadcrumbs ≡ crumb ∷ more
      → split_leaf nodes mem fuel (leaf_page flags rightmost next es) r.pid r.breadcrumbs tree s
        ≡ split_non_root_node nodes mem fuel true
            (leaf_page flags rightmost next es)
            r.pid
            (crumb ∷ more)
            tree
            s
  unfolding split_leaf
  split_leaf-full fuel tree s r flags rightmost next es crumb more full crumbs =
      let keys : length (keys_of es) ≡ length es = length-map (λ (e : Entry Rid). e.0) es in
      let full' : ltb tree.max_size (length (keys_of es)) ≡ true = ground (arith, full, keys) in
      rw (split_leaf, full', crumbs) refl

  -- Where the search ends, with a breadcrumb, at a leaf without the key, the leaf with the new
  -- record is above the size of a node and has a middle key, the new page has a page id, and the
  -- parent is fetched, twice, with sorted keys, fewer than 65535, and room for one more: insert
  -- gives the page id of the leaf, and counts one node more, in 16 bits. The old leaf keeps the
  -- first half of the entries and points to the new leaf, which has the others and the next leaf
  -- of the old one. The parent has the middle key at its place with the old leaf as its child,
  -- and has the new leaf as its rightmost child if the middle key equals the last key, and its
  -- old rightmost child if not. The parent, the new leaf and the old one are flushed in this
  -- order, then the old one again, and nothing else is.
  pub insert-full :
      (fuel : ℕ) (key : BTreeKey) (val : Rid) (tree : BTree) (s s₁ s₂ s₃ : nodes.Store)
      (r : Reached nodes.Store) (flags rightmost next new : ℕ) (es : List (Entry Rid))
      (k : BTreeKey) (parent_flags parent_rightmost parent_next : ℕ) (ps : List (Entry ℕ))
      (crumb : Breadcrumb) (more : List Breadcrumb)
      → tree.root_pid ≢ 0
      → find_leaf nodes (suc fuel) tree key s ≡ some r
      → has_key r.temp.keys key ≡ false
      → insert_record r.temp key val ≡ some (leaf_page flags rightmost next es)
      → tree.max_size < length es
      → r.breadcrumbs ≡ crumb ∷ more
      → at (keys_of es) (length es / 2) ≡ some k
      → r.pid ≢ 0
      → nodes.new_node true r.store ≡ some (new, s₁)
      → new ≢ 0
      → nodes.fetch crumb.pid s₁
        ≡ some (internal_page parent_flags parent_rightmost parent_next ps, s₂)
      → nodes.fetch crumb.pid s₂
        ≡ some (internal_page parent_flags parent_rightmost parent_next ps, s₃)
      → Sorted ps
      → length ps < 65535
      → length ps < tree.max_size
      → (front back : List (Entry Rid)) × (after : List (Entry ℕ)) × (last : BTreeKey) × (front
            ++ back
          ≡ es)
        × (length front ≡ length es / 2)
        × Placed ps (k, r.pid) after
        × Sorted after
        × (at (keys_of after) (length ps) ≡ some last)
        × (insert nodes mem (suc fuel) key val tree s ≡ (
            flush_all nodes
              ((
                crumb.pid,
                internal_page parent_flags
                    (if key_eq last k then new else parent_rightmost)
                    parent_next
                    after,
              )
                ∷ (new, leaf_page mem.flags mem.rightmost_ptr next back)
                ∷ (r.pid, leaf_page flags rightmost new front)
                ∷ (r.pid, leaf_page flags rightmost new front)
                ∷ [])
              s₃
            >>= λ s'.
                some (r.pid, record tree { node_count = (tree.node_count + 1) % 2 ^ 16 }, s')))
  insert-full fuel key val tree s s₁ s₂ s₃ r flags rightmost next new es k parent_flags
        parent_rightmost parent_next ps crumb more root found absent inserted full crumbs mid real
        made real_new run₂ run₃ sorted small space =
      let (front, back, after, last, joined, half, place, sorted', end, run) =
        split_non_root_node-leaf nodes mem fuel r.store s₁ s₂ s₃ tree flags rightmost next r.pid new
          es k parent_flags parent_rightmost parent_next ps crumb more mid made real_new real run₂
          run₃ sorted small space in
      let left = leaf_page flags rightmost new front in
      let tree' : BTree = record tree { node_count = (tree.node_count + 1) % 2 ^ 16 } in
      let writes =
        (
          crumb.pid,
          internal_page parent_flags (if key_eq last k then new else parent_rightmost) parent_next
              after,
        )
        ∷ (new, leaf_page mem.flags mem.rightmost_ptr next back)
        ∷ (r.pid, left)
        ∷ [] in
      (
        front,
        back,
        after,
        last,
        joined,
        half,
        place,
        sorted',
        end,
        insert-split (suc fuel) key val tree tree' s r (leaf_page flags rightmost next es) left
              (flush_all nodes writes s₃) root found real absent inserted
              (split_leaf-full (suc fuel) tree r.store r flags rightmost next es crumb more full
                  crumbs
                ∙ run)
            ∙ ap (λ (m : Option nodes.Store). m >>= λ s'. some (r.pid, tree', s'))
                (sym (flush_all-last nodes writes r.pid left s₃)),
      )
