-- ===== src/Index/Tree/Ops/Level.antt =====
-- src/index/btree_index.cpp: the split of a leaf below a parent that has room.
use somedb.Base.{
  [], ℕ, suc, ◌+◌, ◌-◌, ◌/◌, ◌%◌, ◌^◌, ◌<◌, ◌≤◌, ◌≡◌, ◌≢◌, refl, sym, ap, ◌∙◌, ◌==◌, ◌||◌, ltb,
  Bool, true, false, Option, some, List, ◌∷◌, ◌++◌, length, get_elem?_inside, arith, if◌then◌else◌,
}
use somedb.Index.Key.{BTreeKey, key_eq}
use somedb.Index.Page.{Rid, BTreePage, at, insert_child, ◌>>=◌}
use somedb.Index.Page.Insert.{Sorted}
use somedb.Index.Page.Shift.{Entry, keys_of, length-map}
use somedb.Index.Order.{Placed, length-Placed, insert_child-Sorted}
use somedb.Index.Serial.RoundTrip.{leaf_page, internal_page}
use somedb.Index.Tree.{BTree, redistribute_records}
use somedb.Index.Tree.Ops.{new_page, redistribute, prev_breadcrumb_pid, split_non_root_node}
use somedb.Index.Tree.Search.{Breadcrumb}
use somedb.Index.Tree.Split.{redistribute_records-halves}
use somedb.Index.Tree.Store.{NodeStore, flush_all, flush_all-three}

-- The parent, with the new node as its rightmost child where the last key is the middle one.
abbrev linked : Bool → ℕ → BTreePage → BTreePage
linked same new inserted = if same then record inserted { rightmost_ptr = new } else inserted

linked-flush :
    {S C : Type 0} (new flags rightmost next : ℕ) (es : List (Entry ℕ)) (b : Bool)
    (flush : BTreePage → Option S) (f : S → Option C)
    → (flush (linked b new (internal_page flags rightmost next es)) >>= f)
      ≡ (flush (internal_page flags (if b then new else rightmost) next es) >>= f)
linked-flush new flags rightmost next es true flush f = refl
linked-flush new flags rightmost next es false flush f = refl

module _ (nodes : NodeStore) (mem : BTreePage) where
  -- `split_non_root_node` with the results of its steps, up to the pages that it flushes.
  split_non_root_node-run :
      (fuel : ℕ) (s s₁ s₂ s₃ : nodes.Store) (tree : BTree)
      (old_node new_half old_half fetched inserted : BTreePage) (k last : BTreeKey)
      (new leaf_pid : ℕ) (crumb : Breadcrumb) (breadcrumbs : List Breadcrumb) (b : Bool)
      → key_eq last k ≡ b
      → at old_node.keys (length old_node.keys / 2) ≡ some k
      → nodes.new_node true s ≡ some (new, s₁)
      → redistribute_records (new_page true mem) old_node ≡ some (new_half, old_half)
      → nodes.fetch crumb.pid s₁ ≡ some (fetched, s₂)
      → nodes.fetch crumb.pid s₂ ≡ some (fetched, s₃)
      → insert_child fetched k leaf_pid ≡ some inserted
      → at inserted.keys (length inserted.keys - 1) ≡ some last
      → new ≢ 0
      → leaf_pid ≢ 0
      → length inserted.keys ≤ tree.max_size
      → split_non_root_node nodes mem (suc fuel) true old_node leaf_pid (crumb ∷ breadcrumbs) tree s
        ≡ (nodes.flush crumb.pid (linked b new inserted) s₃ >>= λ s₄.
            nodes.flush new (record new_half { next = old_half.next }) s₄ >>= λ s₅.
            nodes.flush leaf_pid (record old_half { next = new }) s₅ >>= λ s₆. some (
              record old_half { next = new },
              record tree { node_count = (tree.node_count + 1) % 2 ^ 16 },
              s₆,
            ))
  unfolding split_non_root_node new_page redistribute prev_breadcrumb_pid
  split_non_root_node-run fuel s s₁ s₂ s₃ tree old_node new_half old_half fetched inserted k last
        new leaf_pid crumb breadcrumbs true same mid run₁ halved run₂ run₃ placed end rn rl room =
      let ids : (new == 0 || leaf_pid == 0) ≡ false = ground arith in
      let low : ltb tree.max_size (length inserted.keys) ≡ false = ground (arith, room) in
      rw (mid, run₁, ◌>>=◌, halved, run₂, ◌>>=◌, run₃, placed, end, ids, same, low)
  split_non_root_node-run fuel s s₁ s₂ s₃ tree old_node new_half old_half fetched inserted k last
        new leaf_pid crumb breadcrumbs false same mid run₁ halved run₂ run₃ placed end rn rl room =
      let ids : (new == 0 || leaf_pid == 0) ≡ false = ground arith in
      let low : ltb tree.max_size (length inserted.keys) ≡ false = ground (arith, room) in
      rw (mid, run₁, ◌>>=◌, halved, run₂, ◌>>=◌, run₃, placed, end, ids, same, low)

  -- The split of a leaf with a middle key, below a parent with sorted keys and room for one more,
  -- which is fetched twice. The old leaf keeps the first half of the entries and points to the new
  -- leaf, which has the others and the next leaf of the old one. The parent has the middle key at
  -- its place with the old leaf as its child, and has the new leaf as its rightmost child if the
  -- middle key equals the last key, and its old rightmost child if not. The parent, the new leaf
  -- and the old one are flushed, in this order.
  pub split_non_root_node-leaf :
      (fuel : ℕ) (s s₁ s₂ s₃ : nodes.Store) (tree : BTree) (flags rightmost next leaf_pid new : ℕ)
      (es : List (Entry Rid)) (k : BTreeKey) (parent_flags parent_rightmost parent_next : ℕ)
      (ps : List (Entry ℕ)) (crumb : Breadcrumb) (breadcrumbs : List Breadcrumb)
      → at (keys_of es) (length es / 2) ≡ some k
      → nodes.new_node true s ≡ some (new, s₁)
      → new ≢ 0
      → leaf_pid ≢ 0
      → nodes.fetch crumb.pid s₁
        ≡ some (internal_page parent_flags parent_rightmost parent_next ps, s₂)
      → nodes.fetch crumb.pid s₂
        ≡ some (internal_page parent_flags parent_rightmost parent_next ps, s₃)
      → Sorted ps
      → length ps < 65535
      → length ps < tree.max_size
      → (front back : List (Entry Rid)) × (after : List (Entry ℕ)) × (last : BTreeKey) × (front
            ++ back
          ≡ es)
        × (length front ≡ length es / 2)
        × Placed ps (k, leaf_pid) after
        × Sorted after
        × (at (keys_of after) (length ps) ≡ some last)
        × (split_non_root_node nodes mem
              (suc fuel)
              true
              (leaf_page flags rightmost next es)
              leaf_pid
              (crumb ∷ breadcrumbs)
              tree
              s
            ≡ (flush_all nodes
                  ((
                    crumb.pid,
                    internal_page parent_flags
                        (if key_eq last k then new else parent_rightmost)
                        parent_next
                        after,
                  )
                    ∷ (new, leaf_page mem.flags mem.rightmost_ptr next back)
                    ∷ (leaf_pid, leaf_page flags rightmost new front)
                    ∷ [])
                  s₃
                >>= λ s'. some (
                  leaf_page flags rightmost new front,
                  record tree { node_count = (tree.node_count + 1) % 2 ^ 16 },
                  s',
                )))
  unfolding new_page
  split_non_root_node-leaf fuel s s₁ s₂ s₃ tree flags rightmost next leaf_pid new es k parent_flags
        parent_rightmost parent_next ps crumb breadcrumbs mid run₁ real_new real run₂ run₃ sorted
        small space =
      let (front, back, halved, joined, half) =
        redistribute_records-halves flags rightmost next mem.flags mem.rightmost_ptr mem.next es in
      let (after, placed, place, sorted') =
        insert_child-Sorted parent_flags parent_rightmost parent_next ps k leaf_pid small sorted in
      let keys : length (keys_of after) ≡ length ps + 1 =
        length-map (λ (e : Entry ℕ). e.0) after ∙ length-Placed ps after (k, leaf_pid) place in
      let (last, end) = get_elem?_inside (keys_of after) (length ps) (omega (arith, keys)) in
      let mid' : at (keys_of es) (length (keys_of es) / 2) ≡ some k =
        rw (length-map (λ (e : Entry Rid). e.0) es) mid in
      let end' : at (keys_of after) (length (keys_of after) - 1) ≡ some last =
        ap (at (keys_of after)) (omega (arith, keys)) ∙ end in
      let left = leaf_page flags rightmost new front in
      let right = leaf_page mem.flags mem.rightmost_ptr next back in
      let above =
        internal_page parent_flags (if key_eq last k then new else parent_rightmost) parent_next
          after in
      (
        front,
        back,
        after,
        last,
        joined,
        half,
        place,
        sorted',
        end,
        split_non_root_node-run fuel s s₁ s₂ s₃ tree (leaf_page flags rightmost next es)
              (leaf_page mem.flags mem.rightmost_ptr mem.next back)
              (leaf_page flags rightmost next front)
              (internal_page parent_flags parent_rightmost parent_next ps)
              (internal_page parent_flags parent_rightmost parent_next after) k last new leaf_pid
              crumb breadcrumbs (key_eq last k) refl mid' run₁ halved run₂ run₃ placed end' real_new
              real (omega (arith, keys))
            ∙ linked-flush new parent_flags parent_rightmost parent_next after (key_eq last k)
                (λ n. nodes.flush crumb.pid n s₃) _
            ∙ sym (
                flush_all-three nodes crumb.pid new leaf_pid above right left s₃ (λ s'.
                  some (left, record tree { node_count = (tree.node_count + 1) % 2 ^ 16 }, s'))),
      )
