-- ===== src/Index/Tree/Merge/Leaves.antt =====
-- src/index/btree_strategy.cpp: two leaves under one parent are merged.
use somedb.Base.{
  ℕ, zero, suc, ◌+◌, ◌-◌, ◌<◌, ◌≤◌, ◌≡◌, ◌≢◌, refl, sym, ap, ltb, ◌==◌, ◌||◌, true, false, none,
  some, List, [], ◌∷◌, ◌++◌, length, length-append, map, take, set, arith,
}
use mathlib.Core.List.{map-append}
use somedb.Index.Key.{BTreeKey}
use somedb.Index.Page.{Rid, put, drop_last, ◌>>=◌}
use somedb.Index.Page.Shift.{Entry, keys_of, values_of, length-map}
use somedb.Index.Serial.RoundTrip.{leaf_page, internal_page}
use somedb.Index.Tree.{BTree}
use somedb.Index.Tree.Search.{internal_children, leaf_records}
use somedb.Index.Tree.Merge.{erase, pop_back, merge_leaf_left, merge_leaf_right, merge_leaf}
use somedb.Index.Tree.Store.{NodeStore}

module _ {A : Type 0} where
  pub erase-length :
      (i : ℕ) (front : List A) (x : A) (back : List A)
      → i ≡ length front
      → erase i (front ++ x ∷ back) ≡ some (front ++ back)
  unfolding erase
  erase-length zero [] x back h = refl
  erase-length (suc i) [] x back h = absurd (omega arith)
  erase-length zero (y ∷ front) x back h = absurd (omega arith)
  erase-length (suc i) (y ∷ front) x back h = rw (erase-length i front x back (omega arith))

  set-length :
      (i : ℕ) (front : List A) (x y : A) (back : List A)
      → i ≡ length front
      → set (front ++ x ∷ back) i y ≡ front ++ y ∷ back
  set-length zero [] x y back h = refl
  set-length (suc i) [] x y back h = absurd (omega arith)
  set-length zero (z ∷ front) x y back h = absurd (omega arith)
  set-length (suc i) (z ∷ front) x y back h =
      ap (λ (t : List A). z ∷ t) (set-length i front x y back (omega arith))

  put-length :
      (i : ℕ) (front : List A) (x y : A) (back : List A)
      → i ≡ length front
      → put (front ++ x ∷ back) i y ≡ some (front ++ y ∷ back)
  unfolding put
  put-length i front x y back h =
      let inside : ltb i (length (front ++ x ∷ back)) ≡ true =
        ground (arith, length-append front (x ∷ back)) in
      rw (inside, set-length i front x y back h)

  take-all : (n : ℕ) (xs back : List A) → n ≡ length xs → take n (xs ++ back) ≡ xs
  take-all zero [] back h = refl
  take-all (suc n) [] back h = absurd (omega arith)
  take-all zero (x ∷ xs) back h = absurd (omega arith)
  take-all (suc n) (x ∷ xs) back h = ap (λ (t : List A). x ∷ t) (take-all n xs back (omega arith))

  pop_back-snoc : (xs : List A) (x : A) → pop_back (xs ++ x ∷ []) ≡ some xs
  unfolding pop_back drop_last
  pop_back-snoc [] x = refl
  pop_back-snoc (y ∷ xs) x = ap some (
      take-all (length ((y ∷ xs) ++ x ∷ []) - 1) (y ∷ xs) (x ∷ [])
        (omega (arith, length-append xs (x ∷ []))))

module _ (nodes : NodeStore) where
  -- Where a leaf and its right sibling, which has entries and is not the rightmost child, have
  -- entries that fit one leaf, the merge gives the leaf the entries of both in their order and
  -- the sibling's next leaf, and flushes it, and nothing else; in the parent, the leaf takes the
  -- place of the sibling, and the entry of the leaf is gone.
  pub merge_leaf-right :
      (s : nodes.Store) (tree : BTree) (node_pid sib_pid : ℕ) (es es' : List (Entry Rid))
      (front back : List (Entry ℕ)) (k k' : BTreeKey)
      (flags rightmost next flags' rightmost' next' : ℕ) (pflags prightmost pnext : ℕ)
      → 0 < length es'
      → length es + length es' ≤ tree.max_size
      → sib_pid ≢ prightmost
      → merge_leaf nodes tree
          (some (length front))
          (record {
            node = leaf_page flags rightmost next es;
            node_pid = node_pid;
            sibling = leaf_page flags' rightmost' next' es';
            sibling_pid = sib_pid;
            parent =
                internal_page pflags prightmost pnext
                  (front ++ (k, node_pid) ∷ (k', sib_pid) ∷ back);
          })
          s
        ≡ (nodes.flush node_pid (leaf_page flags rightmost next' (es ++ es')) s >>= λ s'. some (
          record {
            node = leaf_page flags rightmost next' (es ++ es');
            node_pid = node_pid;
            sibling = leaf_page flags' rightmost' next' es';
            sibling_pid = sib_pid;
            parent = internal_page pflags prightmost pnext (front ++ (k', node_pid) ∷ back);
          },
          s',
        ))
  unfolding merge_leaf merge_leaf_right internal_children leaf_records
  merge_leaf-right s tree node_pid sib_pid es es' front back k k' flags rightmost next flags'
        rightmost' next' pflags prightmost pnext some_entries fits not_last =
      let key = λ (e : Entry ℕ). e.0 in
      let val = λ (e : Entry ℕ). e.1 in
      let both : (length (keys_of es') == 0
            || ltb tree.max_size (length (keys_of es) + length (keys_of es')))
          ≡ false =
        rw (length-map (λ (e : Entry Rid). e.0) es, length-map (λ (e : Entry Rid). e.0) es')
          (ground arith) in
      let inner : (sib_pid == prightmost) ≡ false = ground arith in
      let len_val : length front ≡ length (map val front) = sym (length-map val front) in
      let len_key : length front ≡ length (map key front) = sym (length-map key front) in
      let erased : erase (length front) (values_of (front ++ (k, node_pid) ∷ (k', sib_pid) ∷ back))
          ≡ some (values_of front ++ sib_pid ∷ values_of back) =
        rw (map-append val front ((k, node_pid) ∷ (k', sib_pid) ∷ back)) (
          erase-length (length front) (values_of front) node_pid (sib_pid ∷ values_of back)
            len_val) in
      let replaced =
        put-length (length front) (values_of front) sib_pid node_pid (values_of back) len_val in
      let keys : erase (length front) (keys_of (front ++ (k, node_pid) ∷ (k', sib_pid) ∷ back))
          ≡ some (keys_of front ++ k' ∷ keys_of back) =
        rw (map-append key front ((k, node_pid) ∷ (k', sib_pid) ∷ back))
          (erase-length (length front) (keys_of front) k (k' ∷ keys_of back) len_key) in
      rw (
        merge_leaf,
        both,
        merge_leaf_right,
        inner,
        erased,
        replaced,
        keys,
        sym (map-append (λ (e : Entry Rid). e.0) es es'),
        sym (map-append (λ (e : Entry Rid). e.1) es es'),
        map-append key front ((k', node_pid) ∷ back),
        map-append val front ((k', node_pid) ∷ back),
      )

  -- Where the last leaf under a parent of two keys or more and its left sibling, which has
  -- entries, have entries that fit one leaf, the merge gives the sibling the entries of both in
  -- their order, with its own next leaf, and flushes it, and nothing else; the parent loses its
  -- last entry, and the sibling is its rightmost child.
  pub merge_leaf-left :
      (s : nodes.Store) (tree : BTree) (node_pid sib_pid : ℕ) (es es' : List (Entry Rid))
      (e : Entry ℕ) (front : List (Entry ℕ)) (k : BTreeKey)
      (flags rightmost next flags' rightmost' next' : ℕ) (pflags pnext : ℕ)
      → 0 < length es'
      → length es + length es' ≤ tree.max_size
      → merge_leaf nodes tree none
          (record {
            node = leaf_page flags rightmost next es;
            node_pid = node_pid;
            sibling = leaf_page flags' rightmost' next' es';
            sibling_pid = sib_pid;
            parent = internal_page pflags node_pid pnext ((e ∷ front) ++ (k, sib_pid) ∷ []);
          })
          s
        ≡ (nodes.flush sib_pid (leaf_page flags' rightmost' next' (es' ++ es)) s >>= λ s'. some (
          record {
            node = leaf_page flags rightmost next es;
            node_pid = node_pid;
            sibling = leaf_page flags' rightmost' next' (es' ++ es);
            sibling_pid = sib_pid;
            parent = internal_page pflags sib_pid pnext (e ∷ front);
          },
          s',
        ))
  unfolding merge_leaf merge_leaf_left internal_children leaf_records
  merge_leaf-left s tree node_pid sib_pid es es' e front k flags rightmost next flags' rightmost'
        next' pflags pnext some_entries fits =
      let key = λ (x : Entry ℕ). x.0 in
      let val = λ (x : Entry ℕ). x.1 in
      let both : (length (keys_of es') == 0
            || ltb tree.max_size (length (keys_of es) + length (keys_of es')))
          ≡ false =
        rw (length-map (λ (x : Entry Rid). x.0) es, length-map (λ (x : Entry Rid). x.0) es')
          (ground arith) in
      let vals : values_of ((e ∷ front) ++ (k, sib_pid) ∷ [])
          ≡ values_of (e ∷ front) ++ sib_pid ∷ [] =
        map-append val (e ∷ front) ((k, sib_pid) ∷ []) in
      let keys : keys_of ((e ∷ front) ++ (k, sib_pid) ∷ []) ≡ keys_of (e ∷ front) ++ k ∷ [] =
        map-append key (e ∷ front) ((k, sib_pid) ∷ []) in
      let more : (length (keys_of ((e ∷ front) ++ (k, sib_pid) ∷ [])) == 1) ≡ false = ground (
        arith,
        length-map key ((e ∷ front) ++ (k, sib_pid) ∷ []),
        length-append front ((k, sib_pid) ∷ []),
      ) in
      let first : put (values_of ((e ∷ front) ++ (k, sib_pid) ∷ [])) 0 sib_pid
          ≡ some (sib_pid ∷ values_of (front ++ (k, sib_pid) ∷ [])) =
        put-length 0 [] e.1 sib_pid (values_of (front ++ (k, sib_pid) ∷ [])) refl in
      let popped : pop_back (values_of ((e ∷ front) ++ (k, sib_pid) ∷ []))
          ≡ some (values_of (e ∷ front)) =
        rw vals (pop_back-snoc (values_of (e ∷ front)) sib_pid) in
      let popped_key : pop_back (keys_of ((e ∷ front) ++ (k, sib_pid) ∷ []))
          ≡ some (keys_of (e ∷ front)) =
        rw keys (pop_back-snoc (keys_of (e ∷ front)) k) in
      rw (
        merge_leaf,
        both,
        merge_leaf_left,
        sym (map-append (λ (x : Entry Rid). x.0) es' es),
        sym (map-append (λ (x : Entry Rid). x.1) es' es),
        first,
        more,
        popped,
        popped_key,
      )
