-- ===== src/Index/Tree/Search/Ends.antt =====
-- src/index/btree_index.cpp: where `findLeaf` ends.
use somedb.Base.{
  ℕ, zero, suc, ◌+◌, ◌-◌, ◌%◌, ◌<◌, ◌≡◌, sym, ◌∙◌, ltb, true, false, Bool-cases, inl, inr, some,
  List, [], ◌∷◌, ◌++◌, length, length-append, append_assoc, arith,
}
use somedb.Index.Key.{BTreeKey, cmp_keys}
use somedb.Index.Page.{at, is_above, ◌>>=◌}
use somedb.Index.Page.Shift.{at-length}
use somedb.Index.Tree.Search.{Reached, find_child}
use somedb.Index.Tree.Store.{NodeStore}

-- Behind a key that is above the given one, every key is.
abbrev pub Upward : BTreeKey → List BTreeKey → Type 0
Upward key [] = Unit
Upward key (k ∷ []) = Unit
Upward key (k ∷ k' ∷ ks) =
    (is_above (cmp_keys k key) ≡ true → is_above (cmp_keys k' key) ≡ true) × Upward key (k' ∷ ks)

module _ (nodes : NodeStore) where
  -- The loop over the keys of such a node finds no child.
  pub find_child-Upward :
      (fuel : ℕ) (key : BTreeKey) (r : Reached nodes.Store) (front : List BTreeKey) (k : BTreeKey)
      (back : List BTreeKey)
      → r.temp.keys ≡ front ++ k ∷ back
      → Upward key (k ∷ back)
      → length r.temp.keys < 65536
      → length back < fuel
      → find_child nodes fuel (length front + 1) key r ≡ some r
  unfolding find_child
  find_child-Upward zero key r front k back e up small enough = absurd (omega arith)
  find_child-Upward (suc fuel) key r front k [] e up small enough =
      let over : ltb (length front + 1) (length r.temp.keys) ≡ false =
        rw e (ground (arith, length-append front (k ∷ []))) in
      rw (find_child, over)
  find_child-Upward (suc fuel) key r front k (k' ∷ back) e up small enough =
      let len : length r.temp.keys ≡ length front + 2 + length back =
        rw e (omega (arith, length-append front (k ∷ k' ∷ back))) in
      let inside : ltb (length front + 1) (length r.temp.keys) ≡ true = ground (arith, len) in
      let prev : at r.temp.keys (length front + 1 - 1) ≡ some k =
        rw e (at-length (length front + 1 - 1) front k (k' ∷ back) (omega arith)) in
      let split : r.temp.keys ≡ (front ++ k ∷ []) ++ k' ∷ back =
        e ∙ sym (append_assoc front (k ∷ []) (k' ∷ back)) in
      let curr : at r.temp.keys (length front + 1) ≡ some k' = rw split (
        at-length (length front + 1) (front ++ k ∷ []) k' back
          (omega (arith, length-append front (k ∷ [])))) in
      let step : (length front + 1 + 1) % 65536 ≡ length (front ++ k ∷ []) + 1 =
        omega (arith, length-append front (k ∷ []), len, small) in
      let rest =
        find_child-Upward fuel key r (front ++ k ∷ []) k' back split up.1 small (omega arith) in
      elim (Bool-cases (is_above (cmp_keys k key))) [
        | inl above ↦ rw (find_child, inside, prev, curr, above, ◌>>=◌, up.0 above, step, rest)
        | inr not_above ↦ rw (find_child, inside, prev, curr, not_above, ◌>>=◌, step, rest)
      ]
