-- ===== src/Index/Tree/Ops/Insert.antt =====
-- src/index/btree_index.cpp: `insert` where no node is split.
use somedb.Base.{
  zero, suc, refl, ap, [], ◌∷◌, ◌++◌, ◌||◌, Bool, take, min, List, ◌+◌, ◌<◌, ℕ, ◌≡◌, ◌≢◌, ◌∙◌, ltb,
  ◌==◌, true, false, some, length, arith,
}
use somedb.Index.Key.{BTreeKey, cmp_keys, memcmp, same_sign}
use somedb.Index.Order.{Placed, length-Placed, insert_record-Sorted}
use somedb.Index.Page.Insert.{Sorted}
use somedb.Index.Page.Shift.{Entry, keys_of, length-map}
use somedb.Index.Serial.RoundTrip.{leaf_page}
use somedb.Index.Page.{Rid, BTreePage, insert_record, ◌>>=◌}
use somedb.Index.Tree.{BTree}
use somedb.Index.Tree.Ops.{has_key, with_root, split_leaf, insert}
use somedb.Index.Tree.Search.{Reached, find_leaf}
use somedb.Index.Tree.Store.{NodeStore}

-- Bytes that are the same up to a length compare as equal up to it.
memcmp-take : (n : ℕ) (xs ys : List ℕ) → take n xs ≡ take n ys → same_sign (memcmp n xs ys) ≡ true
unfolding memcmp same_sign
memcmp-take zero xs ys h = refl
memcmp-take (suc n) [] ys h = refl
memcmp-take (suc n) (x ∷ xs) [] h = refl
memcmp-take (suc n) (x ∷ xs) (y ∷ ys) h =
    let head : x ≡ y = cc in
    let tail : take n xs ≡ take n ys = cc in
    let same : (x == y) ≡ true = ground (arith, head) in rw same (memcmp-take n xs ys tail)

or_true : (b : Bool) → (b || true) ≡ true
or_true true = refl
or_true false = refl

-- Among any keys, one with the same bytes, as far as the shorter goes, is found.
has_key-take :
    (front back : List BTreeKey) (k key : BTreeKey)
    → take (min k.size key.size) k.bytes ≡ take (min k.size key.size) key.bytes
    → has_key (front ++ k ∷ back) key ≡ true
unfolding has_key cmp_keys
has_key-take [] back k key h = rw (memcmp-take (min k.size key.size) k.bytes key.bytes h)
has_key-take (x ∷ front) back k key h = rw (has_key-take front back k key h) (or_true _)

module _ (nodes : NodeStore) (mem : BTreePage) where
  pub with_root-there :
      (tree : BTree) (s : nodes.Store)
      → tree.root_pid ≢ 0
      → with_root nodes mem tree s ≡ some (tree, s)
  unfolding with_root
  with_root-there tree s root =
      let root' : (tree.root_pid == 0) ≡ false = ground arith in rw (with_root, root')

  -- Where the search ends at a leaf that holds a key with the bytes of the given one, as far as the
  -- shorter of the two goes, insert gives 0, leaves the tree as it was, and ends in the store of
  -- the search: it flushes nothing. So a key that another one starts with counts as that one.
  pub insert-duplicate :
      (fuel : ℕ) (key k : BTreeKey) (val : Rid) (tree : BTree) (s : nodes.Store)
      (r : Reached nodes.Store) (front back : List BTreeKey)
      → tree.root_pid ≢ 0
      → find_leaf nodes fuel tree key s ≡ some r
      → r.pid ≢ 0
      → r.temp.keys ≡ front ++ k ∷ back
      → take (min k.size key.size) k.bytes ≡ take (min k.size key.size) key.bytes
      → insert nodes mem fuel key val tree s ≡ some (0, tree, r.store)
  unfolding insert
  insert-duplicate fuel key k val tree s r front back root found real keys same =
      let rooted = with_root-there tree s root in
      let real' : (r.pid == 0) ≡ false = ground arith in
      let there : has_key r.temp.keys key ≡ true =
        ap (λ ks. has_key ks key) keys ∙ has_key-take front back k key same in
      rw (insert, rooted, ◌>>=◌, found, ◌>>=◌, real', there)

  -- Where the search ends at a leaf with sorted keys, without the key, and with fewer entries than
  -- a node may have and than 65535, insert flushes that leaf with the new entry at one place of its
  -- entries, which stay sorted, flushes nothing else, and gives its page id; the tree is as it was.
  pub insert-room :
      (fuel : ℕ) (key : BTreeKey) (val : Rid) (tree : BTree) (s : nodes.Store)
      (r : Reached nodes.Store) (flags rightmost next : ℕ) (es : List (Entry Rid))
      → tree.root_pid ≢ 0
      → find_leaf nodes fuel tree key s ≡ some r
      → r.temp ≡ leaf_page flags rightmost next es
      → r.pid ≢ 0
      → has_key (keys_of es) key ≡ false
      → Sorted es
      → length es < 65535
      → length es < tree.max_size
      → (after : List (Entry Rid)) × Placed es (key, val) after
        × Sorted after
        × (insert nodes mem fuel key val tree s ≡ (
            nodes.flush r.pid (leaf_page flags rightmost next after) r.store >>= λ s'.
            some (r.pid, tree, s')))
  unfolding insert split_leaf
  insert-room fuel key val tree s r flags rightmost next es root found page real absent sorted small
        fits =
      let (after, stored, place, sorted') =
        insert_record-Sorted flags rightmost next es key val small sorted in
      let rooted = with_root-there tree s root in
      let real' : (r.pid == 0) ≡ false = ground arith in
      let keys : length (keys_of after) ≡ length es + 1 =
        length-map (λ (e : Entry Rid). e.0) after ∙ length-Placed es after (key, val) place in
      let fits' : ltb tree.max_size (length (keys_of after)) ≡ false = ground (arith, keys) in
      let absent' : has_key r.temp.keys key ≡ false = rw page absent in
      let stored' : insert_record r.temp key val ≡ some (leaf_page flags rightmost next after) =
        rw page stored in
      (
        after,
        place,
        sorted',
        rw (insert, rooted, ◌>>=◌, found, ◌>>=◌, real', absent', stored', fits'),
      )
