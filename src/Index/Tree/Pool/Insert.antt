-- ===== src/Index/Tree/Pool/Insert.antt =====
-- src/index/btree_index.cpp: `insert` into a leaf in the buffer pool, and the page that is fetched
-- after it.
use somedb.Base.{
  refl, Option, ℕ, ◌+◌, ◌*◌, ◌<◌, ◌≤◌, ◌≡◌, ◌≢◌, ap, subst, sym, ◌∙◌, true, false, some, List, [],
  ◌∷◌, ◌++◌, length, set, get_elem?, arith,
}
use somedb.Base.Int.{ℤ}
use somedb.Disk.Bpm.{BpmPage, free_frame, BufferPoolManager}
use somedb.Disk.Bpm.Laws.{InFrame}
use somedb.Disk.File.{Files}
use somedb.Index.Codec.{Codec, record_codec}
use somedb.Index.Key.{BTreeKey}
use somedb.Index.Order.{Placed, length-Placed}
use somedb.Index.Page.{Rid, BTreePage, ◌>>=◌}
use somedb.Index.Page.Insert.{Sorted}
use somedb.Index.Page.Shift.{Entry, keys_of}
use somedb.Index.Serial.{page_size, header_size}
use somedb.Index.Serial.RoundTrip.{leaf_page}
use somedb.Index.Serial.Stored.{FitsEntry, entry_size, total_size, AllFit}
use somedb.Index.Tree.{BTree}
use somedb.Index.Tree.Ops.{has_key, insert}
use somedb.Index.Tree.Ops.Insert.{insert-room}
use somedb.Index.Tree.Pool.{pool_nodes}
use somedb.Index.Tree.Pool.RoundTrip.{fetch-flush}
use somedb.Index.Tree.Search.{Reached, find_leaf}
use somedb.Index.Tree.Store.{NodeStore}
use somedb.Sql.Token.{Text}
use somedb.Utils.Hash.Lone.{HasChain}
use somedb.Utils.Serialize.{Buf}

module _ {V : Type 0} (codec : Codec V) where
  total_size-middle :
      (front back : List (Entry V)) (e : Entry V)
      → total_size codec (front ++ e ∷ back) ≡ entry_size codec e + total_size codec (front ++ back)
  total_size-middle [] back e = refl
  total_size-middle (x ∷ front) back e = omega (arith, total_size-middle front back e)

  AllFit-middle :
      (front back : List (Entry V)) (e : Entry V)
      → FitsEntry codec e
      → AllFit codec (front ++ back)
      → AllFit codec (front ++ e ∷ back)
  AllFit-middle [] back e h fit = (h, fit)
  AllFit-middle (x ∷ front) back e h fit = (fit.0, AllFit-middle front back e h fit.1)

  total_size-Placed :
      (es after : List (Entry V)) (e : Entry V)
      → Placed es e after
      → total_size codec after ≡ entry_size codec e + total_size codec es
  total_size-Placed es after e p =
      ap (total_size codec) p.placed
      ∙ total_size-middle p.front p.back e
      ∙ ap (λ (l : List (Entry V)). entry_size codec e + total_size codec l) (sym p.before)

  AllFit-Placed :
      (es after : List (Entry V)) (e : Entry V)
      → Placed es e after
      → FitsEntry codec e
      → AllFit codec es
      → AllFit codec after
  AllFit-Placed es after e p h fit =
      subst (AllFit codec) (sym p.placed)
        (AllFit-middle p.front p.back e h (subst (AllFit codec) p.before fit))

module _ (files : Files) (atoi : Text → ℤ) (print : ℕ → Text) (unset : Buf) (mem : BTreePage) where
  -- Where the search in the buffer pool ends at a leaf with sorted keys, without the key, with fewer
  -- entries than a node may have, and with room in its page for the new one, insert gives the page
  -- id of that leaf and leaves the tree as it was, and the page is then fetched as the leaf with the
  -- new entry at one place of its entries, which stay sorted. After the search, the page is in the
  -- pool under its own page id, alone in its chain, below page 2 ^ 19 and with a number of fewer
  -- than five digits; its frame is not free, and is the first free one when it is freed; the list
  -- of the replacer is not full, and the chain of the frame empty. Keys have 1 to 255 bytes, and
  -- record ids and the fields of the header are in range.
  pub fetch-insert :
      (fuel : ℕ) (key : BTreeKey) (val : Rid) (tree : BTree)
      (bpm : BufferPoolManager files atoi print) (r : Reached (BufferPoolManager files atoi print))
      (fid clock_idx : ℕ) (page : BpmPage) (flags rightmost next : ℕ) (es : List (Entry Rid))
      → tree.root_pid ≢ 0
      → find_leaf (pool_nodes files atoi print unset) fuel tree key bpm ≡ some r
      → r.temp ≡ leaf_page flags rightmost next es
      → r.pid ≢ 0
      → has_key (keys_of es) key ≡ false
      → Sorted es
      → length es < tree.max_size
      → InFrame files atoi print r.store r.pid fid page
      → page.id ≡ r.pid
      → length (print r.pid) < 5
      → r.pid < 524288
      → free_frame 0 (set r.store.free_list fid true) ≡ some fid
      → get_elem? r.store.free_list fid ≡ some false
      → r.store.replacer.frames.size ≢ r.store.replacer.frames.capacity
      → HasChain atoi r.store.replacer.frame_table (print fid) clock_idx []
      → flags < 256
      → rightmost < 4294967296
      → next < 4294967296
      → FitsEntry record_codec (key, val)
      → AllFit record_codec es
      → header_size
          + 4 * (length es + 1)
          + (entry_size record_codec (key, val) + total_size record_codec es)
        ≤ page_size
      → (after : List (Entry Rid)) × (bpm₁ : BufferPoolManager files atoi print)
        × (bpm₂ : BufferPoolManager files atoi print) × Placed es (key, val) after
        × Sorted after
        × (insert (pool_nodes files atoi print unset) mem fuel key val tree bpm
            ≡ some (r.pid, tree, bpm₁))
        × (NodeStore.fetch (pool_nodes files atoi print unset) r.pid bpm₁
            ≡ some (leaf_page flags rightmost next after, bpm₂))
  fetch-insert fuel key val tree bpm r fid clock_idx page flags rightmost next es root found leaf
        real absent sorted space h own short small free taken listed chain hf hr hn fits all room =
      let nodes = pool_nodes files atoi print unset in
      let (after, place, sorted', run) =
        insert-room nodes mem fuel key val tree bpm r flags rightmost next es root found leaf real
          absent sorted (omega (arith, room)) space in
      let count = length-Placed es after (key, val) place in
      let size = total_size-Placed record_codec es after (key, val) place in
      let (bpm₁, bpm₂, flushed, fetched) =
        fetch-flush files atoi print unset r.store r.pid fid clock_idx page flags rightmost next
          after h own short small free taken listed chain hf hr hn
          (AllFit-Placed record_codec es after (key, val) place fits all)
          (omega (arith, count, size, room)) (omega (arith, count, room)) in
      (
        after,
        bpm₁,
        bpm₂,
        place,
        sorted',
        run
            ∙ ap
                (λ (m : Option (BufferPoolManager files atoi print)).
                  m >>= λ s'. some (r.pid, tree, s'))
                flushed,
        fetched,
      )
