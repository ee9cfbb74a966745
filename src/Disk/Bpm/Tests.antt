-- ===== src/Disk/Bpm/Tests.antt =====
-- A clock with a few frames, and a pool of two frames over a small file, one of which holds a leaf.
use somedb.Utils.Serialize.{Buf}
use somedb.Index.Page.{◌>>=◌}
use somedb.Index.Page.Insert.{Sorted}
use somedb.Index.Order.{Placed}
use somedb.Index.Key.{BTreeKey, cmp_keys}
use somedb.Index.Serial.{deserialize}
use somedb.Index.Tree.{BTree, btree_index}
use somedb.Index.Tree.Ops.{has_key, insert}
use somedb.Index.Tree.Search.{Reached, find_leaf}
use somedb.Index.Tree.Pool.{rounds, fetch_node}
use somedb.Index.Tree.Pool.Insert.{fetch-insert}
use somedb.Index.Page.{Rid}
use somedb.Index.Page.Shift.{Entry}
use somedb.Index.Serial.RoundTrip.{leaf_page}
use somedb.Index.Tree.Pool.{pool_nodes}
use somedb.Index.Tree.Store.{NodeStore}
use somedb.Base.{
  ◌||◌, ◌==◌, if◌then◌else◌, ℕ, ◌≡◌, ◌<◌, refl, Bool, true, false, none, some, List, [], ◌∷◌, arith,
}
use somedb.Disk.Bpm.{
  BpmPage, zero_page, free_frame, BufferPoolManager, flush_page, write_to_frame, fetch_bpm_page,
}
use somedb.Disk.Bpm.Allocate.{heap_page, wait_for_page, allocate_new_page}
use somedb.Disk.Bpm.Allocate.Laws.{wait_for_page-full, allocate_new_page-heap}
use somedb.Disk.Heap.{FreeSpace}
use somedb.Disk.Heap.Directory.{HasEntry}
use somedb.Disk.HeapPage.Refine.{Represents}
use somedb.Disk.Bpm.Laws.{InFrame}
use somedb.Disk.Bpm.RoundTrip.{fetch_bpm_page-miss, write_to_frame-fetch}
use somedb.Disk.Clock.{
  ClockReplacer, null, dangling, node, no_frame, evict, clock_replacer_pin, clock_replacer_unpin,
}
use somedb.Disk.Clock.Laws.{pin-absent}
use somedb.Disk.File.Laws.{page_at}
use somedb.Sql.Token.{Text}
use somedb.Utils.CircularList.{CircularList}
use somedb.Utils.Hash.{HashTable, live, hash_find}
use somedb.Utils.Hash.Lone.{HasChain}
use somedb.Disk.Samples.{test_files, zeros, unary, digits}

abbrev bits : HashTable Bool
bits = record { arr = [] ∷ [] ∷ []; size = 2 }

bits-HasChain : HasChain digits bits (unary 1) 1 []
unfolding somedb.Utils.Hash.hash
bits-HasChain = record { hashed = refl; there = refl }

abbrev second_bits : HashTable Bool
second_bits = record { arr = [] ∷ (live (unary 1) true ∷ []) ∷ []; size = 2 }

second_bits-HasChain : HasChain digits second_bits (unary 4) 0 []
unfolding somedb.Utils.Hash.hash
second_bits-HasChain = record { hashed = refl; there = refl }

one-HasChain : HasChain digits second_bits (unary 1) 1 (live (unary 1) true ∷ [])
unfolding somedb.Utils.Hash.hash
one-HasChain = record { hashed = refl; there = refl }

pin-absent_example :
    (replacer : ClockReplacer) × (clock_replacer_pin digits unary 4 (record {
      frames = record { capacity = 4; size = 2; nodes = unary 2 ∷ unary 1 ∷ [] };
      frame_table = second_bits;
      hand = node 1;
    })
      ≡ some replacer)
    × (replacer.frames ≡ record { capacity = 4; size = 1; nodes = unary 2 ∷ [] })
    × (replacer.hand ≡ dangling)
    × (hash_find digits (unary 1) replacer.frame_table ≡ none)
    × (clock_replacer_unpin digits unary 1 replacer ≡ none)
unfolding somedb.Sql.Token.text_eq somedb.Disk.Clock.hand_after_remove
pin-absent_example =
    pin-absent digits unary 4 0 4 2 (unary 2) 1 [] second_bits (node 1) 1 true second_bits-HasChain
      refl one-HasChain (omega arith)

abbrev set_bit : HashTable Bool
set_bit = record { arr = [] ∷ (live (unary 1) true ∷ []) ∷ []; size = 2 }

set_bit-HasChain : HasChain digits set_bit (unary 1) 1 (live (unary 1) true ∷ [])
unfolding somedb.Utils.Hash.hash
set_bit-HasChain = record { hashed = refl; there = refl }

-- Two frames; the page 2 is in the second one.
abbrev pool : BufferPoolManager test_files digits unary
pool = record {
  pool_size = 2;
  pages = zero_page ∷ record { data_ = λ _. 0; id = 2; pin_count = 1; is_dirty = false } ∷ [];
  page_table = record { arr = [] ∷ [] ∷ (live (unary 2) 1 ∷ []) ∷ [] ∷ []; size = 4 };
  free_list = false ∷ false ∷ [];
  replacer = record {
    frames = record { capacity = 2; size = 0; nodes = [] };
    frame_table = bits;
    hand = null;
  };
  file = zeros;
}

abbrev second_page : BpmPage
second_page = record { data_ = λ _. 0; id = 2; pin_count = 1; is_dirty = false }

pool-InFrame : InFrame test_files digits unary pool 2 1 second_page
unfolding somedb.Utils.Hash.hash
pool-InFrame = record { idx = 2; chain = record { hashed = refl; there = refl }; framed = refl }

write_to_frame-fetch_example :
    (bpm₁ : BufferPoolManager test_files digits unary) × (bpm₂ : BufferPoolManager test_files digits
      unary)
    × (bpm₃ : BufferPoolManager test_files digits unary) × (page : BpmPage) × (write_to_frame
          test_files digits unary 1
          (λ q. 9)
          pool
        ≡ some bpm₁)
    × (flush_page test_files digits unary 2 bpm₁ ≡ some (true, bpm₂))
    × (fetch_bpm_page test_files digits unary 2 bpm₂ ≡ some (1, bpm₃))
    × InFrame test_files digits unary bpm₃ 2 1 page
    × ((q : ℕ) → q < 4096 → page.data_ q ≡ 9)
    × (bpm₃.replacer.frames ≡ pool.replacer.frames)
unfolding free_frame
write_to_frame-fetch_example =
    write_to_frame-fetch test_files digits unary pool 2 1 1 second_page (λ q. 9) pool-InFrame
      (omega arith) (omega arith) refl refl (omega arith) bits-HasChain

-- A leaf with the key 5 in the second frame.
abbrev leaf_bytes : Buf
leaf_bytes q =
    if q == 2
    then 15
    else if q == 3
    then 246
    else if q == 13 || q == 4086
    then 1
    else if q == 4087 || q == 4091
    then 5
    else 0

abbrev byte_key : ℕ → BTreeKey
byte_key n = record { bytes = n ∷ []; size = 1 }

abbrev one_entry : List (Entry Rid)
one_entry = (byte_key 5, record { pid = 5; slot_num = 0 }) ∷ []

leaf_bytes-leaf : deserialize rounds leaf_bytes ≡ some (leaf_page 0 0 0 one_entry)
unfolding deserialize somedb.Index.Serial.read_entries somedb.Index.Serial.bytes_at
    somedb.Utils.Serialize.decode_uint16 somedb.Utils.Serialize.decode_uint32
    somedb.Utils.Serialize.decode_bool
leaf_bytes-leaf = refl

abbrev leaf_frame : ℕ → BpmPage
leaf_frame n = record { data_ = leaf_bytes; id = 2; pin_count = n; is_dirty = false }

abbrev leaf_pool : ℕ → BufferPoolManager test_files digits unary
leaf_pool n = record pool { pages = zero_page ∷ leaf_frame n ∷ [] }

leaf_pool-InFrame : InFrame test_files digits unary (leaf_pool 2) 2 1 (leaf_frame 2)
unfolding somedb.Utils.Hash.hash
leaf_pool-InFrame = record {
  idx = 2;
  chain = record { hashed = refl; there = refl };
  framed = refl;
}

abbrev pool_tree : BTree
pool_tree = record { magic_num = btree_index; max_size = 4; root_pid = 2; node_count = 2 }

abbrev found_leaf : Reached (BufferPoolManager test_files digits unary)
found_leaf = record {
  pid = 2;
  temp = leaf_page 0 0 0 one_entry;
  breadcrumbs = [];
  store = leaf_pool 2;
}

abbrev nodes : NodeStore
nodes = pool_nodes test_files digits unary (λ q. 77)

fetched_leaf : fetch_bpm_page test_files digits unary 2 (leaf_pool 1) ≡ some (1, leaf_pool 2)
unfolding fetch_bpm_page somedb.Utils.Hash.hash_find somedb.Utils.Hash.hash
    somedb.Utils.Hash.find_chain somedb.Sql.Token.text_eq somedb.Index.Page.put
fetched_leaf = refl

found_in_pool : find_leaf nodes 1 pool_tree (byte_key 3) (leaf_pool 1) ≡ some found_leaf
unfolding find_leaf somedb.Index.Tree.Search.find_leaf_from fetch_node
found_in_pool = rw (fetch_node, fetched_leaf, ◌>>=◌, leaf_bytes-leaf)

fetch-insert_example :
    (after : List (Entry Rid)) × (bpm₁ : BufferPoolManager test_files digits unary)
    × (bpm₂ : BufferPoolManager test_files digits unary) × Placed one_entry
        (byte_key 3, record { pid = 9; slot_num = 1 })
        after
    × Sorted after
    × (insert nodes
          (leaf_page 0 0 0 [])
          1
          (byte_key 3)
          (record { pid = 9; slot_num = 1 })
          pool_tree
          (leaf_pool 1)
        ≡ some (2, pool_tree, bpm₁))
    × (NodeStore.fetch nodes 2 bpm₁ ≡ some (leaf_page 0 0 0 after, bpm₂))
unfolding free_frame has_key cmp_keys somedb.Index.Key.memcmp somedb.Index.Key.same_sign
fetch-insert_example =
    fetch-insert test_files digits unary (λ q. 77) (leaf_page 0 0 0 []) 1 (byte_key 3)
      (record { pid = 9; slot_num = 1 }) pool_tree (leaf_pool 1) found_leaf 1 1 (leaf_frame 2) 0 0 0
      one_entry (omega arith) found_in_pool refl (omega arith) refl (tt, tt) (omega arith)
      leaf_pool-InFrame refl (omega arith) (omega arith) refl refl (omega arith) bits-HasChain
      (omega arith) (omega arith) (omega arith)
      (record {
        nonempty = omega arith;
        short = omega arith;
        whole = refl;
        value = (omega arith, omega arith);
      })
      (
        record {
          nonempty = omega arith;
          short = omega arith;
          whole = refl;
          value = (omega arith, omega arith);
        },
        tt,
      )
      (omega arith)

abbrev unpinned : ClockReplacer
unpinned = record {
  frames = record { capacity = 2; size = 1; nodes = unary 1 ∷ [] };
  frame_table = set_bit;
  hand = null;
}

pool-unpinned : clock_replacer_unpin digits unary 1 pool.replacer ≡ some unpinned
unfolding clock_replacer_unpin somedb.Utils.CircularList.circular_list_insert
    somedb.Utils.Hash.hash_insert somedb.Utils.Hash.hash somedb.Utils.Hash.insert_chain
    somedb.Disk.Clock.hand_after_insert
pool-unpinned = refl

abbrev free_pool : BufferPoolManager test_files digits unary
free_pool = record pool {
  free_list = false ∷ true ∷ [];
  page_table = record { arr = [] ∷ [] ∷ [] ∷ [] ∷ []; size = 4 };
}

free_pool-HasChain : HasChain digits free_pool.page_table (unary 2) 2 []
unfolding somedb.Utils.Hash.hash
free_pool-HasChain = record { hashed = refl; there = refl }

free_pool-pinned : clock_replacer_pin digits unary 1 pool.replacer ≡ some pool.replacer
unfolding clock_replacer_pin somedb.Disk.Clock.drop_frame somedb.Disk.Clock.is_lone
    somedb.Disk.Clock.remove_frame somedb.Utils.CircularList.circular_list_remove
    somedb.Utils.Hash.hash_remove somedb.Utils.Hash.hash somedb.Utils.Hash.remove_chain
free_pool-pinned = refl

fetch_bpm_page-miss_example :
    (bpm : BufferPoolManager test_files digits unary) × (page : BpmPage) × (fetch_bpm_page
        test_files digits unary 2 free_pool
      ≡ some (1, bpm))
    × InFrame test_files digits unary bpm 2 1 page
    × ((q : ℕ) → q < 4096 → page.data_ q ≡ page_at test_files 2 zeros q)
    × (page.pin_count ≡ 2)
    × (page.is_dirty ≡ false)
    × (bpm.replacer ≡ pool.replacer)
unfolding free_frame
fetch_bpm_page-miss_example =
    fetch_bpm_page-miss test_files digits unary free_pool 2 1 2 second_page pool.replacer
      free_pool-HasChain (omega arith) refl refl free_pool-pinned (omega arith) (omega arith)

-- Both frames hold pinned pages.
wait_for_page-full_example : wait_for_page test_files digits unary 1000 3 pool ≡ some none
unfolding free_frame hash_find somedb.Utils.Hash.hash somedb.Utils.Hash.find_chain
wait_for_page-full_example = wait_for_page-full test_files digits unary pool 3 1000 refl refl refl

abbrev directory : HashTable FreeSpace
directory = record {
  arr = [] ∷ [] ∷ (live (unary 2) (record { address = 70000; free_space = 4096 }) ∷ []) ∷ [] ∷ [];
  size = 4;
}

directory-HasEntry :
    HasEntry test_files digits unary directory 2 (record { address = 70000; free_space = 4096 })
unfolding somedb.Utils.Hash.hash
directory-HasEntry = record { idx = 2; hashed = refl; alone = refl }

allocate_new_page-heap_example :
    (bpm₁ : BufferPoolManager test_files digits unary) × (bpm₂ : BufferPoolManager test_files digits
      unary)
    × (allocate_new_page test_files digits unary 1 heap_page directory (λ _. 7) free_pool
        ≡ some (some (1, bpm₁)))
    × Represents (page_at test_files 2 bpm₁.file) []
    × InFrame test_files digits unary bpm₁ 2 1 second_page
    × (flush_page test_files digits unary 2 bpm₁ ≡ some (true, bpm₂))
    × ((q : ℕ) → q < 4096 → page_at test_files 2 bpm₂.file q ≡ 0)
unfolding free_frame
allocate_new_page-heap_example =
    allocate_new_page-heap test_files digits unary free_pool directory
      (record { address = 70000; free_space = 4096 }) (λ _. 7) 1 2 0 second_page pool.replacer
      unpinned directory-HasEntry (omega arith) free_pool-HasChain (omega arith) refl refl refl
      free_pool-pinned pool-unpinned
