-- ===== src/Index/Tree/Pool.antt =====
-- include/index/btree_index.hpp and src/index/btree_index.cpp: the pages of the tree in the buffer
-- pool. A page is fetched as the node that the constructor reads from its frame; a node is
-- serialized into a page that the source does not initialise, `unset`, and flushed; a new page is
-- made in the file.
pub mod RoundTrip
pub mod Insert
use somedb.Base.{ℕ, ◌^◌, Bool, Option, some, get_elem?}
use somedb.Base.Int.{ℤ}
use somedb.Disk.Bpm.{BufferPoolManager, fetch_bpm_page, flush_node}
use somedb.Disk.File.{Files}
use somedb.Disk.IndexFile.{new_btree_index_page}
use somedb.Index.Page.{BTreePage, ◌>>=◌}
use somedb.Index.Serial.{serialize, deserialize}
use somedb.Index.Tree
use somedb.Index.Tree.{BTree}
use somedb.Index.Tree.Store.{NodeStore}
use somedb.Sql.Token.{Text}
use somedb.Utils.Serialize.{Buf}

-- Every round of the constructor that does not stay where it is goes on by two bytes or more.
abbrev pub rounds : ℕ
rounds = 2 ^ 12

module _ (files : Files) (atoi : Text → ℤ) (print : ℕ → Text) (unset : Buf) where
  unfoldable pub fetch_node :
      ℕ
      → BufferPoolManager files atoi print
      → Option (BTreePage × BufferPoolManager files atoi print)
  fetch_node pid bpm = do
    (fid, bpm') ← fetch_bpm_page files atoi print pid bpm
    page ← get_elem? bpm'.pages fid
    node ← deserialize rounds page.data_
    some (node, bpm')

  unfoldable pub flush_tree_node :
      ℕ
      → BTreePage
      → BufferPoolManager files atoi print
      → Option (BufferPoolManager files atoi print)
  flush_tree_node pid node bpm = do
    data_ ← serialize node unset
    flush_node files atoi print pid data_ bpm

  -- The metadata page is page 0.
  unfoldable pub flush_tree :
      BTree → BufferPoolManager files atoi print → Option (BufferPoolManager files atoi print)
  flush_tree tree bpm = flush_node files atoi print 0 (Tree.serialize tree unset) bpm

  unfoldable pub new_tree_node :
      Bool → BufferPoolManager files atoi print → Option (ℕ × BufferPoolManager files atoi print)
  new_tree_node is_leaf bpm = do
    (pid, file) ← new_btree_index_page files is_leaf bpm.file
    some (pid, record bpm { file = file })

  abbrev pub pool_nodes : NodeStore
  pool_nodes = record {
    Store = BufferPoolManager files atoi print;
    fetch = fetch_node;
    flush = flush_tree_node;
    flush_metadata = flush_tree;
    new_node = new_tree_node;
  }
