-- ===== src/Index/Tree.antt =====
-- include/index/btree_index.hpp and src/index/btree_index.cpp: the metadata page of the tree, and
-- how a split distributes the entries of a node.
pub mod Meta
pub mod Split
pub mod Store
pub mod Pool
pub mod Search
pub mod Ops
pub mod Merge
mod Tests
use somedb.Base.{ℕ, ◌+◌, ◌-◌, ◌==◌, Option, none, some, List, length, if◌then◌else◌, true, false}
use somedb.Index.Page.{
  Rid, BTreePage, records, children, at, vec_first_half, vec_second_half, ◌>>=◌,
}
use somedb.Utils.Serialize.{Buf, store, encode_uint32, decode_uint32, encode_uint16, decode_uint16}

-- The fields that the metadata page holds.
pub record BTree : Type 0 where
  pub magic_num : ℕ
  pub max_size : ℕ
  pub root_pid : ℕ
  pub node_count : ℕ

-- `buf` is what the freshly allocated page holds.
unfoldable pub serialize : BTree → Buf → Buf
serialize tree buf =
    let data₁ = encode_uint32 tree.magic_num buf 0 in
    let data₂ = encode_uint16 tree.node_count data₁ 4 in
    let data₃ = encode_uint32 tree.root_pid data₂ 7 in store data₃ 6 tree.max_size

abbrev pub btree_index : ℕ
btree_index = 0x951F6C01

-- `metadata` is the page that was read from the disk. `none` is the failed `assert`.
unfoldable pub deserialize : Buf → Option BTree
deserialize metadata =
    let tree : BTree = record {
      magic_num = decode_uint32 metadata 0;
      max_size = metadata 6;
      root_pid = decode_uint32 metadata 7;
      node_count = decode_uint16 metadata 4;
    } in
    if decode_uint32 metadata 0 == btree_index then some tree else none

-- `redistribute_kv<RID>`
unfoldable pub redistribute_records : BTreePage → BTreePage → Option (BTreePage × BTreePage)
redistribute_records empty_node full_node = elim full_node.values [
  | children _ ↦ none
  | records full_vals ↦ some (
    record empty_node {
      keys = vec_second_half full_node.keys empty_node.is_leaf;
      values = records (vec_second_half full_vals true);
    },
    record full_node {
      keys = vec_first_half full_node.keys false;
      values = records (vec_first_half full_vals false);
    },
  )
]

-- `redistribute_kv<u32>`. The last value is removed from a copy only.
unfoldable pub redistribute_children : BTreePage → BTreePage → Option (BTreePage × BTreePage)
redistribute_children empty_node full_node = elim full_node.values [
  | records _ ↦ none
  | children old_vals ↦ do
    let full_vals = vec_first_half old_vals true
    last ← at full_vals (length full_vals - 1)
    some (
      record empty_node {
        keys = vec_second_half full_node.keys empty_node.is_leaf;
        values = children (vec_second_half old_vals false);
        rightmost_ptr = full_node.rightmost_ptr;
      },
      record full_node {
        keys = vec_first_half full_node.keys false;
        values = children full_vals;
        rightmost_ptr = last;
      },
    )
]
