-- ===== src/Disk/IndexFile.antt =====
-- src/disk/disk_manager.c: the file of an index, with its metadata page and its nodes.
pub mod Laws
use somedb.Base.{ℕ, ◌+◌, ◌%◌, ◌^◌, ◌==◌, Bool, Option, none, some, if◌then◌else◌}
use somedb.Disk.File.{Files, read_page, write_page}
use somedb.Index.Page.{◌>>=◌}
use somedb.Index.Serial.{page_size}
use somedb.Index.Tree.{btree_index}
use somedb.Utils.Serialize.{Buf, store, encode_uint32, decode_uint32, encode_uint16, decode_uint16}

module _ (files : Files) where
  -- `none` is NULL: there is an index of that name.
  unfoldable pub create_btree_index : ℕ → files.File → Option files.File
  create_btree_index max_keys file =
      let index_buf₁ = encode_uint32 btree_index (λ _. 0) 0 in
      let index_buf₂ = encode_uint16 0 index_buf₁ 4 in
      let index_buf₃ = store index_buf₂ 6 max_keys in
      if files.size file == 0 then some (files.write_at file 0 page_size index_buf₃) else none

  -- `none` is `exit(1)` or the failed `assert`.
  unfoldable pub new_btree_index_page : Bool → files.File → Option (ℕ × files.File)
  new_btree_index_page is_leaf file = do
    metadata_page ← read_page files 0 file
    let new_node_num = (decode_uint16 metadata_page 4 + 1) % 2 ^ 16
    let file₁ = write_page files 0 (encode_uint16 new_node_num metadata_page 4) file
    let page = store (λ _. 0) 13 (if is_leaf then 1 else 0)
    (if decode_uint32 metadata_page 0 == btree_index
        then some (new_node_num, write_page files new_node_num page file₁)
        else none)
