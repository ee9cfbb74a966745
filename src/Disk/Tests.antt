-- ===== src/Disk/Tests.antt =====
-- The pages of a small file, with a table.
use somedb.Base.{
  ◌+◌, ◌-◌, ◌≡◌, ◌≤◌, refl, leb, ◌==◌, true, none, some, List, [], ◌∷◌, arith, if◌then◌else◌,
}
use somedb.Base.Int.{pos}
use somedb.Disk.File.{read_page, write_page}
use somedb.Disk.File.Laws.{page_at}
use somedb.Disk.Heap.{
  FreeSpace, DiskManager, added, find_spacious_page, add_tuple, remove_tuple, get_tuple,
}
use somedb.Disk.Heap.Directory.{HasEntry}
use somedb.Disk.Heap.Laws.{HasSlots, write_page-HasSlots, add_tuple-HasSlots, remove_tuple-HasSlots}
use somedb.Disk.Heap.Table.{Column, write_columns, empty_schema}
use somedb.Disk.Heap.Table.Schema.{validate_columns-write_columns}
use somedb.Disk.HeapPage.{TuplePtr, extract_header, extract_tuple_ptr, new_page_buf, write_tuple}
use somedb.Disk.HeapPage.Refine.{new_page_buf-Represents, write_tuple-Represents}
use somedb.Disk.IndexFile.{new_btree_index_page}
use somedb.Disk.IndexFile.Laws.{IsIndexFile, new_btree_index_page-leaf}
use somedb.Disk.Tuple.{
  ColumnValue, boolean, string, integer, tuple_size_from, encode_values, tuple_bytes,
}
use somedb.Disk.Tuple.Laws.{Fields, encode_values-tuple}
use somedb.Index.Page.{Rid, ◌>>=◌}
use somedb.Index.Serial.{deserialize}
use somedb.Index.Serial.RoundTrip.{leaf_page}
use somedb.Index.Tree.{btree_index}
use somedb.Utils.Hash.{HashTable, live, hash_find}
use somedb.Utils.Serialize.{Buf, encode_uint32, encode_uint16, decode_uint32, word32}
use somedb.Disk.Samples.{test_files, zeros, unary, digits}

abbrev index_file : test_files.File
index_file = (8192, encode_uint16 1 (encode_uint32 btree_index (λ _. 0) 0) 4)

index_file-IsIndexFile : IsIndexFile test_files index_file 1
unfolding decode_uint32 somedb.Utils.Serialize.decode_uint16 encode_uint32 encode_uint16
    somedb.Utils.Serialize.store
index_file-IsIndexFile = record { holds = omega arith; magic = refl; nodes = refl }

new_btree_index_page-leaf_example :
    (after : test_files.File) × (new_btree_index_page test_files true index_file ≡ some (2, after))
    × IsIndexFile test_files after 2
    × (read_page test_files 2 after >>= deserialize 513 ≡ some (leaf_page 0 0 0 []))
    × (page_at test_files 1 after 7 ≡ page_at test_files 1 index_file 7)
new_btree_index_page-leaf_example =
    new_btree_index_page-leaf test_files index_file 1 513 1 7 index_file-IsIndexFile (omega arith)
      (omega arith) (omega arith) (omega arith) (omega arith)

abbrev row : List ColumnValue
row = boolean 1 ∷ string (104 ∷ 105 ∷ []) ∷ integer (pos 5) ∷ []

encode_values-tuple_example :
    (tuple_size_from 0 row ≡ 9)
    × (encode_values row (λ _. 0) 0 20 ≡ 0)
    × Fields (encode_values row (λ _. 0) 0) 0 row
unfolding somedb.Disk.Tuple.value_size
encode_values-tuple_example =
    encode_values-tuple row (λ _. 0) 20 (tt, (omega arith, ((omega arith, omega arith), tt)))
      (omega arith) (omega arith)

abbrev empty_page : Buf
empty_page = new_page_buf 2 (λ _. 0)

empty_page-room : 11 ≤ somedb.Utils.Serialize.decode_uint16 empty_page 2
unfolding new_page_buf somedb.Disk.HeapPage.construct_page_header_buf encode_uint16
    somedb.Utils.Serialize.decode_uint16 somedb.Utils.Serialize.store
empty_page-room = omega arith

abbrev cell : FreeSpace
cell = record { address = 70000; free_space = 4000 }

-- The schema page has one column, `a`, of integers; the page 2 is new.
abbrev table_file : test_files.File
table_file = (
  16384,
  λ q.
      if q == 4096
      then 1
      else if q == 4097
      then 1
      else if q == 4098
      then 97
      else if q == 4099
      then 3
      else if leb 8192 q
      then empty_page (q - 8192)
      else 0,
)

abbrev dm : DiskManager test_files digits unary
dm = record {
  page_directory = record { arr = [] ∷ [] ∷ (live (unary 2) cell ∷ []) ∷ [] ∷ []; size = 4 };
  file = table_file;
}

dm-HasEntry : HasEntry test_files digits unary dm.page_directory 2 cell
unfolding somedb.Utils.Hash.hash
dm-HasEntry = record { idx = 2; hashed = refl; alone = refl }

dm-HasSlots : HasSlots test_files digits unary dm 2 []
unfolding new_page_buf somedb.Disk.HeapPage.construct_page_header_buf encode_uint16
    somedb.Utils.Serialize.decode_uint16 somedb.Utils.Serialize.store
dm-HasSlots = record {
  holds = omega arith;
  slots = record { start = refl; room = omega arith; top = omega arith; slots = tt };
}

dm-room : 13 ≤ (extract_header (page_at test_files 2 dm.file) 2).free_end
unfolding extract_header new_page_buf somedb.Disk.HeapPage.construct_page_header_buf encode_uint16
    somedb.Utils.Serialize.decode_uint16 somedb.Utils.Serialize.store
dm-room = omega arith

dm-valid :
    somedb.Disk.Heap.validate_columns
      (page_at test_files 1 dm.file 0)
      0
      0
      (λ q. page_at test_files 1 dm.file (q + 1))
      (page_at test_files 1 dm.file 0)
      ((97 ∷ []) ∷ [])
      (integer (pos 5) ∷ [])
    ≡ some true
unfolding somedb.Disk.Heap.validate_columns somedb.Disk.Heap.strncmp_equal
    somedb.Disk.Heap.type_code
dm-valid = refl

add_tuple-HasSlots_example :
    (ptr : TuplePtr) × (after : DiskManager test_files digits unary) × (add_tuple test_files digits
        unary
        ((97 ∷ []) ∷ [])
        (integer (pos 5) ∷ [])
        (λ _. 0)
        80000
        dm
      ≡ some (added ptr, after))
    × HasSlots test_files digits unary after 2
        (some (tuple_bytes (integer (pos 5) ∷ []) (λ _. 0)) ∷ [])
    × (extract_tuple_ptr (page_at test_files 2 after.file) 0 ≡ ptr)
    × HasEntry test_files digits unary after.page_directory 2
        (record { address = 80000; free_space = 3996 })
unfolding somedb.Disk.Tuple.value_size
add_tuple-HasSlots_example =
    add_tuple-HasSlots test_files digits unary dm cell ((97 ∷ []) ∷ []) (integer (pos 5) ∷ [])
      (λ _. 0) 80000 [] dm-HasEntry (omega arith) dm-HasSlots (omega arith) dm-room dm-valid

abbrev one_page : Buf
one_page =
    (write_tuple-Represents empty_page 2 [] (1 ∷ 2 ∷ []) (new_page_buf-Represents 2 (λ _. 0))
      empty_page-room).0

abbrev one : DiskManager test_files digits unary
one = record { page_directory = dm.page_directory; file = write_page test_files 2 one_page zeros }

one-HasSlots : HasSlots test_files digits unary one 2 (some (1 ∷ 2 ∷ []) ∷ [])
one-HasSlots =
    write_page-HasSlots test_files digits unary
      (record { page_directory = dm.page_directory; file = zeros }) 2 one_page
      (some (1 ∷ 2 ∷ []) ∷ []) (omega arith)
      ((write_tuple-Represents empty_page 2 [] (1 ∷ 2 ∷ []) (new_page_buf-Represents 2 (λ _. 0))
        empty_page-room).3)

abbrev rid : Rid
rid = record { pid = 2; slot_num = 0 }

remove_tuple-HasSlots_example :
    (after : DiskManager test_files digits unary) × (remove_tuple test_files digits unary one rid
      ≡ some after)
    × HasSlots test_files digits unary after 2 (none ∷ [])
    × (get_tuple test_files digits unary rid after ≡ some (page_at test_files 2 after.file, none))
remove_tuple-HasSlots_example =
    remove_tuple-HasSlots test_files digits unary one rid (some (1 ∷ 2 ∷ []) ∷ []) (omega arith)
      one-HasSlots (omega arith)

abbrev two_columns : List Column
two_columns =
    record { name_len = 1; name = 97 ∷ []; type_ = 3 }
    ∷ record { name_len = 1; name = 98 ∷ []; type_ = 1 }
    ∷ []

validate_columns-write_columns_example :
    (page : Buf) × (write_columns 0 0 two_columns (empty_schema 2) ≡ some page)
    × (page 0 ≡ 2)
    × (somedb.Disk.Heap.validate_columns 2 0 0
          (λ q. page (q + 1))
          2
          ((97 ∷ []) ∷ (98 ∷ []) ∷ [])
          (integer (pos 5) ∷ boolean 1 ∷ [])
        ≡ some true)
unfolding somedb.Disk.Heap.type_code empty_schema
validate_columns-write_columns_example =
    validate_columns-write_columns 1 two_columns (integer (pos 5) ∷ boolean 1 ∷ []) (empty_schema 2)
      ((refl, refl, omega arith), ((refl, refl, omega arith), tt)) (omega arith) (omega arith)
      (refl, (refl, tt)) refl
