-- ===== src/Sql/Schema/Tests.antt =====
-- A table of two columns of integers and its rows, and values read from rows.
use somedb.Base.{
  ℕ, ◌+◌, ◌-◌, ◌≡◌, ◌≤◌, ◌↔◌, refl, leb, ◌==◌, true, none, some, List, [], ◌∷◌, arith,
  if◌then◌else◌,
}
use somedb.Base.Int.{pos, negsuc}
use somedb.Disk.File.Laws.{page_at}
use somedb.Disk.Heap.{FreeSpace, DiskManager, added, add_tuple, get_tuple}
use somedb.Disk.Heap.Directory.{HasEntry}
use somedb.Disk.Heap.Laws.{HasSlots}
use somedb.Disk.HeapPage.{TuplePtr, extract_header, new_page_buf}
use somedb.Disk.Samples.{test_files, unary, digits}
use somedb.Disk.Tuple.{ColumnValue, integer}
use somedb.Sql.Primitive
use somedb.Sql.Primitive.Laws.{compare-varchar}
use somedb.Sql.Primitive.Methods.{equals, not_equals, greater_than, less_than, deserialize}
use somedb.Sql.Primitive.{boolean_type, integer_type, varchar_type, undefined, value}
use somedb.Sql.Samples.{platform}
use somedb.Sql.Schema.{Column, Table, get_value, table_eq}
use somedb.Sql.Schema.Equal.{column_names, table_eq-column_names}
use somedb.Sql.Schema.Row.{get_value-add_tuple}
use somedb.Sql.Token.{Text, text}
use somedb.Utils.Hash.{live}
use somedb.Utils.Serialize.{Buf}

abbrev cell : FreeSpace
cell = record { address = 70000; free_space = 4000 }

abbrev empty_page : Buf
empty_page = new_page_buf 2 (λ _. 0)

-- The schema page has the columns `a` and `b` of integers; the page 2 is new.
abbrev schema_page : List ℕ
schema_page = 2 ∷ 1 ∷ 97 ∷ 3 ∷ 1 ∷ 98 ∷ 3 ∷ []

abbrev table_file : test_files.File
table_file = (
  12288,
  λ q.
      if leb 8192 q
      then empty_page (q - 8192)
      else if leb 4096 q
      then somedb.Base.get_or schema_page (q - 4096) 0
      else 0,
)

abbrev dm : DiskManager test_files digits unary
dm = record {
  page_directory = record { arr = [] ∷ [] ∷ (live (unary 2) cell ∷ []) ∷ [] ∷ []; size = 4 };
  file = table_file;
}

dm-HasEntry : HasEntry test_files digits unary dm.page_directory 2 cell
unfolding somedb.Utils.Hash.hash
dm-HasEntry = record { idx = 2; hashed = refl; alone = refl }

dm-HasSlots : HasSlots test_files digits unary dm 2 []
unfolding new_page_buf somedb.Disk.HeapPage.construct_page_header_buf
    somedb.Utils.Serialize.encode_uint16 somedb.Utils.Serialize.decode_uint16
    somedb.Utils.Serialize.store
dm-HasSlots = record {
  holds = omega arith;
  slots = record { start = refl; room = omega arith; top = omega arith; slots = tt };
}

dm-room : 17 ≤ (extract_header (page_at test_files 2 dm.file) 2).free_end
unfolding extract_header new_page_buf somedb.Disk.HeapPage.construct_page_header_buf
    somedb.Utils.Serialize.encode_uint16 somedb.Utils.Serialize.decode_uint16
    somedb.Utils.Serialize.store
dm-room = omega arith

abbrev values : List ColumnValue
values = integer (pos 5) ∷ integer (negsuc 6) ∷ []

dm-valid :
    somedb.Disk.Heap.validate_columns
      (page_at test_files 1 dm.file 0)
      0
      0
      (λ q. page_at test_files 1 dm.file (q + 1))
      (page_at test_files 1 dm.file 0)
      (text "a" ∷ text "b" ∷ [])
      values
    ≡ some true
unfolding somedb.Disk.Heap.validate_columns somedb.Disk.Heap.strncmp_equal
    somedb.Disk.Heap.type_code
dm-valid = refl

abbrev column_a : Column
column_a = record { name = text "a"; data_type = integer_type }

abbrev column_b : Column
column_b = record { name = text "b"; data_type = integer_type }

get_value-add_tuple_example :
    (ptr : TuplePtr) × (after : DiskManager test_files digits unary) × (page : Buf) × (address : ℕ)
    × (add_tuple test_files digits unary (text "a" ∷ text "b" ∷ []) values (λ _. 0) 80000 dm
        ≡ some (added ptr, after))
    × (get_tuple test_files digits unary (record { pid = 2; slot_num = 0 }) after
        ≡ some (page, some address))
    × (get_value platform
          (λ q. page (address + q))
          column_b
          (record { name = text "tab"; columns = column_a ∷ column_b ∷ [] })
        ≡ value (Primitive.integer platform (negsuc 6)))
unfolding somedb.Disk.Tuple.value_size somedb.Sql.Token.text_eq
get_value-add_tuple_example =
    get_value-add_tuple platform test_files digits unary dm cell (text "a" ∷ text "b" ∷ [])
      (integer (pos 5) ∷ []) [] (integer (negsuc 6)) (λ _. 0) 80000 [] (column_a ∷ []) [] column_b
      (text "tab") dm-HasEntry (omega arith) dm-HasSlots (omega arith) dm-room dm-valid
      ((omega arith, omega arith), ((omega arith, omega arith), tt)) (refl, tt) refl refl (refl, tt)
      refl

abbrev as_integers : Table
as_integers = record { name = text "tab"; columns = column_a ∷ [] }

abbrev as_booleans : Table
as_booleans = record {
  name = text "tab";
  columns = record { name = text "a"; data_type = boolean_type } ∷ [];
}

table_eq-column_names_example : (table_eq platform as_integers as_booleans ≡ true) ↔ (
    (text "tab" ≡ text "tab")
    × (column_names as_integers.columns ≡ column_names as_booleans.columns))
table_eq-column_names_example = table_eq-column_names platform as_integers as_booleans

compare-varchar_example :
    (equals platform (deserialize platform varchar_type (λ _. 97) 0) (Primitive.varchar platform 5)
      ≡ undefined)
    × (not_equals platform
          (deserialize platform varchar_type (λ _. 97) 0)
          (Primitive.varchar platform 5)
        ≡ undefined)
    × (greater_than platform
          (deserialize platform varchar_type (λ _. 97) 0)
          (Primitive.varchar platform 5)
        ≡ undefined)
    × (less_than platform
          (deserialize platform varchar_type (λ _. 97) 0)
          (Primitive.varchar platform 5)
        ≡ undefined)
compare-varchar_example = compare-varchar platform (λ _. 97) 0 (Primitive.varchar platform 5)
