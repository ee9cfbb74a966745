-- ===== src/Disk/Heap.antt =====
-- src/disk/heapfile.c: the tuples of a table, over the pages of its file and its page directory.
-- A result `none` is undefined behaviour or the end of the program. Memory that is not initialised,
-- and the address of a new allocation, are arguments. `atoi` and `sprintf(_, "%d", _)` belong to the
-- C library. The latch is not modelled.
pub mod Directory
pub mod Laws
pub mod Table
use Prim.Native.Nat.{bit_and}
use somedb.Base.{
  ℕ, zero, suc, ◌+◌, ◌-◌, ◌*◌, ◌/◌, ◌%◌, ◌^◌, leb, ltb, ◌==◌, ◌&&◌, ◌||◌, Bool, true, false, Option,
  none, some, List, [], ◌∷◌, length, get_elem?, if◌then◌else◌,
}
use somedb.Base.Int.{ℤ}
use somedb.Disk.File.{Files, read_page, write_page}
use somedb.Disk.HeapPage.{
  Header, TuplePtr, extract_header, extract_tuple_ptr, construct_page_header_buf, new_page_buf,
  write_tuple, remove_slot, get_slot,
}
use somedb.Disk.Tuple.{ColumnValue, boolean, string, integer, decimal, tuple_size_from, tuple_bytes}
use somedb.Index.Page.{Rid, ◌>>=◌}
use somedb.Index.Serial.{page_size}
use somedb.Sql.Token.{Text}
use somedb.Utils.Hash.{HashTable, hash_find, hash_insert, hash_remove}
use somedb.Utils.Serialize.{Buf, encode_uint16}

-- An entry of the page directory: the allocated cell, and the number in it.
pub record FreeSpace : Type 0 where
  pub address : ℕ
  pub free_space : ℕ

pub data TupleAction : Type 0 where
  tuple_add tuple_remove : TupleAction

-- What `add_tuple` did: it returns after a message, or writes the pointer of the tuple out.
pub data Added : Type 0 where
  rejected : Added
  added : TuplePtr → Added

unfoldable pub type_code : ColumnValue → ℕ
type_code (boolean b) = 1
type_code (string s) = 2
type_code (integer i) = 3
type_code (decimal d) = 4

-- `strncmp(buf, name, n) == 0`, where `name` ends in a zero byte.
unfoldable pub strncmp_equal : ℕ → Buf → Text → Bool
strncmp_equal zero buf name = true
strncmp_equal (suc n) buf [] = buf 0 == 0
strncmp_equal (suc n) buf (c ∷ name) = buf 0 == c && strncmp_equal n (λ q. buf (q + 1)) name

-- The loop of `add_tuple` over the schema page, by the rounds that are left. `schema` is the page
-- from its second byte on, and to read behind the page is undefined.
unfoldable pub validate_columns : ℕ → ℕ → ℕ → Buf → ℕ → List Text → List ColumnValue → Option Bool
validate_columns zero i schema_curr_offset schema cols_num names values = some true
validate_columns (suc n) i schema_curr_offset schema cols_num names values =
    let curr = i * (1 + schema schema_curr_offset + 1) in
    let col_name_len = schema curr in
    let rest = validate_columns n (i + 1) curr schema cols_num names values in
    let checked = do
      name ← get_elem? names i
      val ← get_elem? values i
      (if strncmp_equal col_name_len (λ q. schema (curr + 1 + q)) name
          then (if type_code val == schema (curr + col_name_len + 1) then rest else some false)
          else some false)
    in let known = if length values == cols_num then checked else some false in
      if ltb (curr + col_name_len + 1) (page_size - 1) then known else none

-- `memcpy(page + p, temp + from, n)` between two pages.
unfoldable pub copy_page : Buf → ℕ → Buf → ℕ → ℕ → Buf
copy_page page p temp from n q = if leb p q && ltb q (p + n) then temp (from + (q - p)) else page q

-- The loop of `defragment`.
unfoldable pub defragment_loop : ℕ → Buf → Header → ℕ → Buf → Header → Option (Buf × Header)
defragment_loop zero temp old_header offset page header = none
defragment_loop (suc fuel) temp old_header offset page header =
    let tup_ptr = extract_tuple_ptr temp ((offset - 5) / 4) in
    let next_offset = (offset + 4) % 2 ^ 16 in
    let skipped = defragment_loop fuel temp old_header next_offset page header in
    let page₁ =
      copy_page page (header.free_end - tup_ptr.size) temp tup_ptr.start_offset tup_ptr.size in
    let page₂ = copy_page page₁ header.free_start temp offset 4 in
    let header' = record header {
      free_end = (header.free_end + 2 ^ 16 - tup_ptr.size) % 2 ^ 16;
      free_start = (header.free_start + 4) % 2 ^ 16;
    } in
    let moved = defragment_loop fuel temp old_header next_offset page₂ header' in
    if tup_ptr.size == 0 || ltb old_header.free_start offset
    then some (page, header)
    else if tup_ptr.start_offset == 0
    then skipped
    else if leb tup_ptr.size header.free_end
    then moved
    else none

unfoldable pub space_after : TupleAction → ℕ → ℕ → ℕ
space_after tuple_add free_space tuple_size = (free_space + 2 ^ 16 - tuple_size) % 2 ^ 16
space_after tuple_remove free_space tuple_size = (free_space + tuple_size) % 2 ^ 16

module _ (files : Files) (atoi : Text → ℤ) (print : ℕ → Text) where
  pub record DiskManager : Type 0 where
    pub page_directory : HashTable FreeSpace
    pub file : files.File

  -- The loop of `find_spacious_page`, by the rounds that are left. It compares the address of the
  -- number, where the number is meant.
  unfoldable pub find_from : ℕ → ℕ → ℕ → HashTable FreeSpace → Option (Option ℕ)
  find_from zero i size_needed directory = some none
  find_from (suc n) i size_needed directory = do
    found ← hash_find atoi (print i) directory
    let rest = find_from n (i + 1) size_needed directory
    elim found [
      | none ↦ rest
      | some cell ↦ if leb size_needed cell.address then some (some i) else rest
    ]

  -- From `START_USER_PAGE` to `MAX_PAGES`.
  unfoldable pub find_spacious_page : ℕ → HashTable FreeSpace → Option (Option ℕ)
  find_spacious_page size_needed directory = find_from 498 2 size_needed directory

  unfoldable pub new_heap_page : Buf → DiskManager → Option (ℕ × DiskManager)
  new_heap_page page disk_manager = do
    found ← find_spacious_page page_size disk_manager.page_directory
    elim found [
      | none ↦ some (0, disk_manager)
      | some pid ↦ some (
        pid,
        record disk_manager {
          file = write_page files pid (new_page_buf pid page) disk_manager.file;
        },
      )
    ]

  unfoldable pub update_page_dir : DiskManager → ℕ → ℕ → TupleAction → ℕ → Option DiskManager
  update_page_dir disk_manager pid tuple_size act address = do
    found ← hash_find atoi (print pid) disk_manager.page_directory
    cell ← found
    removed ← hash_remove atoi (print pid) disk_manager.page_directory
    let free_space = space_after act cell.free_space tuple_size
    directory ←
        hash_insert atoi (some (print pid))
          (some (record { address = address; free_space = free_space })) removed.0
    let total_buf = encode_uint16 free_space (encode_uint16 pid (λ _. 0) 0) 2
    some (record {
      page_directory = directory;
      file = files.write_at disk_manager.file (pid * 2 % 2 ^ 32) 4 total_buf;
    })

  unfoldable pub add_tuple :
      List Text → List ColumnValue → Buf → ℕ → DiskManager → Option (Added × DiskManager)
  add_tuple names values tuple_buf address disk_manager = do
    found ← find_spacious_page (tuple_size_from 0 values) disk_manager.page_directory
    pid ← found
    page ← read_page files pid disk_manager.file
    schema ← read_page files 1 disk_manager.file
    valid ← validate_columns (schema 0) 0 0 (λ q. schema (q + 1)) (schema 0) names values
    elim valid [
      | false ↦ some (rejected, disk_manager)
      | true ↦ do
        written ← write_tuple page (extract_header page pid) (tuple_bytes values tuple_buf)
        after ←
            update_page_dir
              (record disk_manager { file = write_page files pid written.0 disk_manager.file }) pid
              (tuple_size_from 0 values) tuple_add address
        some (added written.1, after)
    ]

  unfoldable pub remove_tuple : DiskManager → Rid → Option DiskManager
  remove_tuple disk_manager rid = do
    page ← read_page files rid.pid disk_manager.file
    some (record disk_manager {
      file = write_page files rid.pid (remove_slot page rid.pid rid.slot_num) disk_manager.file;
    })

  -- The page, and the address in it or NULL.
  unfoldable pub get_tuple : Rid → DiskManager → Option (Buf × Option ℕ)
  get_tuple rid disk_manager = do
    page ← read_page files rid.pid disk_manager.file
    some (page, get_slot page rid.slot_num)

  -- `fuel` bounds the rounds of the loop, `page` is the new memory.
  unfoldable pub defragment : ℕ → ℕ → Buf → DiskManager → Option DiskManager
  defragment fuel page_id page disk_manager = do
    temp ← read_page files page_id disk_manager.file
    let old_header = extract_header temp page_id
    let header = record old_header { free_start = 5; free_end = page_size - 1; flags = 0 }
    let moved = (do
      (page', header') ← defragment_loop fuel temp old_header 5 page header
      let buf =
          construct_page_header_buf page' (record header' { flags = bit_and old_header.flags 0x7f })
      some (record disk_manager { file = write_page files page_id buf disk_manager.file }))
    (if bit_and old_header.flags 0x80 == 0 then some disk_manager else moved)
