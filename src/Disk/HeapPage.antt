-- ===== src/Disk/HeapPage.antt =====
-- include/disk/heapfile.h and src/disk/heapfile.c: the bytes of a page of tuples.
pub mod Slots
pub mod Refine
use Prim.Native.Nat.{bit_or}
use somedb.Base.{
  ℕ, ◌+◌, ◌-◌, ◌*◌, ◌%◌, ◌^◌, leb, ◌==◌, ◌&&◌, Option, none, some, List, length, if◌then◌else◌,
}
use somedb.Index.Serial.{page_size, copy}
use somedb.Utils.Serialize.{Buf, store, encode_uint16, decode_uint16}

pub record Header : Type 0 where
  pub id : ℕ
  pub free_start : ℕ
  pub free_end : ℕ
  pub flags : ℕ

pub record TuplePtr : Type 0 where
  pub start_offset : ℕ
  pub size : ℕ

-- `TUPLE_INDEX_TO_TUPLE_POINTER_OFFSET`; the product is one of 32-bit words.
abbrev pub tuple_pointer_offset : ℕ → ℕ
tuple_pointer_offset idx = 5 + idx * 4 % 2 ^ 32

unfoldable pub extract_header : Buf → ℕ → Header
extract_header page page_id = record {
  id = page_id;
  free_start = decode_uint16 page 0;
  free_end = decode_uint16 page 2;
  flags = page 4;
}

unfoldable pub extract_tuple_ptr : Buf → ℕ → TuplePtr
extract_tuple_ptr page slot_num = record {
  start_offset = decode_uint16 page (tuple_pointer_offset slot_num);
  size = decode_uint16 page (tuple_pointer_offset slot_num + 2);
}

unfoldable pub construct_page_header_buf : Buf → Header → Buf
construct_page_header_buf page header =
    store (encode_uint16 header.free_end (encode_uint16 header.free_start page 0) 2) 4 header.flags

unfoldable pub construct_page_tuple_ptr : Buf → ℕ → TuplePtr → Buf
construct_page_tuple_ptr page slot_num new_tuple_ptr =
    encode_uint16 new_tuple_ptr.size
      (encode_uint16 new_tuple_ptr.start_offset page (tuple_pointer_offset slot_num))
      (tuple_pointer_offset slot_num + 2)

-- The header of a new page, on memory that `malloc` returned.
unfoldable pub new_page_buf : ℕ → Buf → Buf
new_page_buf pid page =
    construct_page_header_buf page
      (record { id = pid; free_start = 5; free_end = page_size - 1; flags = 0 })

-- The end of `add_tuple`, where the tuple is written out. `none` is a write outside the page.
unfoldable pub write_tuple : Buf → Header → List ℕ → Option (Buf × TuplePtr)
write_tuple page header tuple_buf =
    let tuple_size = length tuple_buf in
    let start_off = (header.free_end + 2 ^ 16 - tuple_size) % 2 ^ 16 in
    let page₁ = encode_uint16 start_off page header.free_start in
    let page₂ = encode_uint16 tuple_size page₁ (header.free_start + 2) in
    let page₃ = copy page₂ (header.free_end - tuple_size) tuple_size tuple_buf in
    let page₄ =
      construct_page_header_buf page₃
        (record header { free_start = (header.free_start + 4) % 2 ^ 16; free_end = start_off }) in
    if leb (header.free_start + 4) page_size
      && (leb header.free_end page_size && leb tuple_size header.free_end)
    then some (page₄, record { start_offset = start_off; size = tuple_size })
    else none

-- `remove_tuple` between the read and the write of the page.
unfoldable pub remove_slot : Buf → ℕ → ℕ → Buf
remove_slot page pid slot_num =
    let tuple_ptr = extract_tuple_ptr page slot_num in
    let header = extract_header page pid in
    construct_page_header_buf
      (construct_page_tuple_ptr page slot_num (record tuple_ptr { start_offset = 0 }))
      (record header { flags = bit_or header.flags 0x80 })

-- `get_tuple`: the address in the page, or NULL.
unfoldable pub get_slot : Buf → ℕ → Option ℕ
get_slot page slot_num =
    let tuple_ptr = extract_tuple_ptr page slot_num in
    if tuple_ptr.start_offset == 0 then none else some tuple_ptr.start_offset
