-- ===== src/Disk/Heap/Laws.antt =====
-- src/disk/heapfile.c: the operations on a table, on the page that they reach.
use somedb.Base.{
  zero, suc, ap, subst, ℕ, ◌+◌, ◌-◌, ◌*◌, ◌%◌, ◌<◌, ◌≤◌, ◌≡◌, refl, ◌∙◌, true, Option, none, some,
  List, [], ◌∷◌, ◌++◌, length, set, get_elem?, arith,
}
use somedb.Base.Int.{ℤ}
use somedb.Disk.File.{Files, write_page}
use somedb.Disk.File.Laws.{page_at, Holds, read_page-Holds, write_page-Holds, page_at-write_page}
use somedb.Disk.Heap.{
  FreeSpace, DiskManager, added, tuple_add, validate_columns, find_spacious_page, new_heap_page,
  update_page_dir, space_after, add_tuple, remove_tuple, get_tuple,
}
use somedb.Disk.Heap.Directory.{HasEntry, find_spacious_page-first, update_page_dir-HasEntry}
use somedb.Disk.HeapPage.{
  TuplePtr, extract_header, extract_tuple_ptr, new_page_buf, write_tuple, remove_slot,
}
use somedb.Disk.HeapPage.Refine.{
  Represents, Represents-cong, new_page_buf-Represents, write_tuple-Represents,
  remove_slot-Represents, get_slot-Represents,
}
use somedb.Disk.HeapPage.Slots.{extract_tuple_ptr-cong}
use somedb.Utils.Hash.Refine.{get_elem?-set}
use somedb.Disk.Tuple.{ColumnValue, tuple_size_from, tuple_bytes}
use somedb.Disk.Tuple.Laws.{total, tuple_size_from-total}
use somedb.Index.Page.{Rid}
use somedb.Index.Serial.{page_size, bytes_at}
use somedb.Sql.Token.{Text}
use somedb.Utils.Serialize.{Buf}
use somedb.Utils.Hash.{HashTable}

length-bytes_at : (buf : Buf) (n p : ℕ) → length (bytes_at buf n p) ≡ n
unfolding bytes_at
length-bytes_at buf zero p = refl
length-bytes_at buf (suc n) p = ap suc (length-bytes_at buf n (p + 1))

pub length-tuple_bytes :
    (values : List ColumnValue) (tuple_buf : Buf)
    → total values < 65536
    → length (tuple_bytes values tuple_buf) ≡ total values
unfolding tuple_bytes
length-tuple_bytes values tuple_buf small =
    length-bytes_at _ (tuple_size_from 0 values) 0
    ∙ tuple_size_from-total values 0 (omega arith)
    ∙ omega arith

module _ (files : Files) (atoi : Text → ℤ) (print : ℕ → Text) where
  -- A page of the table's file holds these slots.
  pub record HasSlots (dm : DiskManager files atoi print) (pid : ℕ) (ss : List (Option (List ℕ)))
      : Type 0 where
    pub holds : Holds files pid dm.file
    pub slots : Represents (page_at files pid dm.file) ss

  pub write_page-HasSlots :
      (dm : DiskManager files atoi print) (pid : ℕ) (page : Buf) (ss : List (Option (List ℕ)))
      → pid < 524288
      → Represents page ss
      → HasSlots (record dm { file = write_page files pid page dm.file }) pid ss
  write_page-HasSlots dm pid page ss h r = record {
    holds = write_page-Holds files pid page dm.file h;
    slots =
        Represents-cong (page_at files pid (write_page files pid page dm.file)) page ss
          (λ q k. page_at-write_page files pid page dm.file q h k) r;
  }

  -- `new_heap_page` takes the first user page, if the address of its number in the page directory
  -- is not below the size of a page, and leaves it with no slots, whatever it held.
  pub new_heap_page-first :
      (dm : DiskManager files atoi print) (cell : FreeSpace) (page : Buf)
      → HasEntry files atoi print dm.page_directory 2 cell
      → page_size ≤ cell.address
      → (after : DiskManager files atoi print) × (new_heap_page files atoi print page dm
          ≡ some (2, after))
        × HasSlots after 2 []
  unfolding new_heap_page
  new_heap_page-first dm cell page h le = (
    record dm { file = write_page files 2 (new_page_buf 2 page) dm.file },
    rw (find_spacious_page-first files atoi print dm.page_directory cell 4096 h le),
    write_page-HasSlots dm 2 (new_page_buf 2 page) [] (omega arith)
        (new_page_buf-Represents 2 page),
  )

  -- Four bytes of the page directory on disk are outside every other page.
  update_directory-HasSlots :
      (dm : DiskManager files atoi print) (pid offset : ℕ) (buf : Buf) (ss : List (Option (List ℕ)))
      → pid < 524288
      → offset + 4 ≤ pid * page_size
      → HasSlots dm pid ss
      → HasSlots (record dm { file = files.write_at dm.file offset 4 buf }) pid ss
  update_directory-HasSlots dm pid offset buf ss h below s = record {
    holds = ground (arith, files.size-write_at dm.file offset 4 buf, s.holds);
    slots =
        Represents-cong (page_at files pid (files.write_at dm.file offset 4 buf))
          (page_at files pid dm.file) ss
          (λ q k.
            rw (files.byte-write_at dm.file offset 4 buf (pid * 4096 % 4294967296 + q))
              (ground arith))
          s.slots;
  }

  stored-HasSlots :
      (dm : DiskManager files atoi print) (page : Buf) (ss : List (Option (List ℕ)))
      (directory : HashTable FreeSpace) (buf : Buf)
      → Holds files 2 dm.file
      → Represents page ss
      → HasSlots
          (record {
            page_directory = directory;
            file = files.write_at (write_page files 2 page dm.file) 4 4 buf;
          })
          2
          ss
        × ((q : ℕ)
            → q < 4096
            → page_at files 2 (files.write_at (write_page files 2 page dm.file) 4 4 buf) q ≡ page q)
  stored-HasSlots dm page ss directory buf h repr = (
    update_directory-HasSlots
        (record { page_directory = directory; file = write_page files 2 page dm.file }) 2 4 buf ss
        (omega arith) (omega arith)
        (write_page-HasSlots (record { page_directory = directory; file = dm.file }) 2 page ss
          (omega arith) repr),
    λ q k.
        rw (files.byte-write_at (write_page files 2 page dm.file) 4 4 buf (8192 + q)) (ground arith)
        ∙ page_at-write_page files 2 page dm.file q (omega arith) k,
  )

  -- `add_tuple` with the results of its steps.
  add_tuple-run :
      (dm : DiskManager files atoi print) (names : List Text) (values : List ColumnValue)
      (tuple_buf : Buf) (address : ℕ) (page : Buf) (ptr : TuplePtr)
      (after : DiskManager files atoi print)
      → Holds files 2 dm.file
      → find_spacious_page files atoi print (tuple_size_from 0 values) dm.page_directory
        ≡ some (some 2)
      → validate_columns
          (page_at files 1 dm.file 0)
          0
          0
          (λ q. page_at files 1 dm.file (q + 1))
          (page_at files 1 dm.file 0)
          names
          values
        ≡ some true
      → write_tuple
          (page_at files 2 dm.file)
          (extract_header (page_at files 2 dm.file) 2)
          (tuple_bytes values tuple_buf)
        ≡ some (page, ptr)
      → update_page_dir files atoi print
          (record dm { file = write_page files 2 page dm.file })
          2
          (tuple_size_from 0 values)
          tuple_add
          address
        ≡ some after
      → add_tuple files atoi print names values tuple_buf address dm ≡ some (added ptr, after)
  unfolding add_tuple
  add_tuple-run dm names values tuple_buf address page ptr after h found valid run update =
      let read₂ = read_page-Holds files 2 dm.file (omega arith) h in
      let read₁ = read_page-Holds files 1 dm.file (omega arith) (omega (arith, h)) in
      rw (found, read₂, read₁, valid, run, update)

  -- In a table whose first user page holds these slots and has room for the tuple, add_tuple of
  -- values that the schema page allows adds the tuple to that page, as its last slot, and
  -- returns its pointer. The address of the number in the page directory is not below 2 ^ 16,
  -- and the number in its entry is lowered by the size of the tuple, which is below 2 ^ 16.
  pub add_tuple-HasSlots :
      (dm : DiskManager files atoi print) (cell : FreeSpace) (names : List Text)
      (values : List ColumnValue) (tuple_buf : Buf) (address : ℕ) (ss : List (Option (List ℕ)))
      → HasEntry files atoi print dm.page_directory 2 cell
      → 65536 ≤ cell.address
      → HasSlots dm 2 ss
      → total values < 65536
      → 9 + 4 * length ss + total values ≤ (extract_header (page_at files 2 dm.file) 2).free_end
      → validate_columns
          (page_at files 1 dm.file 0)
          0
          0
          (λ q. page_at files 1 dm.file (q + 1))
          (page_at files 1 dm.file 0)
          names
          values
        ≡ some true
      → (ptr : TuplePtr) × (after : DiskManager files atoi print) × (add_tuple files atoi print
            names values tuple_buf address dm
          ≡ some (added ptr, after))
        × HasSlots after 2 (ss ++ some (tuple_bytes values tuple_buf) ∷ [])
        × (extract_tuple_ptr (page_at files 2 after.file) (length ss) ≡ ptr)
        × HasEntry files atoi print after.page_directory 2 (record {
          address = address;
          free_space = (cell.free_space + 65536 - total values) % 65536;
        })
  unfolding space_after extract_header
  add_tuple-HasSlots dm cell names values tuple_buf address ss entry big slots small room valid =
      let size : tuple_size_from 0 values ≡ total values =
        tuple_size_from-total values 0 (omega arith) ∙ omega arith in
      let page = page_at files 2 dm.file in
      let bytes = tuple_bytes values tuple_buf in
      let len : length bytes ≡ total values = length-tuple_bytes values tuple_buf small in
      let fits : length ss < 1023 = omega (arith, slots.slots.room, slots.slots.top) in
      let (page', ptr, run, repr, at_ptr) =
        write_tuple-Represents page 2 ss bytes slots.slots (omega (arith, len, room)) in
      let (directory, buf, update, entry') =
        update_page_dir-HasEntry files atoi print
          (record dm { file = write_page files 2 page' dm.file }) 2 (tuple_size_from 0 values)
          address tuple_add cell entry in
      let (final, same) =
        stored-HasSlots dm page' (ss ++ some bytes ∷ []) directory buf slots.holds repr in
      let found =
        find_spacious_page-first files atoi print dm.page_directory cell (tuple_size_from 0 values)
          entry (omega (arith, size)) in
      (
        ptr,
        _,
        add_tuple-run dm names values tuple_buf address page' ptr _ slots.holds found valid run
            update,
        final,
        extract_tuple_ptr-cong _ page' (length ss) (omega arith) (λ q k l. same q (omega arith))
            ∙ at_ptr,
        subst
            (λ (n : ℕ).
              HasEntry files atoi print directory 2
                (record { address = address; free_space = (cell.free_space + 65536 - n) % 65536 }))
            size entry',
      )

  -- For a slot of a page that the file holds, below page 2 ^ 19, remove_tuple marks the slot as
  -- removed: get_tuple then gives NULL for it, and the page holds the other slots as before.
  pub remove_tuple-HasSlots :
      (dm : DiskManager files atoi print) (rid : Rid) (ss : List (Option (List ℕ)))
      → rid.pid < 524288
      → HasSlots dm rid.pid ss
      → rid.slot_num < length ss
      → (after : DiskManager files atoi print) × (remove_tuple files atoi print dm rid ≡ some after)
        × HasSlots after rid.pid (set ss rid.slot_num none)
        × (get_tuple files atoi print rid after ≡ some (page_at files rid.pid after.file, none))
  unfolding remove_tuple get_tuple
  remove_tuple-HasSlots dm rid ss h slots k =
      let page = page_at files rid.pid dm.file in
      let page' = remove_slot page rid.pid rid.slot_num in
      let after = record dm { file = write_page files rid.pid page' dm.file } in
      let cleared = set ss rid.slot_num none in
      let done =
        write_page-HasSlots dm rid.pid page' cleared h
          (remove_slot-Represents page rid.pid rid.slot_num ss slots.slots k) in
      let gone =
        get_slot-Represents (page_at files rid.pid after.file) rid.slot_num cleared none done.slots
          (get_elem?-set ss rid.slot_num none k) in
      (
        after,
        rw (read_page-Holds files rid.pid dm.file h slots.holds),
        done,
        rw (read_page-Holds files rid.pid after.file h done.holds, gone),
      )

  -- For a tuple in a slot of a page that the file holds, below page 2 ^ 19, get_tuple gives the
  -- page and an address in it where the bytes of the tuple stand.
  pub get_tuple-HasSlots :
      (dm : DiskManager files atoi print) (rid : Rid) (ss : List (Option (List ℕ))) (bytes : List ℕ)
      → rid.pid < 524288
      → HasSlots dm rid.pid ss
      → get_elem? ss rid.slot_num ≡ some (some bytes)
      → (page : Buf) × (address : ℕ) × (get_tuple files atoi print rid dm
          ≡ some (page, some address))
        × (address + length bytes ≤ page_size)
        × (bytes_at page (length bytes) address ≡ bytes)
  unfolding get_tuple
  get_tuple-HasSlots dm rid ss bytes h slots k =
      let page = page_at files rid.pid dm.file in
      let (address, there, inside, same) =
        get_slot-Represents page rid.slot_num ss (some bytes) slots.slots k in
      (page, address, rw (read_page-Holds files rid.pid dm.file h slots.holds, there), inside, same)
