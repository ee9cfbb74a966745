-- ===== src/Disk/Bpm/Allocate/Laws.antt =====
-- src/disk/bpm.c: what `allocate_new_page` leaves in the frame and in the file, and where it never ends.
use somedb.Base.{
  ℕ, zero, suc, ◌<◌, ◌≤◌, ◌≡◌, refl, ◌==◌, true, false, none, some, [], length, get_elem?, arith,
}
use somedb.Base.Int.{ℤ}
use somedb.Disk.Bpm.{BpmPage, BufferPoolManager, free_frame, take_frame, new_bpm_page, flush_page}
use somedb.Disk.Bpm.Allocate.{heap_page, wait_for_page, write_new_page, allocate_new_page}
use somedb.Disk.Bpm.Laws.{InFrame, flushed, flush_page-flushed}
use somedb.Disk.Bpm.RoundTrip.{fresh, fresh_pool, new_bpm_page-free}
use somedb.Disk.Clock.{ClockReplacer, no_frame, evict, clock_replacer_pin, clock_replacer_unpin}
use somedb.Disk.File.{Files}
use somedb.Disk.File.Laws.{page_at, page_at-write_page}
use somedb.Disk.Heap.{FreeSpace}
use somedb.Disk.Heap.Directory.{HasEntry}
use somedb.Disk.Heap.Laws.{new_heap_page-first}
use somedb.Disk.HeapPage.Refine.{Represents}
use somedb.Index.Page.{◌>>=◌}
use somedb.Index.Serial.{page_size}
use somedb.Sql.Token.{Text}
use somedb.Utils.Hash.{HashTable, hash_find}
use somedb.Utils.Hash.Lone.{HasChain}
use somedb.Utils.Hash.Refine.{get_elem?-set}
use somedb.Utils.Hash.Remove.{index-lt}
use somedb.Utils.Serialize.{Buf}

module _ (files : Files) (atoi : Text → ℤ) (print : ℕ → Text) where
  new_bpm_page-full :
      (bpm : BufferPoolManager files atoi print) (pid : ℕ)
      → hash_find atoi (print pid) bpm.page_table ≡ some none
      → free_frame 0 bpm.free_list ≡ none
      → bpm.replacer.frames.size ≡ 0
      → new_bpm_page files atoi print pid bpm ≡ some (none, bpm)
  unfolding new_bpm_page take_frame evict
  new_bpm_page-full bpm pid absent full pinned =
      let empty : (bpm.replacer.frames.size == 0) ≡ true = ground (arith, pinned) in
      let nothing : evict atoi print bpm.replacer ≡ some (no_frame, bpm.replacer) =
        rw (evict, empty) in
      rw (new_bpm_page, absent, ◌>>=◌, take_frame, full, nothing)

  -- Where the page is not in the pool, no frame is free and the replacer has none, the loop of
  -- allocate_new_page does not end, whatever the fuel.
  pub wait_for_page-full :
      (bpm : BufferPoolManager files atoi print) (pid fuel : ℕ)
      → hash_find atoi (print pid) bpm.page_table ≡ some none
      → free_frame 0 bpm.free_list ≡ none
      → bpm.replacer.frames.size ≡ 0
      → wait_for_page files atoi print fuel pid bpm ≡ some none
  unfolding wait_for_page
  wait_for_page-full bpm pid zero absent full pinned = refl
  wait_for_page-full bpm pid (suc fuel) absent full pinned =
      rw (new_bpm_page-full bpm pid absent full pinned, ◌>>=◌)
        (wait_for_page-full bpm pid fuel absent full pinned)

  -- With a first user page that the page directory allows, whose chain in the page table is
  -- empty and whose number has fewer than five digits, and with a first free frame that the
  -- replacer can pin and then unpin, allocate_new_page of a heap page writes a page without
  -- slots to the file, and gives the frame with a page of zeros, pinned once; a flush of the
  -- page then writes the zeros to the file.
  pub allocate_new_page-heap :
      (bpm : BufferPoolManager files atoi print) (page_directory : HashTable FreeSpace)
      (cell : FreeSpace) (page : Buf) (fid idx fuel : ℕ) (old : BpmPage)
      (replacer unpinned : ClockReplacer)
      → HasEntry files atoi print page_directory 2 cell
      → page_size ≤ cell.address
      → HasChain atoi bpm.page_table (print 2) idx []
      → length (print 2) < 5
      → free_frame 0 bpm.free_list ≡ some fid
      → get_elem? bpm.free_list fid ≡ some true
      → get_elem? bpm.pages fid ≡ some old
      → clock_replacer_pin atoi print fid bpm.replacer ≡ some replacer
      → clock_replacer_unpin atoi print fid replacer ≡ some unpinned
      → (bpm₁ bpm₂ : BufferPoolManager files atoi print) × (allocate_new_page files atoi print
            (suc fuel)
            heap_page
            page_directory
            page
            bpm
          ≡ some (some (fid, bpm₁)))
        × Represents (page_at files 2 bpm₁.file) []
        × InFrame files atoi print bpm₁ 2 fid (fresh files atoi print 2)
        × (flush_page files atoi print 2 bpm₁ ≡ some (true, bpm₂))
        × ((q : ℕ) → q < page_size → page_at files 2 bpm₂.file q ≡ 0)
  unfolding allocate_new_page write_new_page wait_for_page
  allocate_new_page-heap bpm page_directory cell page fid idx fuel old replacer unpinned entry big
        chain short free listed framed pinned after =
      let (dm, made, slots) =
        new_heap_page-first files atoi print
          (record { page_directory = page_directory; file = bpm.file }) cell page entry big in
      let bpm₀ : BufferPoolManager files atoi print = record bpm { file = dm.file } in
      let (there, in_frame) =
        new_bpm_page-free files atoi print bpm₀ 2 fid idx old replacer chain short free framed
          pinned in
      let bpm₁ = fresh_pool files atoi print bpm₀ 2 fid idx replacer in
      let zeros = fresh files atoi print 2 in
      let taken = get_elem?-set bpm.free_list fid false (index-lt bpm.free_list fid true listed) in
      (
        bpm₁,
        flushed files atoi print bpm₁ 2 fid zeros unpinned in_frame,
        rw (made, ◌>>=◌, there),
        slots.slots,
        in_frame,
        flush_page-flushed files atoi print bpm₁ 2 fid zeros false unpinned in_frame taken after,
        λ q h. page_at-write_page files 2 zeros.data_ dm.file q (omega arith) h,
      )
