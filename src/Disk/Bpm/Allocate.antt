-- ===== src/Disk/Bpm/Allocate.antt =====
-- src/disk/bpm.c: `allocate_new_page`, a page of the file and a frame for it.
-- The page directory of the disk manager is an argument, since the pool has the file only, and so is
-- what the page is before it is initialised.
pub mod Laws
use somedb.Base.{ℕ, zero, suc, false, Option, none, some}
use somedb.Base.Int.{ℤ}
use somedb.Disk.Bpm.{BufferPoolManager, new_bpm_page}
use somedb.Disk.File.{Files}
use somedb.Disk.Heap.{FreeSpace, new_heap_page}
use somedb.Disk.IndexFile.{new_btree_index_page}
use somedb.Index.Page.{◌>>=◌}
use somedb.Sql.Token.{Text}
use somedb.Utils.Hash.{HashTable}
use somedb.Utils.Serialize.{Buf}

pub data PageType : Type 0 where
  heap_page btree_index_page invalid : PageType

module _ (files : Files) (atoi : Text → ℤ) (print : ℕ → Text) where
  -- `while (bpm_page == NULL)`, on fuel; the inner `none` is that it has run out.
  unfoldable pub wait_for_page :
      ℕ
      → ℕ
      → BufferPoolManager files atoi print
      → Option (Option (ℕ × BufferPoolManager files atoi print))
  wait_for_page zero pid bpm = some none
  wait_for_page (suc fuel) pid bpm = do
    (bpm_page, bpm') ← new_bpm_page files atoi print pid bpm
    elim bpm_page [ none ↦ wait_for_page fuel pid bpm' | some fid ↦ some (some (fid, bpm')) ]

  -- The page id, and the pool with the file that the page was written to.
  unfoldable pub write_new_page :
      PageType
      → HashTable FreeSpace
      → Buf
      → BufferPoolManager files atoi print
      → Option (ℕ × BufferPoolManager files atoi print)
  write_new_page heap_page page_directory page bpm = do
    (pid, dm) ←
        new_heap_page files atoi print page
          (record { page_directory = page_directory; file = bpm.file })
    some (pid, record bpm { file = dm.file })
  write_new_page btree_index_page page_directory page bpm = do
    (pid, file) ← new_btree_index_page files false bpm.file
    some (pid, record bpm { file = file })
  write_new_page invalid page_directory page bpm = none

  unfoldable pub allocate_new_page :
      ℕ
      → PageType
      → HashTable FreeSpace
      → Buf
      → BufferPoolManager files atoi print
      → Option (Option (ℕ × BufferPoolManager files atoi print))
  allocate_new_page fuel type page_directory page bpm = do
    (pid, bpm') ← write_new_page type page_directory page bpm
    wait_for_page fuel pid bpm'
