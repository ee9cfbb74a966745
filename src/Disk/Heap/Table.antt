-- ===== src/Disk/Heap/Table.antt =====
-- src/disk/heapfile.c: the file of a new table, with its page directory and its schema page.
-- The columns are as many as `n_columns` says.
pub mod Schema
use somedb.Base.{
  ℕ, zero, suc, ◌+◌, ◌*◌, ◌%◌, ◌^◌, leb, ltb, ◌==◌, true, false, Option, none, some, List, [], ◌∷◌,
  length, if◌then◌else◌,
}
use somedb.Base.Int.{ℤ}
use somedb.Disk.File.{Files}
use somedb.Disk.Heap.{FreeSpace, DiskManager}
use somedb.Index.Page.{◌>>=◌}
use somedb.Index.Serial.{page_size, copy}
use somedb.Sql.Token.{Text}
use somedb.Utils.Hash.{HashTable, init_hash, hash_insert}
use somedb.Utils.Serialize.{Buf, store, encode_uint16}

pub record Column : Type 0 where
  pub name_len : ℕ
  pub name : Text
  pub type_ : ℕ

-- The loop over the columns, with the size of the column before. `none` is a write behind the page.
unfoldable pub write_columns : ℕ → ℕ → List Column → Buf → Option Buf
write_columns j col_size [] col_buf = some col_buf
write_columns j col_size (column ∷ columns) col_buf =
    let p = 1 + j * col_size in
    let col_buf₁ = store col_buf p column.name_len in
    let col_buf₂ = copy col_buf₁ (p + 1) column.name_len column.name in
    let col_buf₃ = store col_buf₂ (p + 1 + column.name_len) column.type_ in
    let rest = write_columns (j + 1) (1 + column.name_len + 1) columns col_buf₃ in
    if leb (p + column.name_len + 2) page_size then rest else none

-- The schema page before the loop.
unfoldable pub empty_schema : ℕ → Buf
empty_schema n_columns q = if q == 0 then n_columns else 0

module _ (files : Files) (atoi : Text → ℤ) (print : ℕ → Text) where
  -- The loop over the pages, by the rounds that are left, with the addresses that are allocated.
  unfoldable pub write_directory :
      ℕ → ℕ → (ℕ → ℕ) → HashTable FreeSpace → files.File → Option (HashTable FreeSpace × files.File)
  write_directory zero pid addresses page_directory file = some (page_directory, file)
  write_directory (suc n) pid addresses page_directory file = do
    let total_buf = encode_uint16 page_size (encode_uint16 pid (λ _. 0) 0) 2
    let cell : FreeSpace = record { address = addresses pid; free_space = page_size }
    let inserted = hash_insert atoi (some (print pid)) (some cell) page_directory
    directory ← (if ltb pid 2 then some page_directory else inserted)
    write_directory n (pid + 1) addresses directory (files.write_at file (pid * 4) 4 total_buf)

  -- The inner `none` is NULL: the table exists.
  unfoldable pub create_table :
      List Column → (ℕ → ℕ) → files.File → Option (Option (DiskManager files atoi print))
  create_table columns addresses file = elim (files.size file == 0) [
    | false ↦ some none
    | true ↦ do
      (directory, file₁) ← write_directory 500 0 addresses (init_hash 500) file
      let file₂ = files.write_at file₁ 2000 2096 (λ _. 0)
      col_buf ← write_columns 0 0 columns (empty_schema (length columns))
      some (
          some (record {
            page_directory = directory;
            file = files.write_at file₂ page_size page_size col_buf;
          }))
  ]
