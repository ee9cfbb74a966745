-- ===== src/Disk/File.antt =====
-- src/disk/disk_manager.c: the pages of a table file.
-- The file system is a parameter: what `lseek` with `write` and `read` do to one open file. That a
-- write fails is not modelled; the source then only prints a message.
pub mod Laws
use somedb.Base.{ℕ, ◌+◌, ◌-◌, ◌*◌, ◌%◌, ◌^◌, ◌≡◌, ltb, leb, ◌&&◌, Option, none, some, if◌then◌else◌}
use somedb.Index.Serial.{page_size}
use somedb.Utils.Serialize.{Buf}

pub record Files : Type 1 where
  pub File : Type 0
  pub size : File → ℕ
  pub byte : File → ℕ → ℕ
  -- `write_at file offset count data`
  pub write_at : File → ℕ → ℕ → Buf → File
  pub byte-write_at :
      (file : File) (offset count : ℕ) (data_ : Buf) (q : ℕ)
      → byte (write_at file offset count data_) q
        ≡ (if leb offset q && ltb q (offset + count) then data_ (q - offset) else byte file q)
  pub size-write_at :
      (file : File) (offset count : ℕ) (data_ : Buf)
      → size (write_at file offset count data_)
        ≡ (if leb (size file) (offset + count) then offset + count else size file)

-- The product is one of 32-bit words.
abbrev pub page_offset : ℕ → ℕ
page_offset page_id = page_id * page_size % 2 ^ 32

module _ (files : Files) where
  unfoldable pub write_page : ℕ → Buf → files.File → files.File
  write_page page_id data_ file = files.write_at file (page_offset page_id) page_size data_

  -- The offset is stored into an `int`: `lseek` fails where it is negative. `none` is `exit(1)`.
  unfoldable pub read_page : ℕ → files.File → Option Buf
  read_page page_id file =
      if leb (2 ^ 31) (page_offset page_id)
      then none
      else if leb (files.size file) (page_offset page_id)
      then none
      else some (λ q. files.byte file (page_offset page_id + q))
