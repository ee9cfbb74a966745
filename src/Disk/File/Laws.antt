-- ===== src/Disk/File/Laws.antt =====
-- src/disk/disk_manager.c: a page that was written is read back, and the others stay.
use somedb.Base.{
  ℕ, ◌+◌, ◌-◌, ◌*◌, ◌%◌, ◌<◌, ◌≤◌, ◌≡◌, ◌≢◌, leb, false, some, if◌then◌else◌, arith, ◌==◌, ==_iff,
  Bool-cases, inl, inr,
}
use somedb.Disk.File.{Files, page_offset, write_page, read_page}
use somedb.Index.Serial.{page_size}
use somedb.Utils.Serialize.{Buf}

module _ (files : Files) where
  -- The bytes of a page, and what may stand behind the end of the file.
  abbrev pub page_at : ℕ → files.File → Buf
  page_at page_id file q = files.byte file (page_offset page_id + q)

  -- A file that holds a page.
  abbrev pub Holds : ℕ → files.File → Type 0
  Holds page_id file = page_id * page_size + page_size ≤ files.size file

  pub read_page-Holds :
      (page_id : ℕ) (file : files.File)
      → page_id < 524288
      → Holds page_id file
      → read_page files page_id file ≡ some (page_at page_id file)
  unfolding read_page
  read_page-Holds page_id file h inside =
      let low : leb 2147483648 (page_id * 4096 % 4294967296) ≡ false = ground arith in
      let end : leb (files.size file) (page_id * 4096 % 4294967296) ≡ false = ground arith in
      rw (low, end)

  pub write_page-Holds :
      (page_id : ℕ) (data_ : Buf) (file : files.File)
      → page_id < 524288
      → Holds page_id (write_page files page_id data_ file)
  unfolding write_page
  write_page-Holds page_id data_ file h =
      ground (arith, files.size-write_at file (page_id * 4096 % 4294967296) 4096 data_)

  write_page-Holds_other :
      (page_id other : ℕ) (data_ : Buf) (file : files.File)
      → Holds other file
      → Holds other (write_page files page_id data_ file)
  unfolding write_page
  write_page-Holds_other page_id other data_ file h =
      ground (arith, files.size-write_at file (page_id * 4096 % 4294967296) 4096 data_)

  pub page_at-write_page :
      (page_id : ℕ) (data_ : Buf) (file : files.File) (q : ℕ)
      → page_id < 524288
      → q < page_size
      → page_at page_id (write_page files page_id data_ file) q ≡ data_ q
  unfolding write_page
  page_at-write_page page_id data_ file q h k =
      let offset = page_id * 4096 % 4294967296 in
      let e : offset + q - offset ≡ q = omega arith in
      rw (files.byte-write_at file offset 4096 data_ (offset + q), e) (ground arith)

  pub page_at-write_page_ne :
      (page_id other : ℕ) (data_ : Buf) (file : files.File) (q : ℕ)
      → page_id < 524288
      → other < 524288
      → page_id ≢ other
      → q < page_size
      → page_at other (write_page files page_id data_ file) q ≡ page_at other file q
  unfolding write_page
  page_at-write_page_ne page_id other data_ file q h ho ne k =
      let offset = page_id * 4096 % 4294967296 in
      rw (files.byte-write_at file offset 4096 data_ (other * 4096 % 4294967296 + q))
        (ground (arith, ne))

  -- Below page 2 ^ 19, read_page after write_page of a page gives the bytes that were written,
  -- and for another page that the file holds the bytes that it had.
  read_page-write_page :
      (page_id other : ℕ) (data_ : Buf) (file : files.File) (q : ℕ)
      → page_id < 524288
      → other < 524288
      → Holds other file
      → q < page_size
      → (page : Buf) × (read_page files other (write_page files page_id data_ file) ≡ some page)
        × (page q ≡ (if page_id == other then data_ q else files.byte file (other * page_size + q)))
  read_page-write_page page_id other data_ file q h ho holds k =
      let file' = write_page files page_id data_ file in
      (
        page_at other file',
        read_page-Holds other file' ho (write_page-Holds_other page_id other data_ file holds),
        elim (Bool-cases (page_id == other)) [
          | inl e ↦
              rw (e, ← (==_iff page_id other).0 e) (page_at-write_page page_id data_ file q h k)
          | inr e ↦
              let place : other * 4096 % 4294967296 ≡ other * 4096 = omega arith in
              let ne : page_id ≢ other = λ p. ground (arith, p, e) in
              rw (e, ← place) (page_at-write_page_ne page_id other data_ file q h ho ne k)
        ],
      )
