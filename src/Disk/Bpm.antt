-- ===== src/Disk/Bpm.antt =====
-- include/disk/bpm.h and src/disk/bpm.c: the frames of the buffer pool, and the pages in them.
-- A page in the pool is its frame. A result `none` is undefined behaviour or the end of the program.
-- A frame id that the page table has freed is not read: then the result is `none`. `atoi` and
-- `sprintf` belong to the C library, and the file system is a parameter.
pub mod Laws
pub mod RoundTrip
pub mod Allocate
mod Tests
use somedb.Base.{
  ℕ, zero, suc, ◌+◌, ◌-◌, ◌^◌, leb, ltb, ◌==◌, Bool, true, false, Option, none, some, List, [], ◌∷◌,
  get_elem?, set, length, if◌then◌else◌,
}
use somedb.Base.Int.{ℤ}
use somedb.Disk.Clock.{
  ClockReplacer, no_frame, clock_replacer_init, evict, clock_replacer_pin, clock_replacer_unpin,
}
use somedb.Disk.File.{Files, read_page, write_page}
use somedb.Index.Page.{put, ◌>>=◌}
use somedb.Index.Serial.{page_size}
use somedb.Sql.Token.{Text, text_eq}
use somedb.Utils.Hash.{HashTable, init_hash, hash, hash_find, hash_insert, hash_remove}
use somedb.Utils.Serialize.{Buf}

pub record BpmPage : Type 0 where
  pub data_ : Buf
  pub id : ℕ
  pub pin_count : ℕ
  pub is_dirty : Bool

abbrev pub zero_page : BpmPage
zero_page = record { data_ = λ q. 0; id = 0; pin_count = 0; is_dirty = false }

unfoldable pub replicate {ℓ} : {A : Type ℓ} → ℕ → A → List A
replicate zero x = []
replicate (suc n) x = x ∷ replicate n x

-- The first frame that is free, from frame `i` on.
unfoldable pub free_frame : ℕ → List Bool → Option ℕ
free_frame i [] = none
free_frame i (free ∷ list) = if free then some i else free_frame (i + 1) list

module _ (files : Files) (atoi : Text → ℤ) (print : ℕ → Text) where
  pub record BufferPoolManager : Type 0 where
    pub pool_size : ℕ
    pub pages : List BpmPage
    pub page_table : HashTable ℕ
    pub free_list : List Bool
    pub replacer : ClockReplacer
    pub file : files.File

  unfoldable pub new_bpm : ℕ → files.File → BufferPoolManager
  new_bpm pool_size file = record {
    pool_size = pool_size;
    pages = replicate pool_size zero_page;
    page_table = init_hash pool_size;
    free_list = replicate pool_size true;
    replacer = clock_replacer_init pool_size;
    file = file;
  }

  -- Whether the key of a page is the first of its chain; a removal frees every other element.
  unfoldable pub is_first : Text → HashTable ℕ → Option Bool
  is_first key table = do
    idx ← hash atoi key table
    chain ← get_elem? table.arr idx
    elim chain [
      | [] ↦ some true
      | first ∷ next ↦ do first_key ← first.key; some (text_eq first_key key)
    ]

  unfoldable pub flush_page : ℕ → BufferPoolManager → Option (Bool × BufferPoolManager)
  flush_page page_id bpm = do
    entry ← hash_find atoi (print page_id) bpm.page_table
    elim entry [
      | none ↦ some (false, bpm)
      | some fid ↦ do
        page ← get_elem? bpm.pages fid
        first ← is_first (print page_id) bpm.page_table
        (table, removed) ← hash_remove atoi (print page_id) bpm.page_table
        free_list ← put bpm.free_list fid true
        replacer ← clock_replacer_unpin atoi print fid bpm.replacer
        (if first
            then some (
              true,
              record bpm {
                page_table = table;
                free_list = free_list;
                replacer = replacer;
                file = write_page files page_id page.data_ bpm.file;
              },
            )
            else none)
    ]

  -- `sprintf` writes into five bytes.
  unfoldable pub add_to_pagetable : ℕ → ℕ → HashTable ℕ → Option (HashTable ℕ)
  add_to_pagetable key val table =
      let inserted = hash_insert atoi (some (print key)) (some val) table in
      if leb (length (print key)) 4 then inserted else none

  -- The frame for a new page: a free one, or one that is evicted. `flush_page` is called with the id
  -- of the frame.
  unfoldable pub take_frame : BufferPoolManager → Option (Option ℕ × BufferPoolManager)
  take_frame bpm = elim (free_frame 0 bpm.free_list) [
    | some fid ↦ some (some fid, record bpm { free_list = set bpm.free_list fid false })
    | none ↦ do
      (fid, replacer) ← evict atoi print bpm.replacer
      let bpm' = record bpm { replacer = replacer }
      elim (fid == no_frame) [
        | true ↦ some (none, bpm')
        | false ↦ do
          page ← get_elem? bpm.pages fid
          elim page.is_dirty [
            | false ↦ some (some fid, bpm')
            | true ↦ do (flushed, bpm'') ← flush_page fid bpm'; some (some fid, bpm'')
          ]
      ]
  ]

  -- The frame of the page, or NULL.
  unfoldable pub new_bpm_page : ℕ → BufferPoolManager → Option (Option ℕ × BufferPoolManager)
  new_bpm_page pid bpm = do
    found ← hash_find atoi (print pid) bpm.page_table
    elim found [
      | some fidx ↦ some (some fidx, bpm)
      | none ↦ do
        (taken, bpm₁) ← take_frame bpm
        elim taken [
          | none ↦ some (none, bpm₁)
          | some fid ↦ do
            pages ←
                put bpm₁.pages fid
                  (record { data_ = λ q. 0; id = pid; pin_count = 1; is_dirty = false })
            table ← add_to_pagetable pid fid bpm₁.page_table
            replacer ← clock_replacer_pin atoi print fid bpm₁.replacer
            some (some fid, record bpm₁ { pages = pages; page_table = table; replacer = replacer })
        ]
    ]

  unfoldable pub unpin_page : ℕ → Bool → BufferPoolManager → Option (Bool × BufferPoolManager)
  unpin_page page_id is_dirty bpm = do
    el ← hash_find atoi (print page_id) bpm.page_table
    elim el [
      | none ↦ some (false, bpm)
      | some frame_idx ↦ do
        page ← get_elem? bpm.pages frame_idx
        let pages =
            set bpm.pages frame_idx
              (record page { is_dirty = is_dirty; pin_count = page.pin_count - 1 })
        elim (page.pin_count == 0) [
          | true ↦ some (false, bpm)
          | false ↦ elim (page.pin_count == 1) [
            | false ↦ some (true, record bpm { pages = pages })
            | true ↦ do
              replacer ← clock_replacer_unpin atoi print frame_idx bpm.replacer
              some (true, record bpm { pages = pages; replacer = replacer })
          ]
        ]
    ]

  unfoldable pub write_to_frame : ℕ → Buf → BufferPoolManager → Option BufferPoolManager
  write_to_frame fid data_ bpm = do
    page ← get_elem? bpm.pages fid
    pages ← put bpm.pages fid (record page {
      data_ = λ q. if ltb q page_size then data_ q else page.data_ q;
      is_dirty = true;
    })
    some (record bpm { pages = pages })

  -- The frame of the page. The lookup behind `new_bpm_page` is of the key that it has added, or of
  -- none.
  unfoldable pub fetch_bpm_page : ℕ → BufferPoolManager → Option (ℕ × BufferPoolManager)
  fetch_bpm_page page_id bpm = do
    entry ← hash_find atoi (print page_id) bpm.page_table
    elim entry [
      | some fid ↦ do
        page ← get_elem? bpm.pages fid
        pages ← put bpm.pages fid (record page { pin_count = page.pin_count + 1 })
        some (fid, record bpm { pages = pages })
      | none ↦ do
        (newp, bpm₁) ← new_bpm_page page_id bpm
        fid ← newp
        page ← get_elem? bpm₁.pages fid
        read ← read_page files page_id bpm₁.file
        pages ← put bpm₁.pages fid (record page {
          data_ = λ q. if ltb q page_size then read q else page.data_ q;
          pin_count = page.pin_count + 1;
        })
        some (fid, record bpm₁ { pages = pages })
    ]

  -- `flush_node` of include/index/btree_index.hpp.
  unfoldable pub flush_node : ℕ → Buf → BufferPoolManager → Option BufferPoolManager
  flush_node node_pid data_ bpm = do
    (frame, bpm₁) ← fetch_bpm_page node_pid bpm
    bpm_page ← get_elem? bpm₁.pages frame
    found ← hash_find atoi (print bpm_page.id) bpm₁.page_table
    fid ← found
    bpm₂ ← write_to_frame fid data_ bpm₁
    (flushed, bpm₃) ← flush_page node_pid bpm₂
    some bpm₃
