-- ===== src/Disk/Bpm/RoundTrip.antt =====
-- src/disk/bpm.c: a page that is read into a frame, and what is written, flushed, and fetched again.
use somedb.Base.{
  ℕ, ◌<◌, ◌≡◌, ◌≢◌, refl, ap, ◌∙◌, leb, ltb, true, false, some, [], ◌∷◌, length, set, get_elem?,
  arith, if◌then◌else◌,
}
use somedb.Base.Int.{ℤ}
use somedb.Disk.Bpm.{
  BpmPage, free_frame, BufferPoolManager, flush_page, add_to_pagetable, take_frame, new_bpm_page,
  write_to_frame, fetch_bpm_page,
}
use somedb.Disk.Clock.{ClockReplacer, clock_replacer_pin}
use somedb.Disk.Clock.Laws.{pin-unpin}
use somedb.Disk.File.{Files}
use somedb.Disk.File.Laws.{page_at, Holds, read_page-Holds, write_page-Holds, page_at-write_page}
use somedb.Index.Page.{◌>>=◌}
use somedb.Index.Serial.{page_size}
use somedb.Sql.Token.{Text}
use somedb.Utils.Hash.{HashTable, live}
use somedb.Utils.Hash.Lone.{HasChain, set-HasChain, hash_insert-empty, hash_find-empty}
use somedb.Utils.Hash.Refine.{get_elem?-set}
use somedb.Utils.Hash.Remove.{index-lt}
use somedb.Utils.Serialize.{Buf}
use somedb.Disk.Bpm.Laws.{put-inside, InFrame, flushed, flush_page-flushed}

module _ (files : Files) (atoi : Text → ℤ) (print : ℕ → Text) where
  -- The pool with a page of zeros in a frame that was free.
  abbrev pub fresh : ℕ → BpmPage
  fresh pid = record { data_ = λ q. 0; id = pid; pin_count = 1; is_dirty = false }

  abbrev pub fresh_pool :
      BufferPoolManager files atoi print
      → ℕ
      → ℕ
      → ℕ
      → ClockReplacer
      → BufferPoolManager files atoi print
  fresh_pool bpm pid fid idx replacer = record bpm {
    pages = set bpm.pages fid (fresh pid);
    page_table = record bpm.page_table {
      arr = set bpm.page_table.arr idx (live (print pid) fid ∷ []);
    };
    free_list = set bpm.free_list fid false;
    replacer = replacer;
  }

  pub new_bpm_page-free :
      (bpm : BufferPoolManager files atoi print) (pid fid idx : ℕ) (old : BpmPage)
      (replacer : ClockReplacer)
      → HasChain atoi bpm.page_table (print pid) idx []
      → length (print pid) < 5
      → free_frame 0 bpm.free_list ≡ some fid
      → get_elem? bpm.pages fid ≡ some old
      → clock_replacer_pin atoi print fid bpm.replacer ≡ some replacer
      → (new_bpm_page files atoi print pid bpm
          ≡ some (some fid, fresh_pool bpm pid fid idx replacer))
        × InFrame files atoi print (fresh_pool bpm pid fid idx replacer) pid fid (fresh pid)
  unfolding new_bpm_page take_frame add_to_pagetable
  new_bpm_page-free bpm pid fid idx old replacer chain short free framed pinned =
      let key = print pid in
      let table : HashTable ℕ = record bpm.page_table {
        arr = set bpm.page_table.arr idx (live key fid ∷ []);
      } in
      let short' : leb (length key) 4 ≡ true = ground arith in
      let bpm₁ : BufferPoolManager files atoi print = record bpm {
        free_list = set bpm.free_list fid false;
      } in
      let taken : take_frame files atoi print bpm ≡ some (some fid, bpm₁) = rw (take_frame, free) in
      let inserted = hash_insert-empty atoi bpm.page_table key idx fid chain in
      let added : add_to_pagetable files atoi print pid fid bpm.page_table ≡ some table =
        rw (add_to_pagetable, short', inserted) in
      (
        rw (
          new_bpm_page,
          hash_find-empty atoi bpm.page_table key idx chain,
          ◌>>=◌,
          taken,
          ◌>>=◌,
          put-inside bpm.pages fid old (fresh pid) framed,
          added,
          pinned,
        ),
        record {
          idx = idx;
          chain = set-HasChain atoi bpm.page_table key idx [] (live key fid ∷ []) chain;
          framed = get_elem?-set bpm.pages fid (fresh pid) (index-lt bpm.pages fid old framed);
        },
      )

  -- A page that is not in the pool, and whose chain in the page table is empty, is read into
  -- the first free frame, if the replacer can pin that frame: the frame holds the page of the
  -- file, is not dirty, and is pinned twice, and the replacer is as that pin leaves it. The file
  -- holds the page, which is below page 2 ^ 19 and has a number of fewer than five digits.
  pub fetch_bpm_page-miss :
      (bpm : BufferPoolManager files atoi print) (pid fid idx : ℕ) (old : BpmPage)
      (replacer : ClockReplacer)
      → HasChain atoi bpm.page_table (print pid) idx []
      → length (print pid) < 5
      → free_frame 0 bpm.free_list ≡ some fid
      → get_elem? bpm.pages fid ≡ some old
      → clock_replacer_pin atoi print fid bpm.replacer ≡ some replacer
      → pid < 524288
      → Holds files pid bpm.file
      → (bpm' : BufferPoolManager files atoi print) × (page : BpmPage) × (fetch_bpm_page files atoi
            print pid bpm
          ≡ some (fid, bpm'))
        × InFrame files atoi print bpm' pid fid page
        × ((q : ℕ) → q < page_size → page.data_ q ≡ page_at files pid bpm.file q)
        × (page.pin_count ≡ 2)
        × (page.is_dirty ≡ false)
        × (bpm'.replacer ≡ replacer)
  unfolding fetch_bpm_page
  fetch_bpm_page-miss bpm pid fid idx old replacer chain short free framed pinned small holds =
      let page : BpmPage = record {
        data_ = λ q. if ltb q 4096 then page_at files pid bpm.file q else 0;
        id = pid;
        pin_count = 2;
        is_dirty = false;
      } in
      let pool = fresh_pool bpm pid fid idx replacer in
      let (made, h) =
        new_bpm_page-free bpm pid fid idx old replacer chain short free framed pinned in
      (
        record pool { pages = set pool.pages fid page },
        page,
        rw (
          hash_find-empty atoi bpm.page_table (print pid) idx chain,
          ◌>>=◌,
          made,
          h.framed,
          read_page-Holds files pid bpm.file small holds,
          put-inside pool.pages fid (fresh pid) page h.framed,
        ),
        record {
          idx = h.idx;
          chain = h.chain;
          framed = get_elem?-set pool.pages fid page (index-lt pool.pages fid (fresh pid) h.framed);
        },
        λ q k. ground arith,
        refl,
        refl,
        refl,
      )

  -- What is written to the frame of a page, flushed, and fetched again: the data come back from
  -- the file into the same frame, if that is the first free one, and the replacer has the
  -- frames that it had. The page is alone in its chain, below page 2 ^ 19 and with a number of
  -- fewer than five digits; the frame is not free, the list of the replacer not full, and the
  -- chain of the frame empty.
  pub write_to_frame-fetch :
      (bpm : BufferPoolManager files atoi print) (pid fid clock_idx : ℕ) (page : BpmPage)
      (data_ : Buf)
      → InFrame files atoi print bpm pid fid page
      → length (print pid) < 5
      → pid < 524288
      → free_frame 0 (set bpm.free_list fid true) ≡ some fid
      → get_elem? bpm.free_list fid ≡ some false
      → bpm.replacer.frames.size ≢ bpm.replacer.frames.capacity
      → HasChain atoi bpm.replacer.frame_table (print fid) clock_idx []
      → (bpm₁ : BufferPoolManager files atoi print) × (bpm₂ : BufferPoolManager files atoi print)
        × (bpm₃ : BufferPoolManager files atoi print) × (page' : BpmPage) × (write_to_frame files
              atoi print fid data_ bpm
            ≡ some bpm₁)
        × (flush_page files atoi print pid bpm₁ ≡ some (true, bpm₂))
        × (fetch_bpm_page files atoi print pid bpm₂ ≡ some (fid, bpm₃))
        × InFrame files atoi print bpm₃ pid fid page'
        × ((q : ℕ) → q < page_size → page'.data_ q ≡ data_ q)
        × (bpm₃.replacer.frames ≡ bpm.replacer.frames)
  unfolding write_to_frame
  write_to_frame-fetch bpm pid fid clock_idx page data_ h short small free taken space chain =
      let key = print pid in
      let page₁ : BpmPage = record page {
        data_ = λ q. if ltb q 4096 then data_ q else page.data_ q;
        is_dirty = true;
      } in
      let bpm₁ : BufferPoolManager files atoi print = record bpm {
        pages = set bpm.pages fid page₁;
      } in
      let h₁ : InFrame files atoi print bpm₁ pid fid page₁ = record {
        idx = h.idx;
        chain = h.chain;
        framed = get_elem?-set bpm.pages fid page₁ (index-lt bpm.pages fid page h.framed);
      } in
      let (r₁, r₂, unpinned, bit, pinned, frames, hand, gone) =
        pin-unpin atoi print fid clock_idx bpm.replacer space chain in
      let bpm₂ = flushed files atoi print bpm₁ pid fid page₁ r₁ h₁ in
      let (bpm₃, page', fetched, h₃, same, count, clean, replaced) =
        fetch_bpm_page-miss bpm₂ pid fid h.idx page₁ r₂
          (set-HasChain atoi bpm.page_table key h.idx (live key fid ∷ []) [] h.chain) short free
          h₁.framed pinned small (write_page-Holds files pid page₁.data_ bpm.file small) in
      (
        bpm₁,
        bpm₂,
        bpm₃,
        page',
        rw (h.framed, put-inside bpm.pages fid page page₁ h.framed),
        flush_page-flushed files atoi print bpm₁ pid fid page₁ false r₁ h₁ taken unpinned,
        fetched,
        h₃,
        λ q k.
            same q k ∙ page_at-write_page files pid page₁.data_ bpm.file q small k ∙ ground arith,
        ap (λ (r : ClockReplacer). r.frames) replaced ∙ frames,
      )
