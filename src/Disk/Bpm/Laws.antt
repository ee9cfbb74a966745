-- ===== src/Disk/Bpm/Laws.antt =====
-- src/disk/bpm.c: a page that is in the pool.
use somedb.Base.{
  ℕ, ◌+◌, ◌-◌, ◌<◌, ◌≡◌, refl, ltb, ◌==◌, Bool, true, false, none, some, List, [], ◌∷◌, length, set,
  get_elem?, arith,
}
use somedb.Base.Int.{ℤ}
use somedb.Disk.Bpm.{BpmPage, BufferPoolManager, is_first, flush_page, unpin_page, fetch_bpm_page}
use somedb.Disk.Clock.{ClockReplacer, clock_replacer_unpin}
use somedb.Disk.File.{Files, write_page}
use somedb.Disk.File.Laws.{page_at, page_at-write_page}
use somedb.Index.Page.{put, ◌>>=◌}
use somedb.Index.Serial.{page_size}
use somedb.Sql.Token.{Text}
use somedb.Utils.Hash.{HashTable, live, hash_find}
use somedb.Utils.Hash.Chain.{text_eq_refl}
use somedb.Utils.Hash.Lone.{
  HasChain, set-HasChain, hash_find-empty, hash_find-lone, hash_remove-lone,
}
use somedb.Utils.Hash.Refine.{get_elem?-set}
use somedb.Utils.Hash.Remove.{index-lt}

pub put-inside :
    {A : Type 0} (xs : List A) (i : ℕ) (x y : A)
    → get_elem? xs i ≡ some x
    → put xs i y ≡ some (set xs i y)
unfolding put
put-inside xs i x y h =
    let inside : ltb i (length xs) ≡ true = ground (arith, index-lt xs i x h) in rw inside

module _ (files : Files) (atoi : Text → ℤ) (print : ℕ → Text) where
  -- The page is in this frame, and alone in its chain of the page table.
  pub record InFrame (bpm : BufferPoolManager files atoi print) (pid fid : ℕ) (page : BpmPage)
      : Type 0 where
    pub idx : ℕ
    pub chain : HasChain atoi bpm.page_table (print pid) idx (live (print pid) fid ∷ [])
    pub framed : get_elem? bpm.pages fid ≡ some page

  -- A page that is in the pool is fetched from its frame, whose pin count grows by one. Nothing is read.
  pub fetch_bpm_page-InFrame :
      (bpm : BufferPoolManager files atoi print) (pid fid : ℕ) (page : BpmPage)
      → InFrame bpm pid fid page
      → (bpm' : BufferPoolManager files atoi print) × (fetch_bpm_page files atoi print pid bpm
          ≡ some (fid, bpm'))
        × InFrame bpm' pid fid (record page { pin_count = page.pin_count + 1 })
        × (bpm'.file ≡ bpm.file)
        × (bpm'.replacer ≡ bpm.replacer)
        × (bpm'.free_list ≡ bpm.free_list)
  unfolding fetch_bpm_page
  fetch_bpm_page-InFrame bpm pid fid page h =
      let page' : BpmPage = record page { pin_count = page.pin_count + 1 } in
      (
        record bpm { pages = set bpm.pages fid page' },
        rw (
          hash_find-lone atoi bpm.page_table (print pid) h.idx fid h.chain,
          h.framed,
          put-inside bpm.pages fid page page' h.framed,
        ),
        record {
          idx = h.idx;
          chain = h.chain;
          framed = get_elem?-set bpm.pages fid page' (index-lt bpm.pages fid page h.framed);
        },
        refl,
        refl,
        refl,
      )

  -- A page in the pool that is pinned once can be unpinned: its pin count is 0 then, its dirty
  -- bit is the one given, and to unpin it again gives false and changes nothing. The replacer
  -- has its frame.
  unpin_page-last :
      (bpm : BufferPoolManager files atoi print) (pid fid : ℕ) (page : BpmPage) (is_dirty : Bool)
      (replacer : ClockReplacer)
      → InFrame bpm pid fid page
      → page.pin_count ≡ 1
      → clock_replacer_unpin atoi print fid bpm.replacer ≡ some replacer
      → (bpm' : BufferPoolManager files atoi print) × (unpin_page files atoi print pid is_dirty bpm
          ≡ some (true, bpm'))
        × InFrame bpm' pid fid (record page { pin_count = 0; is_dirty = is_dirty })
        × (bpm'.replacer ≡ replacer)
        × ((again : Bool) → unpin_page files atoi print pid again bpm' ≡ some (false, bpm'))
  unfolding unpin_page
  unpin_page-last bpm pid fid page is_dirty replacer h once unpinned =
      let page' : BpmPage = record page { pin_count = 0; is_dirty = is_dirty } in
      let framed' = get_elem?-set bpm.pages fid page' (index-lt bpm.pages fid page h.framed) in
      let found = hash_find-lone atoi bpm.page_table (print pid) h.idx fid h.chain in
      let pinned : (page.pin_count == 0) ≡ false = ground (arith, once) in
      let last : (page.pin_count == 1) ≡ true = ground (arith, once) in
      let less : page.pin_count - 1 ≡ 0 = omega (arith, once) in
      (
        record bpm { pages = set bpm.pages fid page'; replacer = replacer },
        rw (found, h.framed, ◌>>=◌, pinned, last, less, unpinned),
        record { idx = h.idx; chain = h.chain; framed = framed' },
        refl,
        λ again. rw (found, framed'),
      )

  -- The pool behind a flush.
  abbrev pub flushed :
      (bpm : BufferPoolManager files atoi print) (pid fid : ℕ) (page : BpmPage)
      → ClockReplacer
      → InFrame bpm pid fid page
      → BufferPoolManager files atoi print
  flushed bpm pid fid page replacer h = record bpm {
    page_table = record bpm.page_table { arr = set bpm.page_table.arr h.idx [] };
    free_list = set bpm.free_list fid true;
    replacer = replacer;
    file = write_page files pid page.data_ bpm.file;
  }

  pub flush_page-flushed :
      (bpm : BufferPoolManager files atoi print) (pid fid : ℕ) (page : BpmPage) (free : Bool)
      (replacer : ClockReplacer) (h : InFrame bpm pid fid page)
      → get_elem? bpm.free_list fid ≡ some free
      → clock_replacer_unpin atoi print fid bpm.replacer ≡ some replacer
      → flush_page files atoi print pid bpm ≡ some (true, flushed bpm pid fid page replacer h)
  unfolding flush_page is_first
  flush_page-flushed bpm pid fid page free replacer h listed unpinned =
      let key = print pid in
      let first : is_first files atoi print key bpm.page_table ≡ some true =
        rw (is_first, h.chain.hashed, h.chain.there, ◌>>=◌, text_eq_refl key) in
      rw (
        hash_find-lone atoi bpm.page_table key h.idx fid h.chain,
        h.framed,
        first,
        hash_remove-lone atoi bpm.page_table key h.idx fid h.chain,
        put-inside bpm.free_list fid free true listed,
        unpinned,
      )

  -- A page in the pool is flushed: the file holds the page of its frame, the page is gone from the
  -- page table, and its frame is free.
  flush_page-InFrame :
      (bpm : BufferPoolManager files atoi print) (pid fid : ℕ) (page : BpmPage) (free : Bool)
      (replacer : ClockReplacer)
      → InFrame bpm pid fid page
      → pid < 524288
      → get_elem? bpm.free_list fid ≡ some free
      → clock_replacer_unpin atoi print fid bpm.replacer ≡ some replacer
      → (bpm' : BufferPoolManager files atoi print) × (flush_page files atoi print pid bpm
          ≡ some (true, bpm'))
        × ((q : ℕ) → q < page_size → page_at files pid bpm'.file q ≡ page.data_ q)
        × (hash_find atoi (print pid) bpm'.page_table ≡ some none)
        × (get_elem? bpm'.free_list fid ≡ some true)
        × (flush_page files atoi print pid bpm' ≡ some (false, bpm'))
  unfolding flush_page
  flush_page-InFrame bpm pid fid page free replacer h small listed unpinned =
      let key = print pid in
      let table : HashTable ℕ = record bpm.page_table { arr = set bpm.page_table.arr h.idx [] } in
      let gone =
        hash_find-empty atoi table key h.idx
          (set-HasChain atoi bpm.page_table key h.idx (live key fid ∷ []) [] h.chain) in
      (
        flushed bpm pid fid page replacer h,
        flush_page-flushed bpm pid fid page free replacer h listed unpinned,
        λ q k. page_at-write_page files pid page.data_ bpm.file q small k,
        gone,
        get_elem?-set bpm.free_list fid true (index-lt bpm.free_list fid free listed),
        rw gone,
      )
