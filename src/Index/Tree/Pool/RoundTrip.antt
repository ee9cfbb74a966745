-- ===== src/Index/Tree/Pool/RoundTrip.antt =====
-- include/index/btree_index.hpp: a leaf that is flushed through the buffer pool is fetched again.
use somedb.Base.{
  ℕ, ◌+◌, ◌*◌, ◌<◌, ◌≤◌, ◌≡◌, ◌≢◌, ap, ◌∙◌, true, false, Bool, subst, sym, some, List, [], length,
  set, get_elem?,
}
use somedb.Base.Int.{ℤ}
use somedb.Disk.Bpm.{
  BpmPage, free_frame, BufferPoolManager, flush_page, write_to_frame, fetch_bpm_page, flush_node,
}
use somedb.Disk.Bpm.Laws.{InFrame, fetch_bpm_page-InFrame}
use somedb.Disk.Bpm.RoundTrip.{write_to_frame-fetch}
use somedb.Disk.Clock.{ClockReplacer}
use somedb.Disk.File.{Files}
use somedb.Index.Codec.{record_codec}
use somedb.Index.Page.{Rid, ◌>>=◌}
use somedb.Index.Page.Shift.{Entry}
use somedb.Index.Serial.{page_size, header_size}
use somedb.Index.Serial.Reread.{deserialize-page_leaf}
use somedb.Index.Serial.RoundTrip.{leaf_page}
use somedb.Index.Serial.Stored.{total_size, AllFit}
use somedb.Index.Tree.Pool.{rounds, fetch_node, flush_tree_node, pool_nodes}
use somedb.Index.Tree.Store.{NodeStore}
use somedb.Sql.Token.{Text}
use somedb.Utils.Hash.Lone.{HasChain, hash_find-lone}
use somedb.Utils.Serialize.{Buf}

module _ (files : Files) (atoi : Text → ℤ) (print : ℕ → Text) (unset : Buf) where
  -- `flush_node` of a page in the pool, with the results of its steps.
  flush_node-InFrame :
      (bpm bpm₁ bpm₂ bpm₃ : BufferPoolManager files atoi print) (pid fid : ℕ) (page : BpmPage)
      (data_ : Buf)
      → fetch_bpm_page files atoi print pid bpm ≡ some (fid, bpm₁)
      → InFrame files atoi print bpm₁ pid fid page
      → page.id ≡ pid
      → write_to_frame files atoi print fid data_ bpm₁ ≡ some bpm₂
      → flush_page files atoi print pid bpm₂ ≡ some (true, bpm₃)
      → flush_node files atoi print pid data_ bpm ≡ some bpm₃
  unfolding flush_node
  flush_node-InFrame bpm bpm₁ bpm₂ bpm₃ pid fid page data_ fetched h own wrote flushed =
      let found = hash_find-lone atoi bpm₁.page_table (print pid) h.idx fid h.chain in
      rw (fetched, ◌>>=◌, h.framed, own, found, wrote, flushed)

  -- A leaf that can be serialized and whose page is in the pool, under its own page id, is flushed
  -- through the buffer pool and fetched again as the same leaf: from the file into the same frame,
  -- if that is the first free one. The page is alone in its chain, below page 2 ^ 19 and with a
  -- number of fewer than five digits; the frame is not free, the list of the replacer not full,
  -- and the chain of the frame empty.
  pub fetch-flush :
      (bpm : BufferPoolManager files atoi print) (pid fid clock_idx : ℕ) (page : BpmPage)
      (flags rightmost next : ℕ) (es : List (Entry Rid))
      → InFrame files atoi print bpm pid fid page
      → page.id ≡ pid
      → length (print pid) < 5
      → pid < 524288
      → free_frame 0 (set bpm.free_list fid true) ≡ some fid
      → get_elem? bpm.free_list fid ≡ some false
      → bpm.replacer.frames.size ≢ bpm.replacer.frames.capacity
      → HasChain atoi bpm.replacer.frame_table (print fid) clock_idx []
      → flags < 256
      → rightmost < 4294967296
      → next < 4294967296
      → AllFit record_codec es
      → header_size + 4 * length es + total_size record_codec es ≤ page_size
      → length es < rounds
      → (bpm₁ : BufferPoolManager files atoi print) × (bpm₂ : BufferPoolManager files atoi print)
        × (NodeStore.flush
              (pool_nodes files atoi print unset)
              pid
              (leaf_page flags rightmost next es)
              bpm
            ≡ some bpm₁)
        × (NodeStore.fetch (pool_nodes files atoi print unset) pid bpm₁
            ≡ some (leaf_page flags rightmost next es, bpm₂))
  unfolding flush_tree_node fetch_node
  fetch-flush bpm pid fid clock_idx page flags rightmost next es h own short small free taken space
        chain hf hr hn fit room enough =
      let (data_, written, reread) =
        deserialize-page_leaf flags rightmost next es unset rounds hf hr hn fit room enough in
      let (hit, fetched, h', file, replacer, listed) =
        fetch_bpm_page-InFrame files atoi print bpm pid fid page h in
      let pinned : BpmPage = record page { pin_count = page.pin_count + 1 } in
      let (bpm₁, bpm₂, bpm₃, page', wrote, flushed, refetched, h₃, same, frames) =
        write_to_frame-fetch files atoi print hit pid fid clock_idx pinned data_ h' short small
          (ap (λ (l : List Bool). free_frame 0 (set l fid true)) listed ∙ free)
          (ap (λ (l : List Bool). get_elem? l fid) listed ∙ taken)
          (subst (λ (r : ClockReplacer). r.frames.size ≢ r.frames.capacity) (sym replacer) space)
          (subst (λ (r : ClockReplacer). HasChain atoi r.frame_table (print fid) clock_idx [])
            (sym replacer) chain) in
      let found = reread page'.data_ same in
      (
        bpm₂,
        bpm₃,
        rw (flush_tree_node, written, ◌>>=◌)
            (flush_node-InFrame bpm hit bpm₁ bpm₂ pid fid pinned data_ fetched h' own wrote
              flushed),
        rw (fetch_node, refetched, ◌>>=◌, h₃.framed, found),
      )
