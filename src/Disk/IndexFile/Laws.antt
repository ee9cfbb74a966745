-- ===== src/Disk/IndexFile/Laws.antt =====
-- src/disk/disk_manager.c and the readers of src/index: the pages of a new index.
use somedb.Base.{
  ℕ, zero, suc, ◌+◌, ◌*◌, ◌%◌, ◌<◌, ◌≤◌, ◌≡◌, refl, ◌∙◌, ltb, ◌==◌, true, false, some, [],
  if◌then◌else◌, arith,
}
use somedb.Disk.File.{Files, read_page, write_page}
use somedb.Disk.File.Laws.{
  page_at, Holds, read_page-Holds, write_page-Holds, page_at-write_page, page_at-write_page_ne,
}
use somedb.Disk.IndexFile.{create_btree_index, new_btree_index_page}
use somedb.Index.Codec.{record_codec, encode_uint32-outside}
use somedb.Index.Page.{◌>>=◌}
use somedb.Index.Serial.{page_size, read_entries, deserialize}
use somedb.Index.Serial.Written.{store_self, store-after, encode_uint16-after}
use somedb.Index.Serial.RoundTrip.{
  leaf_page, store-before, decode_uint16_local, decode_uint32_local,
}
use somedb.Index.Tree.{BTree, btree_index}
use somedb.Index.Tree
use somedb.Index.Tree.Meta.{encode_uint16-before}
use somedb.Utils.Serialize.{
  Buf, store, encode_uint32, decode_uint32, encode_uint16, decode_uint16, decode_bool,
}
use somedb.Utils.Serialize.Laws.{decode-encode_uint16, decode-encode_uint32}

-- The page that is written for a new leaf.
abbrev IsFresh : Buf → Type 0
IsFresh page = (q : ℕ) → q < page_size → page q ≡ (if q == 13 then 1 else 0)

-- The cursor passes zeros in steps of 8, which miss the byte 13.
read_entries-fresh :
    (n fuel cursor : ℕ) (page : Buf)
    → IsFresh page
    → cursor + 8 * n ≡ page_size
    → n < fuel
    → read_entries record_codec fuel true page cursor ≡ some ([], [])
unfolding read_entries
read_entries-fresh n zero cursor page z e h = absurd (omega arith)
read_entries-fresh zero (suc fuel) cursor page z e h =
    let done : ltb cursor 4096 ≡ false = ground (arith, e) in rw done
read_entries-fresh (suc n) (suc fuel) cursor page z e h =
    let inside : ltb cursor 4096 ≡ true = ground (arith, e) in
    let empty : page cursor ≡ 0 = z cursor (omega arith) ∙ ground (arith, e) in
    let next : (cursor + 8) % 65536 ≡ cursor + 8 = omega arith in
    rw (inside, empty, next)
      (read_entries-fresh n fuel (cursor + 8) page z (omega arith) (omega arith))

deserialize-fresh :
    (fuel : ℕ) (page : Buf)
    → IsFresh page
    → 512 < fuel
    → deserialize fuel page ≡ some (leaf_page 0 0 0 [])
unfolding deserialize decode_uint16 decode_uint32 decode_bool
deserialize-fresh fuel page z h =
    rw (z 13 (omega arith), z 2 (omega arith), z 3 (omega arith))
      (rw (read_entries-fresh 512 fuel 0 page z (omega arith) h) (
        rw
          (
            z 12 (omega arith),
            z 8 (omega arith),
            z 9 (omega arith),
            z 10 (omega arith),
            z 11 (omega arith),
            z 4 (omega arith),
            z 5 (omega arith),
            z 6 (omega arith),
            z 7 (omega arith),
          )
          refl))

store-fresh : (q : ℕ) → store (λ _. 0) 13 1 q ≡ (if q == 13 then 1 else 0)
unfolding store
store-fresh q = ground arith

decode-zero :
    (b : Buf) (p : ℕ)
    → b p ≡ 0
    → b (p + 1) ≡ 0
    → b (p + 2) ≡ 0
    → b (p + 3) ≡ 0
    → decode_uint32 b p ≡ 0
unfolding decode_uint32
decode-zero b p h₀ h₁ h₂ h₃ = rw (h₀, h₁, h₂, h₃)

module _ (files : Files) where
  -- An index of `count` nodes behind its metadata page, all in the file.
  pub record IsIndexFile (file : files.File) (count : ℕ) : Type 0 where
    pub holds : Holds files count file
    pub magic : decode_uint32 (page_at files 0 file) 0 ≡ btree_index
    pub nodes : decode_uint16 (page_at files 0 file) 4 ≡ count

  -- In an index of fewer than 65535 nodes, new_btree_index_page of a leaf returns the next page
  -- id and leaves an index of one node more, whose new page reads as an empty leaf, with fuel
  -- above 512; the pages of the other nodes keep their bytes.
  pub new_btree_index_page-leaf :
      (file : files.File) (count fuel other q : ℕ)
      → IsIndexFile file count
      → count < 65535
      → 512 < fuel
      → 0 < other
      → other ≤ count
      → q < page_size
      → (after : files.File) × (new_btree_index_page files true file ≡ some (count + 1, after))
        × IsIndexFile after (count + 1)
        × (read_page files (count + 1) after >>= deserialize fuel ≡ some (leaf_page 0 0 0 []))
        × (page_at files other after q ≡ page_at files other file q)
  unfolding new_btree_index_page
  new_btree_index_page-leaf file count fuel other q index small enough first old inside =
      let meta = page_at files 0 file in
      let first_page : Holds files 0 file = omega (arith, index.holds) in
      let next : (count + 1) % 65536 ≡ count + 1 = omega arith in
      let new_meta = encode_uint16 (count + 1) meta 4 in
      let fresh = store (λ _. 0) 13 1 in
      let file₁ = write_page files 0 new_meta file in
      let after = write_page files (count + 1) fresh file₁ in
      let meta_of : (q : ℕ) → q < 4096 → page_at files 0 after q ≡ new_meta q = λ q h.
        page_at-write_page_ne files (count + 1) 0 fresh file₁ q (omega arith) (omega arith)
          (omega arith) h
        ∙ page_at-write_page files 0 new_meta file q (omega arith) h in
      let new_page : IsFresh (page_at files (count + 1) after) =
        λ q h. page_at-write_page files (count + 1) fresh file₁ q (omega arith) h ∙ store-fresh q in
      let new_holds = write_page-Holds files (count + 1) fresh file₁ (omega arith) in
      (
        after,
        rw (read_page-Holds files 0 file (omega arith) first_page, index.magic, index.nodes, next),
        record {
          holds = new_holds;
          magic =
              decode_uint32_local (page_at files 0 after) meta 0 (λ q h.
                meta_of q (omega arith) ∙ encode_uint16-before (count + 1) meta 4 q (omega arith))
              ∙ index.magic;
          nodes =
              decode_uint16_local (page_at files 0 after) new_meta 4
                (λ q h. meta_of q (omega arith))
              ∙ decode-encode_uint16 (count + 1) meta 4 (omega arith);
        },
        rw (read_page-Holds files (count + 1) after (omega arith) new_holds)
            (deserialize-fresh fuel (page_at files (count + 1) after) new_page enough),
        page_at-write_page_ne files (count + 1) other fresh file₁ q (omega arith) (omega arith)
              (omega arith) inside
            ∙ page_at-write_page_ne files 0 other new_meta file q (omega arith) (omega arith)
                (omega arith) inside,
      )

  -- In an empty file, `create_btree_index` with at most 255 keys in a node leaves an index of no
  -- nodes, whose metadata page is read back by the tree with that number and no root.
  create_btree_index-deserialize :
      (file : files.File) (max_keys : ℕ)
      → files.size file ≡ 0
      → max_keys < 256
      → (after : files.File) × (create_btree_index files max_keys file ≡ some after)
        × IsIndexFile after 0
        × (read_page files 0 after >>= Tree.deserialize
            ≡ some (record {
              magic_num = btree_index;
              max_size = max_keys;
              root_pid = 0;
              node_count = 0;
            }))
  unfolding create_btree_index write_page Tree.deserialize
  create_btree_index-deserialize file max_keys empty small =
      let b₁ = encode_uint32 btree_index (λ _. 0) 0 in
      let b₂ = encode_uint16 0 b₁ 4 in
      let b₃ = store b₂ 6 max_keys in
      let after = write_page files 0 b₃ file in
      let page : (q : ℕ) → q < 4096 → page_at files 0 after q ≡ b₃ q =
        λ q h. page_at-write_page files 0 b₃ file q (omega arith) h in
      let to₂ : (q : ℕ) → q < 6 → page_at files 0 after q ≡ b₂ q =
        λ q h. page q (omega arith) ∙ store-before b₂ 6 max_keys q h in
      let magic : decode_uint32 (page_at files 0 after) 0 ≡ btree_index =
        decode_uint32_local (page_at files 0 after) b₁ 0
          (λ q h. to₂ q (omega arith) ∙ encode_uint16-before 0 b₁ 4 q (omega arith))
        ∙ decode-encode_uint32 btree_index (λ _. 0) 0 (omega arith) in
      let nodes : decode_uint16 (page_at files 0 after) 4 ≡ 0 =
        decode_uint16_local (page_at files 0 after) b₂ 4 to₂
        ∙ decode-encode_uint16 0 b₁ 4 (omega arith) in
      let zero_at : (q : ℕ) → 6 < q → q < 4096 → page_at files 0 after q ≡ 0 = λ q h k.
        page q k
        ∙ store-after b₂ 6 max_keys q h
        ∙ encode_uint16-after 0 b₁ 4 q (omega arith)
        ∙ encode_uint32-outside btree_index (λ _. 0) 0 q (omega arith) in
      let root =
        decode-zero (page_at files 0 after) 7 (zero_at 7 (omega arith) (omega arith))
          (zero_at 8 (omega arith) (omega arith)) (zero_at 9 (omega arith) (omega arith))
          (zero_at 10 (omega arith) (omega arith)) in
      let size : page_at files 0 after 6 ≡ max_keys =
        page 6 (omega arith) ∙ store_self b₂ 6 max_keys small in
      let holds = write_page-Holds files 0 b₃ file (omega arith) in
      (
        after,
        rw empty,
        record { holds = holds; magic = magic; nodes = nodes },
        rw (read_page-Holds files 0 after (omega arith) holds) (rw (magic, size, root, nodes)),
      )
