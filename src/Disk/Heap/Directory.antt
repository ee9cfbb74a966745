-- ===== src/Disk/Heap/Directory.antt =====
-- src/disk/heapfile.c: an entry of the page directory, as it is found and updated.
use somedb.Base.{
  ℕ, suc, ◌*◌, ◌%◌, length, ◌<◌, ◌≤◌, ◌≡◌, ◌∙◌, leb, true, some, [], ◌∷◌, get_elem?, set, arith,
}
use somedb.Base.Int.{ℤ}
use somedb.Disk.File.{Files}
use somedb.Disk.Heap.{
  FreeSpace, TupleAction, DiskManager, find_from, find_spacious_page, update_page_dir, space_after,
}
use somedb.Sql.Token.{Text}
use somedb.Utils.Hash.{
  HashTable, live, hash, hash_find, hash_insert, hash_remove, insert_chain, find_chain,
  remove_chain, remove_first,
}
use somedb.Utils.Hash.Chain.{text_eq_refl}
use somedb.Utils.Hash.Remove.{hash_arr, index-lt}
use somedb.Utils.Hash.Refine.{get_elem?-set, length-set}
use somedb.Utils.Serialize.{Buf, encode_uint16}

module _ (files : Files) (atoi : Text → ℤ) (print : ℕ → Text) where
  -- The number of a page stands alone in its chain.
  pub record HasEntry (directory : HashTable FreeSpace) (pid : ℕ) (cell : FreeSpace) : Type 0 where
    pub idx : ℕ
    pub hashed : hash atoi (print pid) directory ≡ some idx
    pub alone : get_elem? directory.arr idx ≡ some (live (print pid) cell ∷ [])

  hash_find-HasEntry :
      (directory : HashTable FreeSpace) (pid : ℕ) (cell : FreeSpace)
      → HasEntry directory pid cell
      → hash_find atoi (print pid) directory ≡ some (some cell)
  unfolding hash_find find_chain
  hash_find-HasEntry directory pid cell h = rw (h.hashed, h.alone, text_eq_refl (print pid))

  find_from-first :
      (n i : ℕ) (directory : HashTable FreeSpace) (cell : FreeSpace) (size_needed : ℕ)
      → HasEntry directory i cell
      → size_needed ≤ cell.address
      → find_from files atoi print (suc n) i size_needed directory ≡ some (some i)
  unfolding find_from
  find_from-first n i directory cell size_needed h le =
      let big : leb size_needed cell.address ≡ true = ground arith in
      rw (hash_find-HasEntry directory i cell h, big)

  -- The first user page is taken for every size that its cell's address is not below, whatever
  -- space the page has.
  pub find_spacious_page-first :
      (directory : HashTable FreeSpace) (cell : FreeSpace) (size_needed : ℕ)
      → HasEntry directory 2 cell
      → size_needed ≤ cell.address
      → find_spacious_page files atoi print size_needed directory ≡ some (some 2)
  unfolding find_spacious_page
  find_spacious_page-first directory cell size_needed h le =
      find_from-first 497 2 directory cell size_needed h le

  -- The number of a page is replaced, and four bytes of the page directory on disk are written.
  pub update_page_dir-HasEntry :
      (dm : DiskManager files atoi print) (pid tuple_size address : ℕ) (act : TupleAction)
      (cell : FreeSpace)
      → HasEntry dm.page_directory pid cell
      → (directory : HashTable FreeSpace) × (buf : Buf) × (update_page_dir files atoi print dm pid
            tuple_size act address
          ≡ some (record {
            page_directory = directory;
            file = files.write_at dm.file (pid * 2 % 4294967296) 4 buf;
          }))
        × HasEntry directory pid
            (record { address = address; free_space = space_after act cell.free_space tuple_size })
  unfolding update_page_dir hash_insert hash_remove insert_chain remove_chain remove_first
  update_page_dir-HasEntry dm pid tuple_size address act cell h =
      let dir = dm.page_directory in
      let free = space_after act cell.free_space tuple_size in
      let new = live (print pid) (record { address = address; free_space = free }) ∷ [] in
      let arr₁ = set dir.arr h.idx [] in
      let lt = index-lt dir.arr h.idx _ h.alone in
      let lt₁ : h.idx < length arr₁ = omega (arith, length-set dir.arr h.idx [], lt) in
      let arr₂ = set arr₁ h.idx new in
      let again : hash atoi (print pid) (record dir { arr = arr₁ }) ≡ some h.idx =
        hash_arr atoi (print pid) arr₁ dir.arr dir.size ∙ h.hashed in
      let there = get_elem?-set dir.arr h.idx [] lt in
      (
        record dir { arr = arr₂ },
        encode_uint16 free (encode_uint16 pid (λ _. 0) 0) 2,
        rw (hash_find-HasEntry dir pid cell h, h.hashed, h.alone, text_eq_refl (print pid))
            (rw (again, there)),
        record {
          idx = h.idx;
          hashed = hash_arr atoi (print pid) arr₂ dir.arr dir.size ∙ h.hashed;
          alone = get_elem?-set arr₁ h.idx new lt₁;
        },
      )
