-- ===== src/Sql/Access/Created.antt =====
-- src/disk/heapfile.c and src/sql/access_method.cpp: the schema that `create_table` writes is read back.
use somedb.Base.{
  ℕ, zero, suc, ◌+◌, ◌*◌, ◌%◌, ◌<◌, ◌≤◌, ◌≡◌, refl, sym, ap, ap₂, ◌∙◌, subst, ◌==◌, ltb, Bool-cases,
  inl, inr, false, Option, none, some, List, [], ◌∷◌, length, map, if◌then◌else◌, arith,
}
use somedb.Base.Int.{ℤ}
use somedb.Disk.File.{Files, write_page}
use somedb.Disk.File.Laws.{page_at, Holds, read_page-Holds, write_page-Holds, page_at-write_page}
use somedb.Disk.Heap.{FreeSpace, DiskManager}
use somedb.Disk.Heap.Table
use somedb.Disk.Heap.Table.{write_columns, empty_schema, write_directory, create_table}
use somedb.Disk.Heap.Table.Schema.{Uniform, Layout, write_columns-Layout}
use somedb.Index.Page.{◌>>=◌}
use somedb.Index.Serial.{bytes_at, page_size}
use somedb.Index.Serial.Written.{bytes_at-eq}
use somedb.Sql.Access.{type_of, decode_columns, schema}
use somedb.Sql.Schema.{Column}
use somedb.Sql.Token.{Text}
use somedb.Utils.Hash.{HashTable, HashEl, empty_chains, init_hash, hash_insert}
use somedb.Utils.Hash.Chain.{chain_of}
use somedb.Utils.Hash.Refine.{Chains, IsIndex, table_of, hash_find-hash_insert}
use somedb.Utils.Serialize.{Buf, encode_uint16}

-- The columns of a new table as the SQL front end has them, if their types are types.
abbrev pub logical : List Table.Column → Option (List Column)
logical [] = some []
logical (c ∷ cs) = do
  t ← type_of c.type_
  cols ← logical cs
  some (record { name = c.name; data_type = t } ∷ cols)

decode_columns-step :
    (n cursor : ℕ) (page : Buf) (len : ℕ) (name : Text) (code : ℕ) (rest : Option (List Column))
    → page cursor ≡ len
    → bytes_at page len (cursor + 1) ≡ name
    → page (cursor + len + 1) ≡ code
    → decode_columns n ((cursor + (1 + len + 1)) % 256) page ≡ rest
    → decode_columns (suc n) cursor page
      ≡ (do t ← type_of code; cols ← rest; some (record { name = name; data_type = t } ∷ cols))
unfolding decode_columns
decode_columns-step n cursor page len name code rest at_len at_name at_type run =
    rw (decode_columns, at_len, at_name, at_type, run)

decode_columns-Layout :
    (len : ℕ) (page read : Buf) (cs : List Table.Column) (p : ℕ)
    → Uniform len cs
    → Layout len page p cs
    → p + length cs * (len + 2) ≤ 256
    → ((q : ℕ) → q < 4096 → read q ≡ page q)
    → decode_columns (length cs) (p % 256) read ≡ logical cs
unfolding decode_columns
decode_columns-Layout len page read [] p u layout room same = refl
decode_columns-Layout len page read (c ∷ cs) p u layout room same =
    let total : length (c ∷ cs) * (len + 2) ≡ length cs * (len + 2) + (len + 2) = omega arith in
    let small : p % 256 ≡ p = omega (arith, total, room) in
    let name : bytes_at read len (p + 1) ≡ c.name =
      subst (λ (n : ℕ). bytes_at read n (p + 1) ≡ c.name) u.0.1
        (bytes_at-eq read c.name (p + 1) (λ i h.
          same (p + 1 + i) (omega (arith, total, room, u.0.1))
          ∙ layout.0.1 i (omega (arith, u.0.1)))) in
    let rest : decode_columns (length cs) ((p + (1 + len + 1)) % 256) read ≡ logical cs =
      ap (λ (n : ℕ). decode_columns (length cs) (n % 256) read) (omega arith)
      ∙ decode_columns-Layout len page read cs (p + (len + 2)) u.1 layout.1 (omega (arith, total))
          same in
    rw small (
      decode_columns-step (length cs) p read len c.name c.type_ (logical cs)
        (same p (omega (arith, total, room)) ∙ layout.0.0) name
        (same (p + len + 1) (omega (arith, total, room)) ∙ ap page (omega arith) ∙ layout.0.2) rest)

no_entries : {V : Type 0} → ℕ → Chains V
no_entries zero = []
no_entries (suc n) = [] ∷ no_entries n

empty_chains-no_entries :
    {V : Type 0} (n : ℕ) → map chain_of (no_entries {V = V} n) ≡ empty_chains n
unfolding no_entries
empty_chains-no_entries zero = refl
empty_chains-no_entries {V = V} (suc n) =
    ap (λ (t : List (List (HashEl V))). [] ∷ t) (empty_chains-no_entries n)

length-no_entries : (V : Type 0) (n : ℕ) → length (no_entries {V = V} n) ≡ n
unfolding no_entries
length-no_entries V zero = refl
length-no_entries V (suc n) = ap suc (length-no_entries V n)

init_hash-table_of :
    {V : Type 0} (n : ℕ) → n < 65536 → init_hash {V = V} n ≡ table_of (no_entries n)
unfolding init_hash
init_hash-table_of {V = V} n h =
    let size : n % 65536 ≡ length (no_entries {V = V} n) = omega (arith, length-no_entries V n) in
    ap₂ (λ (a : List (List (HashEl V))) (s : ℕ). record { arr = a; size = s })
      (sym (empty_chains-no_entries n)) size

module _ (files : Files) (atoi : Text → ℤ) (print : ℕ → Text) where
  directory-insert :
      (pid : ℕ) (cell : FreeSpace) (cs : Chains FreeSpace)
      → IsIndex atoi (print pid)
      → 0 < length cs
      → (after : Chains FreeSpace) × ((if ltb pid 2
            then some (table_of cs)
            else hash_insert atoi (some (print pid)) (some cell) (table_of cs))
          ≡ some (table_of after))
        × (0 < length after)
  directory-insert pid cell cs index some_chain = elim (Bool-cases (ltb pid 2)) [
    | inl h ↦ (cs, rw h refl, some_chain)
    | inr h ↦
        let (after, run, same, other) =
          hash_find-hash_insert atoi (print pid) (print pid) cell cs index index some_chain in
        (after, rw h run, omega (arith, same))
  ]

  write_directory-table_of :
      (n pid : ℕ) (addresses : ℕ → ℕ) (cs : Chains FreeSpace) (file : files.File)
      → ((k : ℕ) → k < 500 → IsIndex atoi (print k))
      → pid + n ≤ 500
      → 0 < length cs
      → (after : Chains FreeSpace) × (file' : files.File) × (write_directory files atoi print n pid
            addresses
            (table_of cs)
            file
          ≡ some (table_of after, file'))
  unfolding write_directory
  write_directory-table_of zero pid addresses cs file index room some_chain = (cs, file, refl)
  write_directory-table_of (suc n) pid addresses cs file index room some_chain =
      let cell : FreeSpace = record { address = addresses pid; free_space = page_size } in
      let (cs', run, some_chain') =
        directory-insert pid cell cs (index pid (omega arith)) some_chain in
      let file₁ =
        files.write_at file (pid * 4) 4
          (encode_uint16 page_size (encode_uint16 pid (λ _. 0) 0) 2) in
      let (after, file', rest) =
        write_directory-table_of n (pid + 1) addresses cs' file₁ index (omega arith) some_chain' in
      (after, file', rw (run, ◌>>=◌) rest)

  create_table-run :
      (columns : List Table.Column) (addresses : ℕ → ℕ) (file file₁ : files.File)
      (directory : HashTable FreeSpace) (col_buf : Buf)
      → files.size file ≡ 0
      → write_directory files atoi print 500 0 addresses (init_hash 500) file
        ≡ some (directory, file₁)
      → write_columns 0 0 columns (empty_schema (length columns)) ≡ some col_buf
      → create_table files atoi print columns addresses file
        ≡ some (
            some (record {
              page_directory = directory;
              file = write_page files 1 col_buf (files.write_at file₁ 2000 2096 (λ _. 0));
            }))
  unfolding create_table write_page
  create_table-run columns addresses file file₁ directory col_buf empty run wrote =
      rw (create_table, empty, run, ◌>>=◌, wrote)

  create_table-exists :
      (columns : List Table.Column) (addresses : ℕ → ℕ) (file : files.File)
      → Holds files 1 file
      → create_table files atoi print columns addresses file ≡ some none
  unfolding create_table
  create_table-exists columns addresses file holds =
      let there : (files.size file == 0) ≡ false = ground (arith, holds) in
      rw (create_table, there) refl

  schema-write_page :
      (len : ℕ) (columns : List Table.Column) (cols : List Column) (col_buf : Buf)
      (file : files.File) (path : Text)
      → Uniform len columns
      → Layout len col_buf 1 columns
      → 1 + length columns * (len + 2) ≤ 256
      → col_buf 0 ≡ length columns
      → logical columns ≡ some cols
      → schema files path (write_page files 1 col_buf file)
        ≡ some (record { name = path; columns = cols })
  unfolding schema
  schema-write_page len columns cols col_buf file path uniform layout room count types =
      let written = write_page files 1 col_buf file in
      let read = page_at files 1 written in
      let same : (q : ℕ) → q < 4096 → read q ≡ col_buf q =
        λ q h. page_at-write_page files 1 col_buf file q (omega arith) h in
      let n : read 0 ≡ length columns = same 0 (omega arith) ∙ count in
      let decoded : decode_columns (length columns) 1 read ≡ some cols =
        decode_columns-Layout len col_buf read columns 1 uniform layout room same ∙ types in
      rw (
        schema,
        read_page-Holds files 1 written (omega arith)
            (write_page-Holds files 1 col_buf file (omega arith)),
        ◌>>=◌,
        n,
        decoded,
      )

  pub schema-create_table :
      (len : ℕ) (columns : List Table.Column) (cols : List Column) (addresses : ℕ → ℕ)
      (file : files.File) (path : Text)
      → ((k : ℕ) → k < 500 → IsIndex atoi (print k))
      → files.size file ≡ 0
      → Uniform len columns
      → len < 256
      → 1 + length columns * (len + 2) ≤ 256
      → logical columns ≡ some cols
      → (dm : DiskManager files atoi print) × (create_table files atoi print columns addresses file
          ≡ some (some dm))
        × (schema files path dm.file ≡ some (record { name = path; columns = cols }))
        × (create_table files atoi print columns addresses dm.file ≡ some none)
  unfolding empty_schema init_hash
  schema-create_table len columns cols addresses file path index empty uniform small room types =
      let (after, file₁, run) =
        write_directory-table_of 500 0 addresses (no_entries 500) file index (omega arith)
          (omega (arith, length-no_entries FreeSpace 500)) in
      let buf = empty_schema (length columns) in
      let (col_buf, wrote, layout, before) =
        write_columns-Layout len columns 0 0 buf uniform small (omega arith)
          (omega (arith, room)) in
      let file₂ = files.write_at file₁ 2000 2096 (λ _. 0) in
      let made = init_hash-table_of 500 (omega arith) in
      (
        record { page_directory = table_of after; file = write_page files 1 col_buf file₂ },
        create_table-run columns addresses file file₁ (table_of after) col_buf empty
            (ap (λ t. write_directory files atoi print 500 0 addresses t file) made ∙ run) wrote,
        schema-write_page len columns cols col_buf file₂ path uniform
            (subst (λ (n : ℕ). Layout len col_buf n columns) (omega arith) layout) room
            (before 0 (omega arith)) types,
        create_table-exists columns addresses (write_page files 1 col_buf file₂)
            (write_page-Holds files 1 col_buf file₂ (omega arith)),
      )
