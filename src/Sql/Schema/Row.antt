-- ===== src/Sql/Schema/Row.antt =====
-- src/disk/heapfile.c and src/sql/schema.cpp: `Row::getValue` on a tuple that `add_tuple` stores.
use native.Mathlib.Nat.{mul-suc}
use somedb.Base.{
  ℕ, zero, suc, ◌+◌, ◌*◌, ◌<◌, ◌≤◌, ◌≡◌, refl, sym, ap, subst, ◌∙◌, ◌==◌, Bool, true, false, Option,
  some, List, [], ◌∷◌, ◌++◌, length, arith, if◌then◌else◌,
}
use somedb.Base.Int.{ℤ}
use somedb.Disk.File.{Files}
use somedb.Disk.File.Laws.{page_at}
use somedb.Disk.Heap.{FreeSpace, DiskManager, added, validate_columns, add_tuple, get_tuple}
use somedb.Disk.Heap.Directory.{HasEntry}
use somedb.Disk.Heap.Laws.{HasSlots, add_tuple-HasSlots, get_tuple-HasSlots, length-tuple_bytes}
use somedb.Disk.HeapPage.{TuplePtr, extract_header}
use somedb.Disk.Tuple.{
  ColumnValue, boolean, string, integer, decimal, value_size, tuple_size_from, encode_values,
  tuple_bytes,
}
use somedb.Disk.Tuple.Laws.{
  Fits, AllFit, total, Decodes, Fields, Decodes-cong, encode_values-Fields, tuple_size_from-total,
}
use somedb.Index.Page.Shift.{at-length}
use somedb.Index.Serial.{bytes_at}
use somedb.Sql.Primitive
use somedb.Sql.Primitive.{
  DataType, boolean_type, varchar_type, integer_type, decimal_type, get_size, Outcome, value,
  Platform, PrimitiveValue, not,
}
use somedb.Sql.Primitive.Methods.{
  boolean_deserialize, integer_deserialize, decimal_deserialize, deserialize,
}
use somedb.Sql.Schema.{Column, get_value}
use somedb.Sql.Schema.Offset.{Lacks, get_offset-position}
use somedb.Sql.Token.{Text}
use somedb.Utils.Hash.Chain.{text_eq_refl}
use somedb.Utils.Serialize.{Buf, decode_bool}

abbrev pub type_of_value : ColumnValue → DataType
type_of_value (boolean b) = boolean_type
type_of_value (string str) = varchar_type
type_of_value (integer i) = integer_type
type_of_value (decimal d) = decimal_type

-- The values have this size.
abbrev pub AllSize : ℕ → List ColumnValue → Type 0
AllSize size [] = Unit
AllSize size (v ∷ vs) = (value_size v ≡ size) × AllSize size vs

abbrev pub is_string : ColumnValue → Bool
is_string (string str) = true
is_string _ = false

total-AllSize : (size : ℕ) (vs : List ColumnValue) → AllSize size vs → total vs ≡ size * length vs
total-AllSize size [] h = omega arith
total-AllSize size (v ∷ vs) h =
    omega (arith, total-AllSize size vs h.1, h.0, mul-suc size (length vs))

total-append : (vs ws : List ColumnValue) → total (vs ++ ws) ≡ total vs + total ws
total-append [] ws = omega arith
total-append (v ∷ vs) ws = omega (arith, total-append vs ws)

Fields-at :
    (buf : Buf) (p : ℕ) (vs ws : List ColumnValue) (v : ColumnValue)
    → Fields buf p (vs ++ v ∷ ws)
    → Decodes buf (p + total vs) v
Fields-at buf p [] ws v h = subst (λ (n : ℕ). Decodes buf n v) (omega arith) h.0
Fields-at buf p (u ∷ vs) ws v h =
    subst (λ (n : ℕ). Decodes buf n v) (omega arith) (Fields-at buf (p + value_size u) vs ws v h.1)

AllFit-at : (vs ws : List ColumnValue) (v : ColumnValue) → AllFit (vs ++ v ∷ ws) → Fits v
AllFit-at [] ws v h = h.0
AllFit-at (u ∷ vs) ws v h = AllFit-at vs ws v h.1

bytes_at-same :
    (a b : Buf) (n p r i : ℕ) → bytes_at a n p ≡ bytes_at b n r → i < n → a (p + i) ≡ b (r + i)
unfolding bytes_at
bytes_at-same a b zero p r i e h = absurd (omega arith)
bytes_at-same a b (suc n) p r zero e h =
    let first : a p ≡ b r = grind arith in ap a (omega arith) ∙ first ∙ ap b (omega arith)
bytes_at-same a b (suc n) p r (suc i) e h =
    let rest : bytes_at a n (p + 1) ≡ bytes_at b n (r + 1) = grind arith in
    ap a (omega arith)
    ∙ bytes_at-same a b n (p + 1) (r + 1) i rest (omega arith)
    ∙ ap b (omega arith)

stored-bytes :
    (page tuple_buf : Buf) (values : List ColumnValue) (address q : ℕ)
    → total values < 65536
    → bytes_at page (length (tuple_bytes values tuple_buf)) address ≡ tuple_bytes values tuple_buf
    → q < total values
    → page (address + q) ≡ encode_values values tuple_buf 0 q
unfolding tuple_bytes
stored-bytes page tuple_buf values address q small same h =
    let n = length (tuple_bytes values tuple_buf) in
    let len : n ≡ total values = length-tuple_bytes values tuple_buf small in
    let size : tuple_size_from 0 values ≡ n =
      tuple_size_from-total values 0 (omega arith) ∙ omega (arith, len) in
    let enc = encode_values values tuple_buf 0 in
    bytes_at-same page enc n address 0 q (same ∙ ap (λ (k : ℕ). bytes_at enc k 0) size)
      (omega (arith, len))
    ∙ ap enc (omega arith)

not-if : (x : Bool) → not x ≡ (if x then false else true)
not-if true = refl
not-if false = refl

module _ (p : Platform) where
  -- What a value of the disk is for the SQL front end; a string is not one.
  abbrev pub sql_value : ColumnValue → PrimitiveValue p
  sql_value (boolean b) = Primitive.boolean p (if b == 0 then false else true)
  sql_value (string str) = Primitive.boolean p true
  sql_value (integer i) = Primitive.integer p i
  sql_value (decimal d) = Primitive.decimal p (p.double_of d)

  deserialize-Decodes :
      (v : ColumnValue) (buf : Buf) (q : ℕ)
      → is_string v ≡ false
      → Decodes buf q v
      → deserialize p (type_of_value v) buf q ≡ sql_value v
  unfolding deserialize decode_bool boolean_deserialize integer_deserialize decimal_deserialize
  deserialize-Decodes (boolean b) buf q h d = ap (Primitive.boolean p) (not-if (buf q == 0) ∙ d)
  deserialize-Decodes (string str) buf q h d = absurd cc
  deserialize-Decodes (integer i) buf q h d = rw d refl
  deserialize-Decodes (decimal x) buf q h d = rw d refl

  value_size-type :
      (v : ColumnValue) → is_string v ≡ false → value_size v ≡ get_size (type_of_value v)
  unfolding value_size get_size
  value_size-type (boolean b) h = refl
  value_size-type (string str) h = absurd cc
  value_size-type (integer i) h = refl
  value_size-type (decimal d) h = refl

  -- The bytes of the row are those of a tuple.
  get_value-encode_values :
      (row tuple_buf : Buf) (vs ws : List ColumnValue) (v : ColumnValue)
      (before after : List Column) (col : Column) (name : Text)
      → ((q : ℕ) → q < total (vs ++ v ∷ ws) → row q ≡ encode_values (vs ++ v ∷ ws) tuple_buf 0 q)
      → AllFit (vs ++ v ∷ ws)
      → total (vs ++ v ∷ ws) < 65536
      → AllSize (value_size v) vs
      → is_string v ≡ false
      → length before ≡ length vs
      → Lacks col.name before
      → col.data_type ≡ type_of_value v
      → get_value p row col (record { name = name; columns = before ++ col ∷ after })
        ≡ value (sql_value v)
  unfolding get_value
  get_value-encode_values row tuple_buf vs ws v before after col name same fit small sizes plain
        count lacks type =
      let enc = encode_values (vs ++ v ∷ ws) tuple_buf 0 in
      let all : total (vs ++ v ∷ ws) ≡ total vs + (value_size v + total ws) =
        total-append vs (v ∷ ws) in
      let size : get_size col.data_type ≡ value_size v =
        ap get_size type ∙ sym (value_size-type v plain) in
      let place : 0 + get_size col.data_type * length before ≡ total vs =
        rw (size, count) (omega (arith, total-AllSize (value_size v) vs sizes)) in
      let there =
        get_offset-position col col before after 0 lacks (text_eq_refl col.name)
          (omega (arith, place, all)) in
      let field : Decodes enc (total vs) v =
        subst (λ (n : ℕ). Decodes enc n v) (omega arith)
          (Fields-at enc 0 vs ws v
            (encode_values-Fields (vs ++ v ∷ ws) tuple_buf 0 fit (omega arith))) in
      let read : Decodes row (total vs) v =
        Decodes-cong row enc (total vs) v (AllFit-at vs ws v fit)
          (λ q k l. same q (omega (arith, all))) field in
      rw (get_value, there ∙ ap some place, type)
        (ap value (deserialize-Decodes v row (total vs) plain read))

  module _ (files : Files) (atoi : Text → ℤ) (print : ℕ → Text) where
    -- In a table whose first user page holds these slots and has room for the tuple, with a
    -- cell in the page directory whose address is not below 2 ^ 16: for values in their
    -- range, of less than 2 ^ 16 bytes, that the schema page allows, and of which one is no
    -- string and has before it values of its own size only, add_tuple returns a pointer,
    -- get_tuple of the new slot returns an address, and getValue at this address gives that
    -- value, for a schema in which its column has its type and as many columns before, none
    -- with its name.
    pub get_value-add_tuple :
        (dm : DiskManager files atoi print) (cell : FreeSpace) (names : List Text)
        (vs ws : List ColumnValue) (v : ColumnValue) (tuple_buf : Buf) (cell_address : ℕ)
        (ss : List (Option (List ℕ))) (before after_cols : List Column) (col : Column) (name : Text)
        → HasEntry files atoi print dm.page_directory 2 cell
        → 65536 ≤ cell.address
        → HasSlots files atoi print dm 2 ss
        → total (vs ++ v ∷ ws) < 65536
        → 9 + 4 * length ss + total (vs ++ v ∷ ws)
          ≤ (extract_header (page_at files 2 dm.file) 2).free_end
        → validate_columns
            (page_at files 1 dm.file 0)
            0
            0
            (λ q. page_at files 1 dm.file (q + 1))
            (page_at files 1 dm.file 0)
            names
            (vs ++ v ∷ ws)
          ≡ some true
        → AllFit (vs ++ v ∷ ws)
        → AllSize (value_size v) vs
        → is_string v ≡ false
        → length before ≡ length vs
        → Lacks col.name before
        → col.data_type ≡ type_of_value v
        → (ptr : TuplePtr) × (after : DiskManager files atoi print) × (page : Buf) × (address : ℕ)
          × (add_tuple files atoi print names (vs ++ v ∷ ws) tuple_buf cell_address dm
              ≡ some (added ptr, after))
          × (get_tuple files atoi print (record { pid = 2; slot_num = length ss }) after
              ≡ some (page, some address))
          × (get_value p
                (λ q. page (address + q))
                col
                (record { name = name; columns = before ++ col ∷ after_cols })
              ≡ value (sql_value v))
    get_value-add_tuple dm cell names vs ws v tuple_buf cell_address ss before after_cols col name
          entry big slots small room valid fit sizes plain count lacks type =
        let values = vs ++ v ∷ ws in
        let bytes = tuple_bytes values tuple_buf in
        let (ptr, after, run, slots', at_ptr, entry') =
          add_tuple-HasSlots files atoi print dm cell names values tuple_buf cell_address ss entry
            big slots small room valid in
        let (page, address, found, inside, same) =
          get_tuple-HasSlots files atoi print after (record { pid = 2; slot_num = length ss })
            (ss ++ some bytes ∷ []) bytes (omega arith) slots'
            (at-length (length ss) ss (some bytes) [] refl) in
        (
          ptr,
          after,
          page,
          address,
          run,
          found,
          get_value-encode_values (λ q. page (address + q)) tuple_buf vs ws v before after_cols col
              name (λ q h. stored-bytes page tuple_buf values address q small same h) fit small
              sizes plain count lacks type,
        )
