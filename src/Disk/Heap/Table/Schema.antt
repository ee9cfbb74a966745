-- ===== src/Disk/Heap/Table/Schema.antt =====
-- src/disk/heapfile.c: `add_tuple` reads the schema page that `create_table` writes.
use somedb.Base.{
  ℕ, zero, suc, ◌+◌, ◌*◌, ◌<◌, ◌≤◌, ◌≡◌, refl, sym, ap, subst, ◌∙◌, leb, ltb, ◌==◌, true, some,
  List, [], ◌∷◌, ◌++◌, append_assoc, length, length-append, map, get_elem?, get_or, arith,
}
use somedb.Disk.Heap.{type_code, strncmp_equal, validate_columns}
use somedb.Disk.Heap.Table.{Column, write_columns}
use somedb.Disk.Tuple.{ColumnValue}
use somedb.Index.Page.Shift.{at-length}
use somedb.Index.Serial.{page_size, copy}
use somedb.Index.Serial.RoundTrip.{store-before}
use somedb.Index.Serial.Written.{copy-inside, copy-before, store_self}
use somedb.Sql.Token.{Text}
use somedb.Utils.Serialize.{Buf, store}

-- Every name has this length.
abbrev pub Uniform : ℕ → List Column → Type 0
Uniform len [] = Unit
Uniform len (c ∷ cs) =
    ((c.name_len ≡ len) × (length c.name ≡ len) × (c.type_ < 256)) × Uniform len cs

-- The values have the types of the columns.
abbrev pub Typed : List ColumnValue → List Column → Type 0
Typed [] [] = Unit
Typed (v ∷ vs) [] = ⊥
Typed [] (c ∷ cs) = ⊥
Typed (v ∷ vs) (c ∷ cs) = (type_code v ≡ c.type_) × Typed vs cs

-- The columns stand in the page from `p` on.
abbrev pub Layout : ℕ → Buf → ℕ → List Column → Type 0
Layout len page p [] = Unit
Layout len page p (c ∷ cs) =
    ((page p ≡ len)
      × ((i : ℕ) → i < len → page (p + 1 + i) ≡ get_or c.name i 0)
      × (page (p + 1 + len) ≡ c.type_))
    × Layout len page (p + (len + 2)) cs

next_place : (j len : ℕ) → (j + 1) * (len + 2) ≡ j * (len + 2) + (len + 2)
next_place j len = omega arith

-- The bytes of a column, written from `p` on.
abbrev with_column : ℕ → Column → ℕ → Buf → Buf
with_column len c p buf = store (copy (store buf p len) (p + 1) len c.name) (p + 1 + len) c.type_

write_columns-step :
    (len : ℕ) (c : Column) (cs : List Column) (j col_size : ℕ) (buf page : Buf)
    → c.name_len ≡ len
    → j * col_size ≡ j * (len + 2)
    → 1 + j * (len + 2) + len + 2 ≤ page_size
    → write_columns (j + 1) (1 + len + 1) cs (with_column len c (1 + j * (len + 2)) buf) ≡ some page
    → write_columns j col_size (c ∷ cs) buf ≡ some page
unfolding write_columns
write_columns-step len c cs j col_size buf page size same room run =
    let inside : leb (1 + j * (len + 2) + len + 2) 4096 ≡ true = ground (arith, room) in
    rw (write_columns, size, same, inside, run)

pub write_columns-Layout :
    (len : ℕ) (cs : List Column) (j col_size : ℕ) (buf : Buf)
    → Uniform len cs
    → len < 256
    → j * col_size ≡ j * (len + 2)
    → 1 + j * (len + 2) + length cs * (len + 2) ≤ page_size
    → (page : Buf) × (write_columns j col_size cs buf ≡ some page)
      × Layout len page (1 + j * (len + 2)) cs
      × ((q : ℕ) → q < 1 + j * (len + 2) → page q ≡ buf q)
unfolding write_columns
write_columns-Layout len [] j col_size buf u small same room = (buf, refl, tt, λ q h. refl)
write_columns-Layout len (c ∷ cs) j col_size buf u small same room =
    let p = 1 + j * (len + 2) in
    let b₁ = store buf p len in
    let b₂ = copy b₁ (p + 1) len c.name in
    let b₃ = store b₂ (p + 1 + len) c.type_ in
    let next = next_place j len in
    let total : length (c ∷ cs) * (len + 2) ≡ length cs * (len + 2) + (len + 2) =
      omega (arith, next_place (length cs) len) in
    let (page, run, rest, before) =
      write_columns-Layout len cs (j + 1) (1 + len + 1) b₃ u.1 small
        (ap (λ (n : ℕ). (j + 1) * n) (omega arith)) (omega (arith, next, total, room)) in
    (
      page,
      write_columns-step len c cs j col_size buf page u.0.0 same (omega (arith, total, room)) run,
      (
        (
          before p (omega (arith, next))
              ∙ store-before b₂ (p + 1 + len) c.type_ p (omega arith)
              ∙ copy-before b₁ (p + 1) len p c.name (omega arith)
              ∙ store_self buf p len small,
          λ i h.
              before (p + 1 + i) (omega (arith, next))
              ∙ store-before b₂ (p + 1 + len) c.type_ (p + 1 + i) (omega arith)
              ∙ copy-inside b₁ (p + 1) len i c.name h,
          before (p + 1 + len) (omega (arith, next)) ∙ store_self b₂ (p + 1 + len) c.type_ u.0.2,
        ),
        subst (λ (n : ℕ). Layout len page n cs) (omega (arith, next)) rest,
      ),
      λ q h.
          before q (omega (arith, next))
          ∙ store-before b₂ (p + 1 + len) c.type_ q (omega arith)
          ∙ copy-before b₁ (p + 1) len q c.name (omega arith)
          ∙ store-before buf p len q h,
    )

strncmp_equal-same :
    (n : ℕ) (buf : Buf) (name : Text)
    → length name ≡ n
    → ((i : ℕ) → i < n → buf i ≡ get_or name i 0)
    → strncmp_equal n buf name ≡ true
unfolding strncmp_equal
strncmp_equal-same zero buf name h same = refl
strncmp_equal-same (suc n) buf [] h same = absurd (omega arith)
strncmp_equal-same (suc n) buf (c ∷ name) h same =
    let first : (buf 0 == c) ≡ true = ground (arith, same 0 (omega arith)) in
    let shifted : (i : ℕ) → buf (i + 1) ≡ buf (suc i) = λ i. ap buf (omega arith) in
    rw (
      first,
      strncmp_equal-same n (λ q. buf (q + 1)) name (omega arith)
          (λ i k. shifted i ∙ same (suc i) (omega arith)),
    )

validate_columns-Layout :
    (len : ℕ) (page : Buf) (cs : List Column) (i prev total : ℕ) (front : List Text)
    (values vs : List ColumnValue) (done : List ColumnValue)
    → i * (1 + page (prev + 1) + 1) ≡ i * (len + 2)
    → Layout len page (1 + i * (len + 2)) cs
    → Uniform len cs
    → length front ≡ i
    → length done ≡ i
    → values ≡ done ++ vs
    → Typed vs cs
    → length values ≡ total
    → 1 + (i + length cs) * (len + 2) ≤ page_size
    → validate_columns
        (length cs)
        i
        prev
        (λ q. page (q + 1))
        total
        (front ++ map (λ (c : Column). c.name) cs)
        values
      ≡ some true
unfolding validate_columns
validate_columns-Layout len page [] i prev total front values vs done place layout u f d split typed
      count room =
    refl
validate_columns-Layout len page (c ∷ cs) i prev total front values [] done place layout u f d split
      typed count room =
    absurd typed
validate_columns-Layout len page (c ∷ cs) i prev total front values (v ∷ vs) done place layout u f d
      split typed count room =
    let step : (i + length (c ∷ cs)) * (len + 2)
        ≡ i * (len + 2) + (len + 2) + length cs * (len + 2) =
      omega arith in
    let inside : ltb (i * (len + 2) + len + 1) 4095 ≡ true = ground (arith, room, step) in
    let curr = i * (len + 2) in
    let names = map (λ (x : Column). x.name) cs in
    let at_len : page (curr + 1) ≡ len = ap page (omega arith) ∙ layout.0.0 in
    let name : strncmp_equal len (λ q. page (curr + 1 + q + 1)) c.name ≡ true =
      strncmp_equal-same len (λ q. page (curr + 1 + q + 1)) c.name u.0.1
        (λ k h. ap page (omega arith) ∙ layout.0.1 k h) in
    let at_type : page (curr + len + 1 + 1) ≡ c.type_ = ap page (omega arith) ∙ layout.0.2 in
    let same_type : (type_code v == page (curr + len + 1 + 1)) ≡ true =
      ground (arith, at_type, typed.0) in
    let found_name = at-length i front c.name names (sym f) in
    let found_val : get_elem? values i ≡ some v = rw split (at-length i done v vs (sym d)) in
    let all : (length values == total) ≡ true = ground (arith, count) in
    let rest =
      validate_columns-Layout len page cs (i + 1) curr total (front ++ c.name ∷ []) values vs
        (done ++ v ∷ [])
        (ap (λ (n : ℕ). (i + 1) * (1 + n + 1)) at_len ∙ ap (λ (n : ℕ). (i + 1) * n) (omega arith))
        (subst (λ (n : ℕ). Layout len page n cs) (omega (arith, next_place i len)) layout.1) u.1
        (omega (arith, f, length-append front (c.name ∷ [])))
        (omega (arith, d, length-append done (v ∷ [])))
        (split ∙ sym (append_assoc done (v ∷ []) vs)) typed.1 count
        (subst (λ (n : ℕ). 1 + n * (len + 2) ≤ page_size) (omega arith) room) in
    let rest' =
      subst
        (λ (ns : List Text).
          validate_columns (length cs) (i + 1) curr (λ q. page (q + 1)) total ns values ≡ some true)
        (append_assoc front (c.name ∷ []) names) rest in
    rw (place, at_len, inside, all, found_name, found_val, name, same_type, rest')

-- For columns whose names have one length, below 256, whose types are bytes, and that fit the
-- page, create_table writes a schema page that add_tuple accepts for those names and for values
-- of those types, one for each column; its first byte stays.
pub validate_columns-write_columns :
    (len : ℕ) (columns : List Column) (values : List ColumnValue) (buf : Buf)
    → Uniform len columns
    → len < 256
    → 1 + length columns * (len + 2) ≤ page_size
    → Typed values columns
    → length values ≡ length columns
    → (page : Buf) × (write_columns 0 0 columns buf ≡ some page)
      × (page 0 ≡ buf 0)
      × (validate_columns
            (length columns)
            0
            0
            (λ q. page (q + 1))
            (length columns)
            (map (λ (c : Column). c.name) columns)
            values
          ≡ some true)
validate_columns-write_columns len columns values buf u small room typed count =
    let (page, run, layout, before) =
      write_columns-Layout len columns 0 0 buf u small (omega arith) (omega (arith, room)) in
    (
      page,
      run,
      before 0 (omega arith),
      validate_columns-Layout len page columns 0 0 (length columns) [] values values []
          (omega arith) layout u refl refl refl typed count (omega (arith, room)),
    )
