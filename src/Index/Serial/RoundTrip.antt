-- ===== src/Index/Serial/RoundTrip.antt =====
-- src/index/index_page.cpp: a page that `serialize` wrote is read back by the constructor.
use somedb.Base.{
  ℕ, zero, suc, ◌+◌, ◌*◌, ◌<◌, ◌≤◌, ◌≡◌, refl, sym, ap, ◌∙◌, subst, true, false, none, some, List,
  [], ◌∷◌, length, drop, arith, ltb,
}
use somedb.Index.Codec.{
  Codec, AgreeFrom, record_codec, child_codec, encode_uint32-outside, encode_uint32-before,
}
use somedb.Index.Page.{Rid, BTreePage, records, children, ◌>>=◌}
use somedb.Index.Page.Shift.{Entry, keys_of, values_of}
use somedb.Index.Serial.{
  page_size, header_size, write_entries, read_entries, write_header, serialize, deserialize,
}
use somedb.Index.Serial.Entries.{WrittenAll, write_entries-Stored}
use somedb.Index.Serial.Stored.{total_size, AllFit, Stored, Stored-cong, read_entries-Stored}
use somedb.Index.Serial.Written.{store_self, store-after, encode_uint16-after}
use somedb.Utils.Serialize.{
  Buf, store, encode_uint16, encode_uint32, decode_uint16, decode_uint32, encode_bool, decode_bool,
}
use somedb.Utils.Serialize.Laws.{decode-encode_uint16, decode-encode_uint32, decode-encode_bool}

pub store-before : (buf : Buf) (p v q : ℕ) → q < p → store buf p v q ≡ buf q
unfolding store
store-before buf p v q h = ground arith

-- The header lies in front of the entries.
pub write_header-after :
    (page : BTreePage) (buf : Buf) (s t q : ℕ) → 14 ≤ q → write_header page (buf, s, t) q ≡ buf q
unfolding write_header encode_bool
write_header-after page buf s t q h =
    let d₁ = encode_uint16 s buf 0 in
    let d₂ = encode_uint16 t d₁ 2 in
    let d₃ = encode_uint32 page.next d₂ 4 in
    let d₄ = encode_uint32 page.rightmost_ptr d₃ 8 in
    let d₅ = store d₄ 12 page.flags in
    store-after d₅ 13 _ q (omega arith)
    ∙ store-after d₄ 12 page.flags q (omega arith)
    ∙ encode_uint32-outside page.rightmost_ptr d₃ 8 q (omega arith)
    ∙ encode_uint32-outside page.next d₂ 4 q (omega arith)
    ∙ encode_uint16-after t d₁ 2 q (omega arith)
    ∙ encode_uint16-after s buf 0 q (omega arith)

-- What a header says.
pub record Header (page : BTreePage) (buf : Buf) (space_end : ℕ) : Type 0 where
  pub start : decode_uint16 buf 2 ≡ space_end
  pub next : decode_uint32 buf 4 ≡ page.next
  pub rightmost : decode_uint32 buf 8 ≡ page.rightmost_ptr
  pub flags : buf 12 ≡ page.flags
  pub leaf : decode_bool buf 13 ≡ page.is_leaf

pub decode_uint16_local :
    (a b : Buf) (p : ℕ) → ((q : ℕ) → q < p + 2 → a q ≡ b q) → decode_uint16 a p ≡ decode_uint16 b p
unfolding decode_uint16
decode_uint16_local a b p h = rw (h p (omega arith), h (p + 1) (omega arith))

pub decode_uint32_local :
    (a b : Buf) (p : ℕ) → ((q : ℕ) → q < p + 4 → a q ≡ b q) → decode_uint32 a p ≡ decode_uint32 b p
unfolding decode_uint32
decode_uint32_local a b p h =
    rw
      (h p (omega arith), h (p + 1) (omega arith), h (p + 2) (omega arith), h (p + 3) (omega arith))

pub write_header-Header :
    (page : BTreePage) (buf : Buf) (s t : ℕ)
    → t < 65536
    → page.flags < 256
    → page.next < 4294967296
    → page.rightmost_ptr < 4294967296
    → Header page (write_header page (buf, s, t)) t
unfolding write_header encode_bool
write_header-Header page buf s t ht hf hn hr =
    let d₁ = encode_uint16 s buf 0 in
    let d₂ = encode_uint16 t d₁ 2 in
    let d₃ = encode_uint32 page.next d₂ 4 in
    let d₄ = encode_uint32 page.rightmost_ptr d₃ 8 in
    let d₅ = store d₄ 12 page.flags in
    let d₆ = encode_bool page.is_leaf d₅ 13 in
    let to₅ : (q : ℕ) → q < 13 → d₆ q ≡ d₅ q = λ q h. store-before d₅ 13 _ q h in
    let to₄ : (q : ℕ) → q < 12 → d₆ q ≡ d₄ q =
      λ q h. to₅ q (omega arith) ∙ store-before d₄ 12 page.flags q h in
    let to₃ : (q : ℕ) → q < 8 → d₆ q ≡ d₃ q =
      λ q h. to₄ q (omega arith) ∙ encode_uint32-before page.rightmost_ptr d₃ 8 q h in
    let to₂ : (q : ℕ) → q < 4 → d₆ q ≡ d₂ q =
      λ q h. to₃ q (omega arith) ∙ encode_uint32-before page.next d₂ 4 q h in
    let own : d₅ 12 ≡ page.flags = store_self d₄ 12 page.flags hf in
    record {
      start = decode_uint16_local d₆ d₂ 2 to₂ ∙ decode-encode_uint16 t d₁ 2 ht;
      next = decode_uint32_local d₆ d₃ 4 to₃ ∙ decode-encode_uint32 page.next d₂ 4 hn;
      rightmost = decode_uint32_local d₆ d₄ 8 to₄ ∙ decode-encode_uint32 page.rightmost_ptr d₃ 8 hr;
      flags = to₅ 12 (omega arith) ∙ own;
      leaf = decode-encode_bool page.is_leaf d₅ 13;
    }

-- A node as a page: the fields of the header, with the entries as keys and values.
abbrev pub leaf_page : ℕ → ℕ → ℕ → List (Entry Rid) → BTreePage
leaf_page flags rightmost_ptr next es = record {
  is_leaf = true;
  keys = keys_of es;
  flags = flags;
  rightmost_ptr = rightmost_ptr;
  next = next;
  values = records (values_of es);
}

abbrev pub internal_page : ℕ → ℕ → ℕ → List (Entry ℕ) → BTreePage
internal_page flags rightmost_ptr next es = record {
  is_leaf = false;
  keys = keys_of es;
  flags = flags;
  rightmost_ptr = rightmost_ptr;
  next = next;
  values = children (values_of es);
}

length-keys_of : {V : Type 0} (es : List (Entry V)) → length (keys_of es) ≡ length es
length-keys_of [] = refl
length-keys_of (e ∷ es) = ap suc (length-keys_of es)

drop-length : {A : Type 0} (xs : List A) → drop (length xs) xs ≡ []
drop-length [] = refl
drop-length (x ∷ xs) = drop-length xs

module _ {V : Type 0} (codec : Codec V) where
  -- The loop of `serialize` over all entries of a page that has room for them.
  pub written :
      (es : List (Entry V)) (buf : Buf)
      → AllFit codec es
      → header_size + 4 * length es + total_size codec es ≤ page_size
      → WrittenAll codec es
          (write_entries codec
            (length (keys_of es))
            (keys_of es)
            (values_of es)
            (buf, header_size, page_size))
          (header_size + 4 * length es)
  written es buf fit room =
      let e = drop-length es in
      let here : Stored codec buf page_size (drop (length es) es) =
        subst (Stored codec buf page_size) (sym e) refl in
      let none_left : page_size + total_size codec (drop (length es) es) ≡ page_size =
        ap (λ (t : List (Entry V)). 4096 + total_size codec t) e in
      rw (length-keys_of es) (
        write_entries-Stored codec (length es) es buf header_size page_size (omega arith) fit here
          none_left room)

  -- The entries of a written page, read back behind its header.
  read_back :
      (page : BTreePage) (fuel : ℕ) (es : List (Entry V)) (buf : Buf) (s t : ℕ)
      → Stored codec buf t es
      → AllFit codec es
      → 14 ≤ t
      → t + total_size codec es ≡ page_size
      → length es < fuel
      → read_entries codec fuel page.is_leaf (write_header page (buf, s, t)) t
        ≡ some (keys_of es, values_of es)
  read_back page fuel es buf s t st fit h total enough =
      let after = write_header page (buf, s, t) in
      let agree : AgreeFrom t after buf = λ q k. write_header-after page buf s t q (omega arith) in
      read_entries-Stored codec fuel page.is_leaf after t es
        (Stored-cong codec after buf t es agree st) fit total enough

-- A leaf with keys of 1 to 255 bytes, record ids and header fields in range, and entries that fit
-- the page, is read back from its serialized page, with fuel above the number of entries.
pub deserialize-serialize_leaf :
    (flags rightmost_ptr next : ℕ) (es : List (Entry Rid)) (buf : Buf) (fuel : ℕ)
    → flags < 256
    → rightmost_ptr < 4294967296
    → next < 4294967296
    → AllFit record_codec es
    → header_size + 4 * length es + total_size record_codec es ≤ page_size
    → length es < fuel
    → serialize (leaf_page flags rightmost_ptr next es) buf >>= deserialize fuel
      ≡ some (leaf_page flags rightmost_ptr next es)
unfolding serialize deserialize
deserialize-serialize_leaf flags rightmost_ptr next es buf fuel hf hr hn fit room enough =
    let page = leaf_page flags rightmost_ptr next es in
    let w = written record_codec es buf fit room in
    let s = header_size + 4 * length es in
    let head = write_header-Header page w.buf s w.space_end (omega (arith, w.ends)) hf hn hr in
    let back =
      read_back record_codec page fuel es w.buf s w.space_end w.stored fit (omega (arith, w.ends))
        w.ends enough in
    rw (w.returns, head.leaf, head.start, back, head.next, head.rightmost, head.flags)

-- An internal node with keys of 1 to 255 bytes, children and header fields in range, and entries
-- that fit the page, is read back from its serialized page, with fuel above the number of entries.
pub deserialize-serialize_internal :
    (flags rightmost_ptr next : ℕ) (es : List (Entry ℕ)) (buf : Buf) (fuel : ℕ)
    → flags < 256
    → rightmost_ptr < 4294967296
    → next < 4294967296
    → AllFit child_codec es
    → header_size + 4 * length es + total_size child_codec es ≤ page_size
    → length es < fuel
    → serialize (internal_page flags rightmost_ptr next es) buf >>= deserialize fuel
      ≡ some (internal_page flags rightmost_ptr next es)
unfolding serialize deserialize
deserialize-serialize_internal flags rightmost_ptr next es buf fuel hf hr hn fit room enough =
    let page = internal_page flags rightmost_ptr next es in
    let w = written child_codec es buf fit room in
    let s = header_size + 4 * length es in
    let head = write_header-Header page w.buf s w.space_end (omega (arith, w.ends)) hf hn hr in
    let back =
      read_back child_codec page fuel es w.buf s w.space_end w.stored fit (omega (arith, w.ends))
        w.ends enough in
    rw (w.returns, head.leaf, head.start, back, head.next, head.rightmost, head.flags)

-- An internal node: where the cursor meets a length of 0 in front of the page's end, the loop
-- never ends.
pub read_entries-stuck :
    (fuel : ℕ) (buf : Buf) (cursor : ℕ)
    → cursor < page_size
    → buf cursor ≡ 0
    → read_entries child_codec fuel false buf cursor ≡ none
unfolding read_entries
read_entries-stuck zero buf cursor h z = refl
read_entries-stuck (suc fuel) buf cursor h z =
    let inside : ltb cursor 4096 ≡ true = ground arith in
    rw (inside, z) (read_entries-stuck fuel buf cursor h z)
