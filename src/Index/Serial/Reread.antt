-- ===== src/Index/Serial/Reread.antt =====
-- src/index/index_page.cpp: a leaf is read back from every memory that holds the bytes of the page
-- that `serialize` wrote, whatever lies behind the page.
use somedb.Base.{ℕ, ◌+◌, ◌*◌, ◌<◌, ◌≤◌, ◌≡◌, ◌∙◌, true, some, List, length, arith}
use somedb.Index.Codec.{record_codec}
use somedb.Index.Page.{Rid, BTreePage}
use somedb.Index.Page.Shift.{Entry, keys_of, values_of}
use somedb.Index.Serial.{page_size, header_size, read_entries, write_header, serialize, deserialize}
use somedb.Index.Serial.RoundTrip.{
  Header, decode_uint16_local, decode_uint32_local, write_header-Header, written, leaf_page,
  write_header-after,
}
use somedb.Index.Serial.Stored.{total_size, AllFit, Stored, Stored-page, read_entries-Stored}
use somedb.Utils.Serialize.{Buf, decode_bool}

-- A header is read from its 14 bytes.
Header-page :
    (page : BTreePage) (read data_ : Buf) (t : ℕ)
    → ((q : ℕ) → q < 14 → read q ≡ data_ q)
    → Header page data_ t
    → Header page read t
unfolding decode_bool
Header-page page read data_ t same h = record {
  start = decode_uint16_local read data_ 2 (λ q k. same q (omega arith)) ∙ h.start;
  next = decode_uint32_local read data_ 4 (λ q k. same q (omega arith)) ∙ h.next;
  rightmost = decode_uint32_local read data_ 8 (λ q k. same q (omega arith)) ∙ h.rightmost;
  flags = same 12 (omega arith) ∙ h.flags;
  leaf = rw (same 13 (omega arith)) h.leaf;
}

deserialize-Header :
    (flags rightmost next : ℕ) (es : List (Entry Rid)) (read : Buf) (fuel t : ℕ)
    → Header (leaf_page flags rightmost next es) read t
    → Stored record_codec read t es
    → AllFit record_codec es
    → t + total_size record_codec es ≡ page_size
    → length es < fuel
    → deserialize fuel read ≡ some (leaf_page flags rightmost next es)
unfolding deserialize
deserialize-Header flags rightmost next es read fuel t head stored fit ends enough =
    let back : read_entries record_codec fuel true read t ≡ some (keys_of es, values_of es) =
      read_entries-Stored record_codec fuel true read t es stored fit ends enough in
    rw (head.leaf, head.start, back, head.next, head.rightmost, head.flags)

-- `serialize` of a leaf with keys of 1 to 255 bytes, record ids and header fields in range, and
-- entries that fit the page gives a page, and the constructor reads the leaf from every memory with
-- the 4096 bytes of that page, with fuel above the number of entries.
pub deserialize-page_leaf :
    (flags rightmost next : ℕ) (es : List (Entry Rid)) (buf : Buf) (fuel : ℕ)
    → flags < 256
    → rightmost < 4294967296
    → next < 4294967296
    → AllFit record_codec es
    → header_size + 4 * length es + total_size record_codec es ≤ page_size
    → length es < fuel
    → (data_ : Buf) × (serialize (leaf_page flags rightmost next es) buf ≡ some data_)
      × ((read : Buf)
          → ((q : ℕ) → q < page_size → read q ≡ data_ q)
          → deserialize fuel read ≡ some (leaf_page flags rightmost next es))
unfolding serialize
deserialize-page_leaf flags rightmost next es buf fuel hf hr hn fit room enough =
    let page = leaf_page flags rightmost next es in
    let w = written record_codec es buf fit room in
    let s = header_size + 4 * length es in
    let data_ = write_header page (w.buf, s, w.space_end) in
    let head = write_header-Header page w.buf s w.space_end (omega (arith, w.ends)) hf hn hr in
    let low : 14 ≤ w.space_end = omega (arith, w.ends, room) in
    (
      data_,
      rw w.returns,
      λ read same.
          deserialize-Header flags rightmost next es read fuel w.space_end
            (Header-page page read data_ w.space_end (λ q k. same q (omega arith)) head)
            (Stored-page record_codec read w.buf w.space_end es w.ends
              (λ q k l. same q l ∙ write_header-after page w.buf s w.space_end q (omega arith))
              w.stored)
            fit w.ends enough,
    )
