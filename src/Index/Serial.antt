-- ===== src/Index/Serial.antt =====
-- src/index/index_page.cpp: a page of the index as bytes, `BTreePage::serialize` and
-- `BTreePage::BTreePage(u8 data[PAGE_SIZE])`.
pub mod Stored
pub mod Written
pub mod Entries
pub mod RoundTrip
pub mod Reread
use somedb.Base.{
  ℕ, zero, suc, ◌+◌, ◌-◌, ◌*◌, ◌%◌, ◌^◌, ◌==◌, ltb, leb, ◌&&◌, Bool, true, false, Option, none,
  some, List, [], ◌∷◌, ◌++◌, length, get_or, if◌then◌else◌,
}
use somedb.Index.Codec.{Codec, record_codec, child_codec}
use somedb.Index.Key.{BTreeKey}
use somedb.Index.Page.{Rid, Values, records, children, BTreePage, at, ◌>>=◌}
use somedb.Utils.Serialize.{
  Buf, store, encode_uint32, decode_uint32, encode_uint16, decode_uint16, encode_bool, decode_bool,
}

abbrev pub page_size : ℕ
page_size = 4096

-- The macro `INDEX_PAGE_HEADER_SIZE`: it ends in `IS_LEAF_OFFSET`, 13, where a size of 1 is meant.
abbrev pub header_size : ℕ
header_size = 26

-- `memcpy(buf + p, src, n)`
unfoldable pub copy : Buf → ℕ → ℕ → List ℕ → Buf
copy buf p n src q = if leb p q && ltb q (p + n) then get_or src (q - p) 0 else buf q

-- `n` bytes from `p` on.
unfoldable pub bytes_at : Buf → ℕ → ℕ → List ℕ
bytes_at buf zero p = []
bytes_at buf (suc n) p = buf p ∷ bytes_at buf n (p + 1)

module _ {V : Type 0} (codec : Codec V) where
  -- The buffer with `available_space_start` and `available_space_end`.
  unfoldable pub write_entry : BTreeKey → V → Buf × ℕ × ℕ → Buf × ℕ × ℕ
  write_entry key val (data₀, space_start, space_end) =
      let kv_size = (codec.width + key.size + 1) % 2 ^ 16 in
      let kv_start = (space_end + 2 ^ 16 - kv_size) % 2 ^ 16 in
      let data₁ = store data₀ kv_start key.size in
      let data₂ = copy data₁ (kv_start + 1) key.size key.bytes in
      let data₃ = codec.write val data₂ (kv_start + 1 + key.size) in
      let data₄ = encode_uint16 kv_start data₃ space_start in
      let data₅ = encode_uint16 kv_size data₄ (space_start + 2) in
      (data₅, (space_start + 4) % 2 ^ 16, kv_start)

  -- `while (--i >= 0)`, by the entries that are left.
  unfoldable pub write_entries : ℕ → List BTreeKey → List V → Buf × ℕ × ℕ → Option (Buf × ℕ × ℕ)
  write_entries zero keys values s = some s
  write_entries (suc i) keys values s = do
    key ← at keys i
    val ← at values i
    write_entries i keys values (write_entry key val s)

  -- `while (kv_pairs_cursor < PAGE_SIZE)`. A length of 0 is skipped in a leaf; in an internal node
  -- the cursor stays, since the assignment is the first branch of a conditional expression only.
  unfoldable pub read_entries : ℕ → Bool → Buf → ℕ → Option (List BTreeKey × List V)
  read_entries zero is_leaf buf cursor = none
  read_entries (suc fuel) is_leaf buf cursor =
      let len = buf cursor in
      let skipped =
        read_entries fuel is_leaf buf (if is_leaf then (cursor + 8) % 2 ^ 16 else cursor) in
      let value_at = (cursor + 1 + len) % 2 ^ 16 in
      let rest = do
        (keys, values) ← read_entries fuel is_leaf buf ((value_at + codec.width) % 2 ^ 16)
        some (
          record { bytes = bytes_at buf len (cursor + 1); size = len } ∷ keys,
          codec.read buf value_at ∷ values,
        )
      in if ltb cursor page_size then (if len == 0 then skipped else rest) else some ([], [])

unfoldable pub write_header : BTreePage → Buf × ℕ × ℕ → Buf
write_header page (data₀, space_start, space_end) =
    let data₁ = encode_uint16 space_start data₀ 0 in
    let data₂ = encode_uint16 space_end data₁ 2 in
    let data₃ = encode_uint32 page.next data₂ 4 in
    let data₄ = encode_uint32 page.rightmost_ptr data₃ 8 in
    let data₅ = store data₄ 12 page.flags in encode_bool page.is_leaf data₅ 13

-- A value of the other kind is `std::bad_variant_access` in the first round, as a missing one is.
-- `buf` is what the freshly allocated page holds, which the source does not initialise.
unfoldable pub serialize : BTreePage → Buf → Option Buf
serialize page buf = do
  s ← elim page.values [
    | records rs ↦
        if page.is_leaf
        then write_entries record_codec (length page.keys) page.keys rs
            (buf, header_size, page_size)
        else write_entries child_codec (length page.keys) page.keys [] (buf, header_size, page_size)
    | children cs ↦
        if page.is_leaf
        then write_entries record_codec (length page.keys) page.keys []
            (buf, header_size, page_size)
        else write_entries child_codec (length page.keys) page.keys cs (buf, header_size, page_size)
  ]
  some (write_header page s)

abbrev pub page_of : Buf → Bool → List BTreeKey → Values → BTreePage
page_of buf is_leaf keys values = record {
  is_leaf = is_leaf;
  keys = keys;
  flags = buf 12;
  rightmost_ptr = decode_uint32 buf 8;
  next = decode_uint32 buf 4;
  values = values;
}

unfoldable pub deserialize : ℕ → Buf → Option BTreePage
deserialize fuel buf =
    let start = decode_uint16 buf 2 in
    if decode_bool buf 13
    then (do
      (keys, rs) ← read_entries record_codec fuel true buf start
      some (page_of buf true keys (records rs)))
    else (do
      (keys, cs) ← read_entries child_codec fuel false buf start
      some (page_of buf false keys (children cs)))
