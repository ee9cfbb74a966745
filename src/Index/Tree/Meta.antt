-- ===== src/Index/Tree/Meta.antt =====
-- src/index/btree_index.cpp: the metadata page is read back.
use somedb.Base.{ℕ, ◌+◌, ◌<◌, ◌≤◌, ◌≡◌, ◌∙◌, ◌==◌, none, some, if◌then◌else◌, arith}
use somedb.Index.Codec.{encode_uint32-before}
use somedb.Index.Serial.Written.{store_self, store-after}
use somedb.Index.Serial.RoundTrip.{decode_uint16_local, decode_uint32_local, store-before}
use somedb.Index.Tree.{BTree, serialize, deserialize, btree_index}
use somedb.Utils.Serialize.{Buf, store, encode_uint32, decode_uint32, encode_uint16}
use somedb.Utils.Serialize.Laws.{encode_uint16-bytes, decode-encode_uint16, decode-encode_uint32}

pub encode_uint16-before : (w : ℕ) (buf : Buf) (p q : ℕ) → q < p → encode_uint16 w buf p q ≡ buf q
encode_uint16-before w buf p q h = ground (arith, encode_uint16-bytes w buf p q)

decode_uint32_from :
    (a b : Buf) (p : ℕ) → ((q : ℕ) → p ≤ q → a q ≡ b q) → decode_uint32 a p ≡ decode_uint32 b p
unfolding decode_uint32
decode_uint32_from a b p h =
    rw
      (h p (omega arith), h (p + 1) (omega arith), h (p + 2) (omega arith), h (p + 3) (omega arith))

-- For fields in their range, `deserialize` reads back the metadata page that `serialize` wrote,
-- whatever the page held, if the magic number is that of an index, and fails its assertion if not.
pub deserialize-serialize_metadata :
    (tree : BTree) (buf : Buf)
    → tree.magic_num < 4294967296
    → tree.max_size < 256
    → tree.root_pid < 4294967296
    → tree.node_count < 65536
    → deserialize (serialize tree buf) ≡ (if tree.magic_num == btree_index then some tree else none)
unfolding serialize deserialize
deserialize-serialize_metadata tree buf hm hs hr hn =
    let d₁ = encode_uint32 tree.magic_num buf 0 in
    let d₂ = encode_uint16 tree.node_count d₁ 4 in
    let d₃ = encode_uint32 tree.root_pid d₂ 7 in
    let d₄ = store d₃ 6 tree.max_size in
    let to₂ : (q : ℕ) → q < 6 → d₄ q ≡ d₂ q = λ q h.
      store-before d₃ 6 tree.max_size q h
      ∙ encode_uint32-before tree.root_pid d₂ 7 q (omega arith) in
    let to₁ : (q : ℕ) → q < 4 → d₄ q ≡ d₁ q =
      λ q h. to₂ q (omega arith) ∙ encode_uint16-before tree.node_count d₁ 4 q h in
    let magic = decode_uint32_local d₄ d₁ 0 to₁ ∙ decode-encode_uint32 tree.magic_num buf 0 hm in
    let count = decode_uint16_local d₄ d₂ 4 to₂ ∙ decode-encode_uint16 tree.node_count d₁ 4 hn in
    let root =
      decode_uint32_from d₄ d₃ 7 (λ q h. store-after d₃ 6 tree.max_size q (omega arith))
      ∙ decode-encode_uint32 tree.root_pid d₂ 7 hr in
    let size = store_self d₃ 6 tree.max_size hs in rw (magic, count, root, size)
