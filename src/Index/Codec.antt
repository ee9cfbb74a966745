-- ===== src/Index/Codec.antt =====
-- The two kinds of value that src/index/index_page.cpp writes into a page: the record ids of a
-- leaf and the child pointers of an internal node, behind one interface.
use somedb.Base.{ℕ, ◌+◌, ◌^◌, ◌<◌, ◌≤◌, ◌≡◌, ◌∙◌, arith}
use somedb.Index.Page.{Rid}
use somedb.Utils.Serialize.{Buf, encode_uint32, decode_uint32}
use somedb.Utils.Serialize.Laws.{encode_uint32-bytes, decode-encode_uint32}

-- Two memories agree from an address on.
abbrev pub AgreeFrom : ℕ → Buf → Buf → Type 0
AgreeFrom p a b = (q : ℕ) → p ≤ q → a q ≡ b q

-- Two memories agree between two addresses, the second one not included.
abbrev pub AgreeIn : ℕ → ℕ → Buf → Buf → Type 0
AgreeIn p e a b = (q : ℕ) → p ≤ q → q < e → a q ≡ b q

pub record Codec (V : Type 0) : Type 1 where
  pub width : ℕ
  pub write : V → Buf → ℕ → Buf
  pub read : Buf → ℕ → V
  pub Fits : V → Type 0
  pub write_outside : (v : V) (buf : Buf) (p q : ℕ) → p + width ≤ q → write v buf p q ≡ buf q
  pub write_before : (v : V) (buf : Buf) (p q : ℕ) → q < p → write v buf p q ≡ buf q
  pub read-write : (v : V) (buf : Buf) (p : ℕ) → Fits v → read (write v buf p) p ≡ v
  pub read_cong : (a b : Buf) (p : ℕ) → AgreeIn p (p + width) a b → read a p ≡ read b p

pub encode_uint32-outside :
    (w : ℕ) (buf : Buf) (p q : ℕ) → p + 4 ≤ q → encode_uint32 w buf p q ≡ buf q
encode_uint32-outside w buf p q h = ground (arith, encode_uint32-bytes w buf p q)

pub encode_uint32-before : (w : ℕ) (buf : Buf) (p q : ℕ) → q < p → encode_uint32 w buf p q ≡ buf q
encode_uint32-before w buf p q h = ground (arith, encode_uint32-bytes w buf p q)

pub decode_uint32_cong :
    (a b : Buf) (p : ℕ) → AgreeIn p (p + 4) a b → decode_uint32 a p ≡ decode_uint32 b p
unfolding decode_uint32
decode_uint32_cong a b p h = rw (
  h p (omega arith) (omega arith),
  h (p + 1) (omega arith) (omega arith),
  h (p + 2) (omega arith) (omega arith),
  h (p + 3) (omega arith) (omega arith),
)

abbrev write_rid : Rid → Buf → ℕ → Buf
write_rid v buf p = encode_uint32 v.slot_num (encode_uint32 v.pid buf p) (p + 4)

abbrev read_rid : Buf → ℕ → Rid
read_rid buf p = record { pid = decode_uint32 buf p; slot_num = decode_uint32 buf (p + 4) }

decode_before :
    (w : ℕ) (buf : Buf) (p : ℕ)
    → decode_uint32 (encode_uint32 w buf (p + 4)) p ≡ decode_uint32 buf p
unfolding decode_uint32
decode_before w buf p = rw (
  encode_uint32-before w buf (p + 4) p (omega arith),
  encode_uint32-before w buf (p + 4) (p + 1) (omega arith),
  encode_uint32-before w buf (p + 4) (p + 2) (omega arith),
  encode_uint32-before w buf (p + 4) (p + 3) (omega arith),
)

pub read-write_rid :
    (v : Rid) (buf : Buf) (p : ℕ)
    → (v.pid < 2 ^ 32) × (v.slot_num < 2 ^ 32)
    → read_rid (write_rid v buf p) p ≡ v
read-write_rid v buf p (h, k) =
    let e =
      decode_before v.slot_num (encode_uint32 v.pid buf p) p ∙ decode-encode_uint32 v.pid buf p h in
    let f = decode-encode_uint32 v.slot_num (encode_uint32 v.pid buf p) (p + 4) k in
    λ i. record { pid = e i; slot_num = f i }

pub write_rid-outside : (v : Rid) (buf : Buf) (p q : ℕ) → p + 8 ≤ q → write_rid v buf p q ≡ buf q
write_rid-outside v buf p q h =
    encode_uint32-outside v.slot_num (encode_uint32 v.pid buf p) (p + 4) q (omega arith)
    ∙ encode_uint32-outside v.pid buf p q (omega arith)

pub write_rid-before : (v : Rid) (buf : Buf) (p q : ℕ) → q < p → write_rid v buf p q ≡ buf q
write_rid-before v buf p q h =
    encode_uint32-before v.slot_num (encode_uint32 v.pid buf p) (p + 4) q (omega arith)
    ∙ encode_uint32-before v.pid buf p q h

pub read_rid_cong : (a b : Buf) (p : ℕ) → AgreeIn p (p + 8) a b → read_rid a p ≡ read_rid b p
read_rid_cong a b p h =
    let e = decode_uint32_cong a b p (λ q k l. h q k (omega arith)) in
    let f = decode_uint32_cong a b (p + 4) (λ q k l. h q (omega arith) (omega arith)) in
    λ i. record { pid = e i; slot_num = f i }

abbrev pub record_codec : Codec Rid
record_codec = record {
  width = 8;
  write = write_rid;
  read = read_rid;
  Fits = λ v. (v.pid < 2 ^ 32) × (v.slot_num < 2 ^ 32);
  write_outside = write_rid-outside;
  write_before = write_rid-before;
  read-write = read-write_rid;
  read_cong = read_rid_cong;
}

abbrev pub child_codec : Codec ℕ
child_codec = record {
  width = 4;
  write = encode_uint32;
  read = decode_uint32;
  Fits = λ v. v < 2 ^ 32;
  write_outside = encode_uint32-outside;
  write_before = encode_uint32-before;
  read-write = decode-encode_uint32;
  read_cong = decode_uint32_cong;
}
