-- ===== src/Disk/Tuple/Laws.antt =====
-- src/disk/heapfile.c: the bytes of a tuple hold its values, and lie inside the buffer.
use somedb.Base.{
  ℕ, ◌+◌, ◌%◌, ◌^◌, ◌<◌, ◌≤◌, ◌≡◌, refl, sym, ap, subst, ◌∙◌, ◌==◌, true, false, List, [], ◌∷◌,
  length, if◌then◌else◌, arith,
}
use somedb.Base.Int.{pos_part, neg_part}
use somedb.Disk.HeapPage.Slots.{bytes_at_local, decode_uint16_at}
use somedb.Disk.Tuple.{
  ColumnValue, boolean, string, integer, decimal, value_size, tuple_size_from, encode_value,
  encode_values,
}
use somedb.Index.Codec.{encode_uint32-outside, encode_uint32-before}
use somedb.Index.Serial.{copy, bytes_at}
use somedb.Index.Serial.RoundTrip.{store-before}
use somedb.Index.Serial.Written.{
  bytes_at-eq, copy-inside, copy-after, copy-before, store-after, encode_uint16-after,
}
use somedb.Index.Tree.Meta.{encode_uint16-before}
use somedb.Utils.Serialize.{
  Buf, word32, encode_uint16, decode_uint16, decode_uint32, encode_int32, decode_int32, encode_bool,
  decode_bool,
}
use somedb.Utils.Serialize.Laws.{decode-encode_uint16, decode-encode_int32, decode-encode_bool}

-- A value in its range: a string shorter than 2 ^ 16, a 32-bit integer, the 8 bytes of a double.
abbrev pub Fits : ColumnValue → Type 0
Fits (boolean b) = Unit
Fits (string str) = length str < 65536
Fits (integer i) = (pos_part i < 2 ^ 31) × (neg_part i ≤ 2 ^ 31)
Fits (decimal d) = length d ≡ 8

abbrev pub AllFit : List ColumnValue → Type 0
AllFit [] = Unit
AllFit (v ∷ vs) = Fits v × AllFit vs

abbrev pub total : List ColumnValue → ℕ
total [] = 0
total (v ∷ vs) = value_size v + total vs

-- The decoders of src/utils/serialize.c find the value at an address.
abbrev pub Decodes : Buf → ℕ → ColumnValue → Type 0
Decodes buf p (boolean b) = decode_bool buf p ≡ (if b == 0 then false else true)
Decodes buf p (string str) =
    (decode_uint16 buf p ≡ length str) × (bytes_at buf (length str) (p + 2) ≡ str)
Decodes buf p (integer i) = decode_int32 buf p ≡ i
Decodes buf p (decimal d) = bytes_at buf 8 p ≡ d

-- The values stand one after another from `p` on.
abbrev pub Fields : Buf → ℕ → List ColumnValue → Type 0
Fields buf p [] = Unit
Fields buf p (v ∷ vs) = Decodes buf p v × Fields buf (p + value_size v) vs

encode_value-after :
    (v : ColumnValue) (buf : Buf) (p q : ℕ) → p + value_size v ≤ q → encode_value v buf p q ≡ buf q
unfolding encode_value value_size encode_bool encode_int32
encode_value-after (boolean b) buf p q h = store-after buf p _ q (omega arith)
encode_value-after (string str) buf p q h =
    let n = length str % 65536 in
    copy-after (encode_uint16 n buf p) (p + 2) n q str (omega arith)
    ∙ encode_uint16-after n buf p q (omega arith)
encode_value-after (integer i) buf p q h = encode_uint32-outside (word32 i) buf p q h
encode_value-after (decimal d) buf p q h = copy-after buf p 8 q d h

encode_value-before :
    (v : ColumnValue) (buf : Buf) (p q : ℕ) → q < p → encode_value v buf p q ≡ buf q
unfolding encode_value encode_bool encode_int32
encode_value-before (boolean b) buf p q h = store-before buf p _ q h
encode_value-before (string str) buf p q h =
    let n = length str % 65536 in
    copy-before (encode_uint16 n buf p) (p + 2) n q str (omega arith)
    ∙ encode_uint16-before n buf p q h
encode_value-before (integer i) buf p q h = encode_uint32-before (word32 i) buf p q h
encode_value-before (decimal d) buf p q h = copy-before buf p 8 q d h

encode_value-Decodes :
    (v : ColumnValue) (buf : Buf) (p : ℕ) → Fits v → Decodes (encode_value v buf p) p v
unfolding encode_value
encode_value-Decodes (boolean b) buf p h = decode-encode_bool _ buf p
encode_value-Decodes (string str) buf p h =
    let n : length str % 65536 ≡ length str = omega arith in
    let d₁ = encode_uint16 (length str) buf p in
    let d₂ = copy d₁ (p + 2) (length str) str in
    let len : decode_uint16 d₂ p ≡ length str =
      decode_uint16_at d₂ d₁ p (copy-before d₁ (p + 2) (length str) p str (omega arith))
        (copy-before d₁ (p + 2) (length str) (p + 1) str (omega arith))
      ∙ decode-encode_uint16 (length str) buf p h in
    rw n (len, bytes_at-eq d₂ str (p + 2) (λ i k. copy-inside d₁ (p + 2) (length str) i str k))
encode_value-Decodes (integer i) buf p h = decode-encode_int32 i buf p h.0 h.1
encode_value-Decodes (decimal d) buf p h =
    ap (λ (n : ℕ). bytes_at (copy buf p 8 d) n p) (sym h)
    ∙ bytes_at-eq (copy buf p 8 d) d p (λ i k. copy-inside buf p 8 i d (omega (arith, h)))

pub Decodes-cong :
    (a b : Buf) (p : ℕ) (v : ColumnValue)
    → Fits v
    → ((q : ℕ) → p ≤ q → q < p + value_size v → a q ≡ b q)
    → Decodes b p v
    → Decodes a p v
unfolding decode_bool decode_int32 decode_uint32 value_size
Decodes-cong a b p (boolean x) f h d = rw (h p (omega arith) (omega arith)) d
Decodes-cong a b p (string str) f h d = (
  decode_uint16_at a b p (h p (omega arith) (omega arith)) (h (p + 1) (omega arith) (omega arith))
      ∙ d.0,
  bytes_at_local a b (length str) (p + 2) (λ q k l. h q (omega arith) (omega arith)) ∙ d.1,
)
Decodes-cong a b p (integer i) f h d =
    rw
      (
        h p (omega arith) (omega arith),
        h (p + 1) (omega arith) (omega arith),
        h (p + 2) (omega arith) (omega arith),
        h (p + 3) (omega arith) (omega arith),
      )
      d
Decodes-cong a b p (decimal x) f h d =
    bytes_at_local a b 8 p (λ q k l. h q (omega arith) (omega arith)) ∙ d

encode_values-before :
    (vs : List ColumnValue) (buf : Buf) (p q : ℕ)
    → p + total vs < 65536
    → q < p
    → encode_values vs buf p q ≡ buf q
unfolding encode_values
encode_values-before [] buf p q room h = refl
encode_values-before (v ∷ vs) buf p q room h =
    let e : (p + value_size v) % 65536 ≡ p + value_size v = omega arith in
    rw e (
      encode_values-before vs (encode_value v buf p) (p + value_size v) q (omega arith)
        (omega arith))
    ∙ encode_value-before v buf p q h

encode_values-after :
    (vs : List ColumnValue) (buf : Buf) (p q : ℕ)
    → p + total vs < 65536
    → p + total vs ≤ q
    → encode_values vs buf p q ≡ buf q
unfolding encode_values
encode_values-after [] buf p q room h = refl
encode_values-after (v ∷ vs) buf p q room h =
    let e : (p + value_size v) % 65536 ≡ p + value_size v = omega arith in
    rw e (
      encode_values-after vs (encode_value v buf p) (p + value_size v) q (omega arith)
        (omega arith))
    ∙ encode_value-after v buf p q (omega arith)

pub encode_values-Fields :
    (vs : List ColumnValue) (buf : Buf) (p : ℕ)
    → AllFit vs
    → p + total vs < 65536
    → Fields (encode_values vs buf p) p vs
unfolding encode_values
encode_values-Fields [] buf p fit room = tt
encode_values-Fields (v ∷ vs) buf p fit room =
    let e : (p + value_size v) % 65536 ≡ p + value_size v = omega arith in
    let one = encode_value v buf p in
    let next = p + value_size v in
    let step : encode_values (v ∷ vs) buf p ≡ encode_values vs one next = rw e in
    subst (λ (b : Buf). Fields b p (v ∷ vs)) (sym step)
      (
        Decodes-cong (encode_values vs one next) one p v fit.0
            (λ q k l. encode_values-before vs one next q (omega arith) l)
            (encode_value-Decodes v buf p fit.0),
        encode_values-Fields vs one next fit.1 (omega arith),
      )

pub tuple_size_from-total :
    (vs : List ColumnValue) (n : ℕ) → n + total vs < 65536 → tuple_size_from n vs ≡ n + total vs
unfolding tuple_size_from
tuple_size_from-total [] n h = omega arith
tuple_size_from-total (v ∷ vs) n h =
    let e : (n + value_size v) % 65536 ≡ n + value_size v = omega arith in
    rw (e, tuple_size_from-total vs (n + value_size v) (omega arith)) (omega arith)

-- For values in their range whose sizes add up to less than 2 ^ 16, the size of the first loop is
-- their sum, the second loop writes no byte behind that size, and the decoders find each value at
-- the place that the sizes before it give.
pub encode_values-tuple :
    (vs : List ColumnValue) (tuple_buf : Buf) (q : ℕ)
    → AllFit vs
    → total vs < 65536
    → total vs ≤ q
    → (tuple_size_from 0 vs ≡ total vs)
      × (encode_values vs tuple_buf 0 q ≡ tuple_buf q)
      × Fields (encode_values vs tuple_buf 0) 0 vs
encode_values-tuple vs tuple_buf q fit room h = (
  tuple_size_from-total vs 0 (omega arith) ∙ omega arith,
  encode_values-after vs tuple_buf 0 q (omega arith) (omega arith),
  encode_values-Fields vs tuple_buf 0 fit (omega arith),
)
