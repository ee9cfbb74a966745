-- ===== src/Utils/Serialize/Laws.antt =====
-- src/utils/serialize.c: the round trips of the word encodings, and what they leave alone.
use Prim.Native.Nat.{bit_or}
use somedb.Base.{
  ℕ, ◌+◌, ◌*◌, ◌/◌, ◌%◌, ◌^◌, ◌≤◌, ◌<◌, ◌≡◌, Bool, true, false, arith, ◌==◌, if◌then◌else◌,
}
use somedb.Base.Bits.{bit_or-shift, bit_and-byte}
use somedb.Base.Int.{ℤ, pos, negsuc, pos_part, neg_part}
use somedb.Utils.Serialize.{
  Buf, word32, signed32, word16, signed16, encode_int32, decode_int32, encode_int16, decode_int16,
  encode_uint32, decode_uint32, encode_uint16, decode_uint16, encode_bool, decode_bool,
}

-- The bytes that an encoder stores.
pub encode_uint32-bytes :
    (word : ℕ) (buf : Buf) (p q : ℕ)
    → encode_uint32 word buf p q ≡ (
        if q == p + 3
        then word % 256
        else if q == p + 2
        then word / 2 ^ 8 % 256
        else if q == p + 1
        then word / 2 ^ 16 % 256
        else if q == p
        then word / 2 ^ 24 % 256
        else buf q)
unfolding encode_uint32
encode_uint32-bytes word buf p q =
    rw
      (
        bit_and-byte (word / 2 ^ 24),
        bit_and-byte (word / 2 ^ 16),
        bit_and-byte (word / 2 ^ 8),
        bit_and-byte word,
      )
      (ground arith)

pub encode_uint16-bytes :
    (word : ℕ) (buf : Buf) (p q : ℕ)
    → encode_uint16 word buf p q
      ≡ (if q == p + 1 then word % 256 else if q == p then word / 2 ^ 8 % 256 else buf q)
unfolding encode_uint16
encode_uint16-bytes word buf p q =
    rw (bit_and-byte (word / 2 ^ 8), bit_and-byte word) (ground arith)

-- Four bytes read as a big-endian number.
pub decode_uint32-sum :
    (buf : Buf) (p : ℕ)
    → buf (p + 1) < 256
    → buf (p + 2) < 256
    → buf (p + 3) < 256
    → decode_uint32 buf p
      ≡ buf p * 2 ^ 24 + buf (p + 1) * 2 ^ 16 + buf (p + 2) * 2 ^ 8 + buf (p + 3)
unfolding decode_uint32
decode_uint32-sum buf p h₁ h₂ h₃ =
    let e₁ : bit_or (buf p * 2 ^ 24) (buf (p + 1) * 2 ^ 16)
        ≡ (buf p * 2 ^ 8 + buf (p + 1)) * 2 ^ 16 =
      omega (arith, bit_or-shift 24 (buf p) (buf (p + 1) * 2 ^ 16) (omega arith)) in
    let e₂ : bit_or ((buf p * 2 ^ 8 + buf (p + 1)) * 2 ^ 16) (buf (p + 2) * 2 ^ 8)
        ≡ (buf p * 2 ^ 16 + buf (p + 1) * 2 ^ 8 + buf (p + 2)) * 2 ^ 8 =
      omega (
        arith,
        bit_or-shift 16 (buf p * 2 ^ 8 + buf (p + 1)) (buf (p + 2) * 2 ^ 8) (omega arith),
      ) in
    rw (e₁, e₂)
      (omega (
        arith,
        bit_or-shift 8 (buf p * 2 ^ 16 + buf (p + 1) * 2 ^ 8 + buf (p + 2)) (buf (p + 3)) h₃,
      ))

pub decode_uint16-sum :
    (buf : Buf) (p : ℕ) → buf (p + 1) < 256 → decode_uint16 buf p ≡ buf p * 2 ^ 8 + buf (p + 1)
unfolding decode_uint16
decode_uint16-sum buf p h = bit_or-shift 8 (buf p) (buf (p + 1)) h

-- A 32-bit word that is encoded decodes to itself, whatever the buffer held.
pub decode-encode_uint32 :
    (word : ℕ) (buf : Buf) (p : ℕ)
    → word < 2 ^ 32
    → decode_uint32 (encode_uint32 word buf p) p ≡ word
decode-encode_uint32 word buf p h =
    let b = encode_uint32 word buf p in
    let e₀ : b p ≡ word / 2 ^ 24 % 256 = ground (arith, encode_uint32-bytes word buf p p) in
    let e₁ : b (p + 1) ≡ word / 2 ^ 16 % 256 =
      ground (arith, encode_uint32-bytes word buf p (p + 1)) in
    let e₂ : b (p + 2) ≡ word / 2 ^ 8 % 256 =
      ground (arith, encode_uint32-bytes word buf p (p + 2)) in
    let e₃ : b (p + 3) ≡ word % 256 = ground (arith, encode_uint32-bytes word buf p (p + 3)) in
    omega (arith, decode_uint32-sum b p (omega arith) (omega arith) (omega arith))

-- A 16-bit word that is encoded decodes to itself, whatever the buffer held.
pub decode-encode_uint16 :
    (word : ℕ) (buf : Buf) (p : ℕ)
    → word < 2 ^ 16
    → decode_uint16 (encode_uint16 word buf p) p ≡ word
decode-encode_uint16 word buf p h =
    let b = encode_uint16 word buf p in
    let e₀ : b p ≡ word / 2 ^ 8 % 256 = ground (arith, encode_uint16-bytes word buf p p) in
    let e₁ : b (p + 1) ≡ word % 256 = ground (arith, encode_uint16-bytes word buf p (p + 1)) in
    omega (arith, decode_uint16-sum b p (omega arith))

-- Encoding the word that a buffer of bytes holds changes no byte of it.
encode-decode_uint32 :
    (buf : Buf) (p q : ℕ)
    → ((r : ℕ) → buf r < 256)
    → encode_uint32 (decode_uint32 buf p) buf p q ≡ buf q
encode-decode_uint32 buf p q h =
    rw (decode_uint32-sum buf p (h (p + 1)) (h (p + 2)) (h (p + 3)), encode_uint32-bytes)
      (ground (arith, h p, h (p + 1), h (p + 2), h (p + 3)))

-- A Boolean decodes to itself, whatever the buffer held.
pub decode-encode_bool : (b : Bool) (buf : Buf) (p : ℕ) → decode_bool (encode_bool b buf p) p ≡ b
unfolding decode_bool encode_bool
decode-encode_bool true buf p = ground arith
decode-encode_bool false buf p = ground arith

word32-lt : (i : ℤ) → word32 i < 2 ^ 32
word32-lt (pos n) = omega arith
word32-lt (negsuc n) = omega arith

signed32-word32 : (i : ℤ) → pos_part i < 2 ^ 31 → neg_part i ≤ 2 ^ 31 → signed32 (word32 i) ≡ i
signed32-word32 (pos n) h k = ground arith
signed32-word32 (negsuc n) h k = ground arith

word16-lt : (i : ℤ) → word16 i < 2 ^ 16
word16-lt (pos n) = omega arith
word16-lt (negsuc n) = omega arith

signed16-word16 : (i : ℤ) → pos_part i < 2 ^ 15 → neg_part i ≤ 2 ^ 15 → signed16 (word16 i) ≡ i
signed16-word16 (pos n) h k = ground arith
signed16-word16 (negsuc n) h k = ground arith

-- An integer that fits an `int32_t` decodes to itself, whatever the buffer held.
pub decode-encode_int32 :
    (i : ℤ) (buf : Buf) (p : ℕ)
    → pos_part i < 2 ^ 31
    → neg_part i ≤ 2 ^ 31
    → decode_int32 (encode_int32 i buf p) p ≡ i
unfolding decode_int32 encode_int32
decode-encode_int32 i buf p h k =
    rw (decode-encode_uint32 (word32 i) buf p (word32-lt i)) (signed32-word32 i h k)

-- An integer that fits an `int16_t` decodes to itself, whatever the buffer held.
decode-encode_int16 :
    (i : ℤ) (buf : Buf) (p : ℕ)
    → pos_part i < 2 ^ 15
    → neg_part i ≤ 2 ^ 15
    → decode_int16 (encode_int16 i buf p) p ≡ i
unfolding decode_int16 encode_int16
decode-encode_int16 i buf p h k =
    rw (decode-encode_uint16 (word16 i) buf p (word16-lt i)) (signed16-word16 i h k)
