-- ===== src/Utils/Serialize.antt =====
-- src/utils/serialize.c: big-endian encoding of machine words into byte buffers.
-- A buffer is a memory: each address holds a byte. `data + k` of the source is the address `k`
-- of a page, passed as an argument. A word of w bits is a number below 2 ^ w.
pub mod Laws
pub mod Double
use Prim.Native.Nat.{bit_or, bit_and}
use somedb.Base.Int.{ℤ, pos, negsuc}
use somedb.Base.{ℕ, ◌+◌, ◌-◌, ◌*◌, ◌/◌, ◌%◌, ◌^◌, Bool, true, false, ◌==◌, ltb, if◌then◌else◌}

abbrev pub Buf : Type 0
Buf = ℕ → ℕ

-- `buf[p] = v`, stored into a `uint8_t`.
unfoldable pub store : Buf → ℕ → ℕ → Buf
store buf p v q = if q == p then v % 256 else buf q

unfoldable pub encode_uint32 : ℕ → Buf → ℕ → Buf
unfolding store
encode_uint32 word buf p =
    let b0 = store buf p (bit_and (word / 2 ^ 24) 0xff) in
    let b1 = store b0 (p + 1) (bit_and (word / 2 ^ 16) 0xff) in
    let b2 = store b1 (p + 2) (bit_and (word / 2 ^ 8) 0xff) in store b2 (p + 3) (bit_and word 0xff)

unfoldable pub decode_uint32 : Buf → ℕ → ℕ
decode_uint32 buf p =
    bit_or (bit_or (bit_or (buf p * 2 ^ 24) (buf (p + 1) * 2 ^ 16)) (buf (p + 2) * 2 ^ 8))
      (buf (p + 3))

unfoldable pub encode_uint16 : ℕ → Buf → ℕ → Buf
unfolding store
encode_uint16 word buf p =
    store (store buf p (bit_and (word / 2 ^ 8) 0xff)) (p + 1) (bit_and word 0xff)

unfoldable pub decode_uint16 : Buf → ℕ → ℕ
decode_uint16 buf p = bit_or (buf p * 2 ^ 8) (buf (p + 1))

-- The casts between a signed number and its bit pattern.
abbrev pub word32 : ℤ → ℕ
word32 (pos n) = n % 2 ^ 32
word32 (negsuc n) = 2 ^ 32 - 1 - n % 2 ^ 32

abbrev pub signed32 : ℕ → ℤ
signed32 w = if ltb w (2 ^ 31) then pos w else negsuc (2 ^ 32 - 1 - w)

abbrev pub word16 : ℤ → ℕ
word16 (pos n) = n % 2 ^ 16
word16 (negsuc n) = 2 ^ 16 - 1 - n % 2 ^ 16

abbrev pub signed16 : ℕ → ℤ
signed16 w = if ltb w (2 ^ 15) then pos w else negsuc (2 ^ 16 - 1 - w)

unfoldable pub encode_int32 : ℤ → Buf → ℕ → Buf
encode_int32 i buf p = encode_uint32 (word32 i) buf p

unfoldable pub decode_int32 : Buf → ℕ → ℤ
decode_int32 buf p = signed32 (decode_uint32 buf p)

-- The parameter is an `int`; `encode_uint16` takes its low 16 bits.
unfoldable pub encode_int16 : ℤ → Buf → ℕ → Buf
encode_int16 i buf p = encode_uint16 (word16 i) buf p

unfoldable pub decode_int16 : Buf → ℕ → ℤ
decode_int16 buf p = signed16 (decode_uint16 buf p)

unfoldable pub encode_bool : Bool → Buf → ℕ → Buf
unfolding store
encode_bool b buf p = store buf p (if b then 1 else 0)

unfoldable pub decode_bool : Buf → ℕ → Bool
decode_bool buf p = if buf p == 0 then false else true
