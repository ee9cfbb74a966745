-- ===== src/Disk/Tuple.antt =====
-- src/disk/heapfile.c: the bytes that `add_tuple` makes of the values of a tuple.
pub mod Laws
use somedb.Base.{ℕ, ◌+◌, ◌%◌, ◌^◌, ◌==◌, true, false, List, [], ◌∷◌, length, if◌then◌else◌}
use somedb.Base.Int.{ℤ}
use somedb.Index.Serial.{copy, bytes_at}
use somedb.Sql.Token.{Text}
use somedb.Utils.Serialize.Double.{encode_double}
use somedb.Utils.Serialize.{Buf, encode_uint16, encode_int32, encode_bool}

-- `ColumnValue` with the `ColumnType` that says which member it is. A string has no zero byte; a
-- `double` is the 8 bytes that the machine has for it.
pub data ColumnValue : Type 0 where
  boolean : ℕ → ColumnValue
  string : Text → ColumnValue
  integer : ℤ → ColumnValue
  decimal : List ℕ → ColumnValue

-- What one column adds to the size, with the length of a string in 16 bits.
unfoldable pub value_size : ColumnValue → ℕ
value_size (boolean b) = 1
value_size (string str) = 2 + length str % 2 ^ 16
value_size (integer i) = 4
value_size (decimal d) = 8

-- The first loop of `add_tuple`.
unfoldable pub tuple_size_from : ℕ → List ColumnValue → ℕ
tuple_size_from tuple_size [] = tuple_size
tuple_size_from tuple_size (v ∷ vs) = tuple_size_from ((tuple_size + value_size v) % 2 ^ 16) vs

unfoldable pub encode_value : ColumnValue → Buf → ℕ → Buf
encode_value (boolean b) buf p = encode_bool (if b == 0 then false else true) buf p
encode_value (string str) buf p =
    copy (encode_uint16 (length str % 2 ^ 16) buf p) (p + 2) (length str % 2 ^ 16) str
encode_value (integer i) buf p = encode_int32 i buf p
encode_value (decimal d) buf p = encode_double d buf p

-- The second loop.
unfoldable pub encode_values : List ColumnValue → Buf → ℕ → Buf
encode_values [] tuple_buf tuple_buf_offset = tuple_buf
encode_values (v ∷ vs) tuple_buf tuple_buf_offset =
    encode_values vs (encode_value v tuple_buf tuple_buf_offset)
      ((tuple_buf_offset + value_size v) % 2 ^ 16)

-- `tuple_buf`, whose bytes are not initialised before.
unfoldable pub tuple_bytes : List ColumnValue → Buf → List ℕ
tuple_bytes vs tuple_buf = bytes_at (encode_values vs tuple_buf 0) (tuple_size_from 0 vs) 0
