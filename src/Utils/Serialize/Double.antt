-- ===== src/Utils/Serialize/Double.antt =====
-- src/utils/serialize.c: doubles, which are copied as the 8 bytes that the machine has for them.
use somedb.Base.{ℕ, List}
use somedb.Index.Serial.{copy, bytes_at}
use somedb.Utils.Serialize.{Buf}

abbrev pub encode_double : List ℕ → Buf → ℕ → Buf
encode_double data_ buf p = copy buf p 8 data_

abbrev pub decode_double : Buf → ℕ → List ℕ
decode_double buf p = bytes_at buf 8 p
