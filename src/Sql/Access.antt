-- ===== src/Sql/Access.antt =====
-- include/sql/access_method.hpp and src/sql/access_method.cpp: the schema of a table, read from its file.
-- `none` is the end of the program in `read_page`, or a byte that names no type, for which the
-- column is made with a type that is NULL. `HeapfileAccess::scan` throws, and no object of
-- `BTreeIndexAccess` can be made.
pub mod Created
use somedb.Base.{
  ℕ, zero, suc, ◌+◌, ◌%◌, ◌^◌, ◌==◌, Option, none, some, List, [], ◌∷◌, if◌then◌else◌,
}
use somedb.Disk.File.{Files, read_page}
use somedb.Index.Page.{◌>>=◌}
use somedb.Index.Serial.{bytes_at}
use somedb.Sql.Primitive.{DataType, boolean_type, varchar_type, integer_type, decimal_type}
use somedb.Sql.Schema.{Column, Table}
use somedb.Sql.Token.{Text}
use somedb.Utils.Serialize.{Buf}

-- The `switch` on `ColumnType`.
unfoldable pub type_of : ℕ → Option DataType
type_of code =
    if code == 1
    then some boolean_type
    else if code == 2
    then some varchar_type
    else if code == 3
    then some integer_type
    else if code == 4
    then some decimal_type
    else none

-- The loop, by the rounds that are left. The cursor has 8 bits.
unfoldable pub decode_columns : ℕ → ℕ → Buf → Option (List Column)
decode_columns zero cursor page_data = some []
decode_columns (suc n) cursor page_data = do
  let col_name_len = page_data cursor
  let col_name = bytes_at page_data col_name_len (cursor + 1)
  col_type ← type_of (page_data (cursor + col_name_len + 1))
  table_cols ← decode_columns n ((cursor + (1 + col_name_len + 1)) % 2 ^ 8) page_data
  some (record { name = col_name; data_type = col_type } ∷ table_cols)

module _ (files : Files) where
  -- `HeapfileAccess::schema` of the table with this path, whose file is given.
  unfoldable pub schema : Text → files.File → Option Table
  schema path file = do
    page_data ← read_page files 1 file
    table_cols ← decode_columns (page_data 0) 1 page_data
    some (record { name = path; columns = table_cols })
