-- ===== src/Sql/Schema.antt =====
-- include/sql/schema.hpp and src/sql/schema.cpp: columns, tables, and the values of a row.
pub mod Offset
pub mod Row
pub mod Equal
mod Tests
use somedb.Base.{
  ℕ, ◌+◌, ◌%◌, ◌^◌, ◌==◌, ◌&&◌, Bool, true, false, Option, none, some, List, [], ◌∷◌, length,
  if◌then◌else◌,
}
use somedb.Sql.Primitive.{DataType, get_size, Outcome, value, no_column, Platform, PrimitiveValue}
use somedb.Sql.Primitive.Methods.{type_string, deserialize}
use somedb.Sql.Token.{Text, text_eq}
use somedb.Utils.Serialize.{Buf}

pub record Column : Type 0 where
  pub name : Text
  pub data_type : DataType

pub record Table : Type 0 where
  pub name : Text
  pub columns : List Column

-- The loop of `Row::getValue`, up to the address that `deserialize` is given; `none` is the
-- exception for a column that the schema has not. The size that is added is the one of the column
-- that is looked for.
unfoldable pub get_offset : Column → List Column → ℕ → Option ℕ
get_offset col [] curr_offset = none
get_offset col (sch_col ∷ columns) curr_offset =
    let rest = get_offset col columns ((curr_offset + get_size col.data_type) % 2 ^ 32) in
    if text_eq col.name sch_col.name then some curr_offset else rest

module _ (p : Platform) where
  -- `Row::getValue` of the row at the start of `data_`.
  unfoldable pub get_value : Buf → Column → Table → Outcome (PrimitiveValue p)
  get_value data_ col schema = elim (get_offset col schema.columns 0) [
    | none ↦ no_column
    | some curr_offset ↦ value (deserialize p col.data_type data_ curr_offset)
  ]

  -- `Column::operator==`
  unfoldable pub column_eq : Column → Column → Bool
  column_eq a b =
      text_eq b.name a.name && text_eq (type_string p b.data_type) (type_string p a.data_type)

  -- The loop of `Table::operator==`; both lists have the same length.
  unfoldable pub columns_eq : List Column → List Column → Bool
  columns_eq [] others = true
  columns_eq (c ∷ cs) [] = true
  columns_eq (c ∷ cs) (o ∷ os) =
      text_eq c.name o.name
      && (text_eq (type_string p c.data_type) (type_string p o.data_type) && columns_eq cs os)

  unfoldable pub table_eq : Table → Table → Bool
  table_eq a b =
      text_eq b.name a.name
      && (length b.columns == length a.columns && columns_eq a.columns b.columns)
