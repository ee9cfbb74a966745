-- ===== src/Sql/Logical.antt =====
-- include/sql/logical_expression.hpp and src/sql/logical_expression.cpp: expressions that are
-- evaluated against a row.
pub mod Typed
use somedb.Base.{◌++◌, Option, none, some, List, [], ◌∷◌, if◌then◌else◌}
use somedb.Sql.Primitive.{DataType, Outcome, no_column, Platform, PrimitiveValue, ◌>>=◌}
use somedb.Sql.Primitive.Methods.{type_string, add, subtract, multiply, divide}
use somedb.Sql.Schema.{Column, Table, get_value}
use somedb.Sql.Token.{Text, text, text_eq}
use somedb.Utils.Serialize.{Buf}

pub data BinaryOpType : Type 0 where
  op_add op_subtract op_divide op_multiply : BinaryOpType

-- `std::find_if` with the test of the name.
unfoldable pub find_column : Text → List Column → Option Column
find_column name [] = none
find_column name (col ∷ columns) =
    if text_eq col.name name then some col else find_column name columns

module _ (p : Platform) where
  -- `ConstantLogicalExpr`, `ColumnLogicalExpr` with its `return_type`, `BinaryLogicalExpr` with its
  -- two children.
  pub data LogicalExpr : Type 0 where
    constant : PrimitiveValue p → LogicalExpr
    column : Text → DataType → LogicalExpr
    binary : LogicalExpr → LogicalExpr → BinaryOpType → LogicalExpr

  unfoldable pub apply :
      BinaryOpType → PrimitiveValue p → PrimitiveValue p → Outcome (PrimitiveValue p)
  apply op_add lhs rhs = add p lhs rhs
  apply op_subtract lhs rhs = subtract p lhs rhs
  apply op_multiply lhs rhs = multiply p lhs rhs
  apply op_divide lhs rhs = divide p lhs rhs

  unfoldable pub evaluate : LogicalExpr → Buf → Table → Outcome (PrimitiveValue p)
  evaluate (constant v) row table = Outcome.value v
  evaluate (column name return_type) row table = elim (find_column name table.columns) [
    | none ↦ no_column
    | some schema_col ↦ get_value p row schema_col table
  ]
  evaluate (binary l r op) row table = do
    lhs ← evaluate l row table
    rhs ← evaluate r row table
    apply op lhs rhs

  unfoldable pub op_string : BinaryOpType → Text
  op_string op_add = text "+"
  op_string op_subtract = text "-"
  op_string op_multiply = text "*"
  op_string op_divide = text "/"

  unfoldable pub expr_string : LogicalExpr → Text
  expr_string (constant v) = type_string p v.type
  expr_string (column name return_type) = text "Column: " ++ name
  expr_string (binary l r op) = expr_string l ++ (op_string op ++ expr_string r)
