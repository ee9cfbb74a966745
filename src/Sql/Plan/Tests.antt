-- ===== src/Sql/Plan/Tests.antt =====
-- A small plan, its expressions, and the schema of a table in a file.
use somedb.Base.{ℕ, ◌≡◌, refl, none, some, List, Option, [], ◌∷◌, ◌++◌, arith}
use somedb.Base.Int.{pos}
use somedb.Disk.Heap.{DiskManager}
use somedb.Disk.Heap.Table
use somedb.Disk.Heap.Table.{create_table}
use somedb.Disk.Samples.{test_files, unary, digits}
use somedb.Sql.Access.{schema, type_of}
use somedb.Sql.Access.Created.{schema-create_table}
use somedb.Sql.Logical.{LogicalExpr, constant, column, binary, op_divide, op_subtract, evaluate}
use somedb.Sql.Logical.Typed.{Result, evaluate-Result}
use somedb.Sql.Plan.{
  ColumnExpr, LogicalOperator, scan, selection, projection, stopped, pretty, plan_schema,
}
use somedb.Sql.Plan.Laws.{pretty-printed}
use somedb.Sql.Primitive.{boolean_type, integer_type, integer}
use somedb.Sql.Samples.{platform}
use somedb.Sql.Schema.{Column, Table}
use somedb.Sql.Token.{Text, text, text_eq}
use somedb.Utils.Serialize.{Buf}

abbrev column_a : Column
column_a = record { name = text "a"; data_type = integer_type }

abbrev table : Table
table = record { name = text "tab"; columns = column_a ∷ [] }

abbrev seven : LogicalExpr platform
seven = constant (integer platform (pos 7))

-- a / (a - 7)
abbrev quotient : LogicalExpr platform
quotient =
    binary (column (text "a") integer_type)
      (binary (column (text "a") integer_type) seven op_subtract) op_divide

abbrev row : Buf
row = λ q. q

evaluate-Result_example : Result platform row table quotient (evaluate platform quotient row table)
unfolding somedb.Sql.Logical.find_column text_eq
evaluate-Result_example =
    evaluate-Result platform row table quotient
      ((column_a, refl, refl), ((column_a, refl, refl), (pos 7, refl, refl)))

abbrev name_a : ColumnExpr
name_a = record { name = text "a"; return_type = integer_type }

abbrev plan : LogicalOperator platform
plan = projection (selection (scan (text "tab")) quotient) (name_a ∷ [])

abbrev catalog : Text → Option Table
catalog path = some table

pretty-printed_example :
    pretty platform catalog 3 plan 0 ≡ stopped (10 ∷ text "Projection: Column: a\t" ++ 10 ∷ 9 ∷ [])
unfolding somedb.Sql.Plan.plan_string somedb.Sql.Plan.columns_string somedb.Sql.Logical.expr_string
    somedb.Sql.Plan.tabs
pretty-printed_example =
    pretty-printed platform catalog plan (text "Projection: Column: a\t") 3 0 refl (omega arith)

abbrev two_columns : List Table.Column
two_columns =
    record { name_len = 1; name = text "a"; type_ = 3 }
    ∷ record { name_len = 1; name = text "b"; type_ = 1 }
    ∷ []

abbrev read_columns : List Column
read_columns = column_a ∷ record { name = text "b"; data_type = boolean_type } ∷ []

schema-create_table_example :
    (dm : DiskManager test_files digits unary) × (create_table test_files digits unary two_columns
        (λ n. n)
        (0, λ q. 0)
      ≡ some (some dm))
    × (schema test_files (text "tab") dm.file
        ≡ some (record { name = text "tab"; columns = read_columns }))
    × (create_table test_files digits unary two_columns (λ n. n) dm.file ≡ some none)
unfolding type_of
schema-create_table_example =
    schema-create_table test_files digits unary 1 two_columns read_columns (λ n. n) (0, λ q. 0)
      (text "tab") (λ k small. (somedb.Base.length (unary k), refl)) refl
      ((refl, refl, omega arith), ((refl, refl, omega arith), tt)) (omega arith) (omega arith) refl
