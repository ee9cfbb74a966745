-- ===== src/Sql/Plan.antt =====
-- include/sql/logical_plan.hpp and src/sql/logical_plan.cpp: the operators of a plan, their schemas and
-- their strings. `none` is to read through a pointer that is NULL, or a schema that cannot be read.
pub mod Laws
mod Tests
use somedb.Base.{
  ℕ, zero, suc, ◌+◌, ◌++◌, Option, none, some, List, [], ◌∷◌, length, get_elem?, ltb, true, false,
}
use somedb.Index.Page.{◌>>=◌}
use somedb.Sql.Logical.{LogicalExpr, expr_string, column}
use somedb.Sql.Primitive.{DataType, Platform}
use somedb.Sql.Schema.{Column, Table}
use somedb.Sql.Token.{Text, text}

pub data AggregateOperator : Type 0 where
  count avg sum min max : AggregateOperator

-- `ColumnLogicalExpr`
pub record ColumnExpr : Type 0 where
  pub name : Text
  pub return_type : DataType

-- What is printed, by a `pretty` that returns, and by one that reads through a pointer that is NULL.
pub data Run : Type 0 where
  finished stopped : Text → Run
  out_of_fuel : Run

abbrev pub then : Text → Run → (Text → Run) → Run
then out (finished more) f = f (out ++ more)
then out (stopped more) f = stopped (out ++ more)
then out out_of_fuel f = out_of_fuel

unfoldable pub tabs : ℕ → Text
tabs zero = []
tabs (suc i) = 9 ∷ tabs i

module _ (p : Platform) where
  -- A `LogicalOperatorRef` that is NULL is `null`. A scan has an access method, which is its path.
  pub data LogicalOperator : Type 0 where
    null : LogicalOperator
    scan : Text → LogicalOperator
    selection : LogicalOperator → LogicalExpr p → LogicalOperator
    projection : LogicalOperator → List ColumnExpr → LogicalOperator
    aggregation : LogicalOperator → ColumnExpr → ColumnExpr → AggregateOperator → LogicalOperator

  abbrev pub column_of : ColumnExpr → Column
  column_of col = record { name = col.name; data_type = col.return_type }

  -- The loop of `LogicalProjection::schema`.
  unfoldable pub projected : List ColumnExpr → List Column
  projected [] = []
  projected (col ∷ cols) = column_of col ∷ projected cols

  -- The loop of `LogicalProjection::toString`.
  unfoldable pub columns_string : List ColumnExpr → Text
  columns_string [] = []
  columns_string (col ∷ cols) =
      expr_string p (column col.name col.return_type) ++ (text "\t" ++ columns_string cols)

  -- The children, and the operator that is left: `input` is moved into them.
  unfoldable pub children : LogicalOperator → Option (List LogicalOperator × LogicalOperator)
  children null = none
  children (scan path) = some ([], scan path)
  children (selection input expr) = some (input ∷ [], selection null expr)
  children (projection input cols) = some (input ∷ [], projection null cols)
  children (aggregation input ac gc op) = some (input ∷ [], aggregation null ac gc op)

  module _ (access_schema : Text → Option Table) where
    unfoldable pub plan_schema : LogicalOperator → Option Table
    plan_schema null = none
    plan_schema (scan path) = access_schema path
    plan_schema (selection input expr) = plan_schema input
    plan_schema (projection input cols) = do
      table ← plan_schema input
      some (record { name = table.name; columns = projected cols })
    plan_schema (aggregation input ac gc op) = do
      table ← plan_schema input
      some (record { name = table.name; columns = column_of ac ∷ column_of gc ∷ [] })

    unfoldable pub plan_string : LogicalOperator → Option Text
    plan_string null = none
    plan_string (scan path) = do table ← access_schema path; some (text "Scan: " ++ table.name)
    plan_string (selection input expr) = some (text "Select: " ++ expr_string p expr)
    plan_string (projection input cols) = some (text "Projection: " ++ columns_string cols)
    plan_string (aggregation input ac gc op) =
        some (text "Aggregate: groupCol: " ++ (gc.name ++ (text " aggregateCol: " ++ ac.name)))

    unfoldable mutual
      pub pretty : ℕ → LogicalOperator → ℕ → Run
      pretty zero op indent = out_of_fuel
      pretty (suc fuel) op indent = elim (plan_string op) [
        | none ↦ stopped (10 ∷ tabs indent)
        | some str ↦ pretty_rounds fuel op 0 indent ((10 ∷ tabs indent) ++ str)
      ]

      -- The loop over the children, which are moved out in the test and again in the body.
      pub pretty_rounds : ℕ → LogicalOperator → ℕ → ℕ → Text → Run
      pretty_rounds zero op j indent out = out_of_fuel
      pretty_rounds (suc fuel) op j indent out = elim (children op) [
        | none ↦ stopped out
        | some (counted, op₁) ↦ elim (ltb j (length counted)) [
          | false ↦ finished out
          | true ↦ elim (children op₁) [
            | none ↦ stopped out
            | some (ch, op₂) ↦ elim (get_elem? ch j) [
              | none ↦ stopped out
              | some child ↦
                  then out (pretty fuel child (indent + 1)) (pretty_rounds fuel op₂ (j + 1) indent)
            ]
          ]
        ]
      ]
