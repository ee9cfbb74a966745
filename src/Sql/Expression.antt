-- ===== src/Sql/Expression.antt =====
-- include/sql/sql_expression.hpp: the expressions that the parser builds.
use somedb.Base.{◌++◌}
use somedb.Sql.Token.{Text, text}

-- `std::vector<SqlExprRef>` and `std::optional<SqlExprRef>` are part of the block.
mutual
  pub data SqlExpr : Type 0 where
    binary : SqlExpr → Text → SqlExpr → SqlExpr
    identifier : Text → SqlExpr
    select : Text → SqlExprs → Selection → SqlExpr

  pub data SqlExprs : Type 0 where
    no_exprs : SqlExprs
    expr : SqlExpr → SqlExprs → SqlExprs

  pub data Selection : Type 0 where
    everything : Selection
    where_ : SqlExpr → Selection

unfoldable mutual
  pub to_string : SqlExpr → Text
  to_string (binary left op right) = to_string left ++ (op ++ to_string right)
  to_string (identifier name) = name
  to_string (select table projection selection) =
      text "SELECT " ++ (projection_string projection ++ selection_string selection)

  pub projection_string : SqlExprs → Text
  projection_string no_exprs = text ""
  projection_string (expr e es) = to_string e ++ (text ", " ++ projection_string es)

  pub selection_string : Selection → Text
  selection_string everything = text " "
  selection_string (where_ e) = text "WHERE " ++ to_string e

-- `emplace_back`.
unfoldable pub push_back : SqlExprs → SqlExpr → SqlExprs
push_back no_exprs e = expr e no_exprs
push_back (expr d ds) e = expr d (push_back ds e)
