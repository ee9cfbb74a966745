-- ===== src/Sql/Parser/Syntax.antt =====
-- The expressions that the parser of src/sql/parser.cpp is for: binary operators of three levels
-- that associate to the left, and their tokens with parentheses only where they are needed.
use somedb.Base.{ℕ, ◌-◌, List, [], ◌∷◌, ◌++◌, ltb, if◌then◌else◌}
use somedb.Sql.Expression.{SqlExpr, binary, identifier}
use somedb.Sql.Token.{Text, Token, TokenType, text}

pub data Op : Type 0 where
  equal less greater less_equal greater_equal add subtract multiply divide : Op

unfoldable pub level : Op → ℕ
level add = 2
level subtract = 2
level multiply = 3
level divide = 3
level _ = 1

unfoldable pub op_token : Op → Token
op_token equal = record { type = TokenType.equals; literal = text "=" }
op_token less = record { type = TokenType.lt; literal = text "<" }
op_token greater = record { type = TokenType.gt; literal = text ">" }
op_token less_equal = record { type = TokenType.lt_eq; literal = text "<=" }
op_token greater_equal = record { type = TokenType.gt_eq; literal = text ">=" }
op_token add = record { type = TokenType.plus; literal = text "+" }
op_token subtract = record { type = TokenType.minus; literal = text "-" }
op_token multiply = record { type = TokenType.asterisk; literal = text "*" }
op_token divide = record { type = TokenType.slash; literal = text "/" }

pub data Ast : Type 0 where
  column : Text → Ast
  number : Text → Ast
  node : Op → Ast → Ast → Ast

-- What the parser builds for it.
unfoldable pub to_sql : Ast → SqlExpr
to_sql (column s) = identifier s
to_sql (number s) = identifier s
to_sql (node op l r) = binary (to_sql l) (op_token op).literal (to_sql r)

abbrev pub column_token : Text → Token
column_token s = record { type = TokenType.identifier; literal = s }

abbrev pub number_token : Text → Token
number_token s = record { type = TokenType.int; literal = s }

abbrev pub left_paren : Token
left_paren = record { type = TokenType.lparen; literal = text "(" }

abbrev pub right_paren : Token
right_paren = record { type = TokenType.rparen; literal = text ")" }

abbrev pub infix_tokens : Op → List Token → List Token → List Token
infix_tokens op l r = l ++ op_token op ∷ r

abbrev pub in_parens : List Token → List Token
in_parens ts = left_paren ∷ (ts ++ right_paren ∷ [])

-- The tokens of an expression where operators of a level above `p` stand without parentheses.
unfoldable pub emit : ℕ → Ast → List Token
emit p (column s) = column_token s ∷ []
emit p (number s) = number_token s ∷ []
emit p (node op l r) =
    let body = infix_tokens op (emit (level op - 1) l) (emit (level op) r) in
    if ltb p (level op) then body else in_parens body
