-- ===== src/Sql/Parser/Printed.antt =====
-- include/sql/sql_expression.hpp: `toString` of what the parser of src/sql/parser.cpp builds.
use somedb.Base.{
  ℕ, ◌-◌, ◌≡◌, refl, sym, Bool, true, false, List, [], ◌∷◌, ◌++◌, append_assoc, append-nil, ltb,
  if◌then◌else◌, Bool-cases, inl, inr,
}
use somedb.Sql.Expression.{to_string}
use somedb.Sql.Parser.Syntax.{
  Op, Ast, column, number, node, level, op_token, to_sql, emit, infix_tokens, in_parens,
}
use somedb.Sql.Token.{Text, Token, TokenType}

abbrev is_paren : TokenType → Bool
is_paren TokenType.lparen = true
is_paren TokenType.rparen = true
is_paren _ = false

-- The literals of tokens one after another, without the parentheses.
abbrev pub bare_text : List Token → Text
bare_text [] = []
bare_text (t ∷ ts) = if is_paren t.type then bare_text ts else t.literal ++ bare_text ts

bare_text-append : (ts us : List Token) → bare_text (ts ++ us) ≡ bare_text ts ++ bare_text us
bare_text-append [] us = refl
bare_text-append (t ∷ ts) us = elim (Bool-cases (is_paren t.type)) [
  | inl e ↦ rw e (bare_text-append ts us)
  | inr e ↦
      rw e
        (rw (bare_text-append ts us) (sym (append_assoc t.literal (bare_text ts) (bare_text us))))
]

bare_text-parens : (ts : List Token) → bare_text (in_parens ts) ≡ bare_text ts
bare_text-parens ts = rw (bare_text-append ts) (append-nil (bare_text ts))

op_token-bare :
    (op : Op) (ts : List Token)
    → bare_text (op_token op ∷ ts) ≡ (op_token op).literal ++ bare_text ts
unfolding op_token
op_token-bare Op.equal ts = refl
op_token-bare Op.less ts = refl
op_token-bare Op.greater ts = refl
op_token-bare Op.less_equal ts = refl
op_token-bare Op.greater_equal ts = refl
op_token-bare Op.add ts = refl
op_token-bare Op.subtract ts = refl
op_token-bare Op.multiply ts = refl
op_token-bare Op.divide ts = refl

-- `toString` of an expression is the literals of its tokens in their order, at whatever level it
-- is written, with every parenthesis left out.
to_string-emit : (p : ℕ) (a : Ast) → to_string (to_sql a) ≡ bare_text (emit p a)
unfolding to_string to_sql emit
to_string-emit p (column s) = sym (append-nil s)
to_string-emit p (number s) = sym (append-nil s)
to_string-emit p (node op l r) =
    let left = emit (level op - 1) l in
    let right = emit (level op) r in
    let body : bare_text (infix_tokens op left right)
        ≡ to_string (to_sql l) ++ ((op_token op).literal ++ to_string (to_sql r)) =
      rw (
        bare_text-append left (op_token op ∷ right),
        op_token-bare op right,
        ← to_string-emit (level op - 1) l,
        ← to_string-emit (level op) r,
      ) in
    elim (Bool-cases (ltb p (level op))) [
      | inl e ↦ rw e (sym body)
      | inr e ↦ rw e (rw (bare_text-parens (infix_tokens op left right)) (sym body))
    ]
