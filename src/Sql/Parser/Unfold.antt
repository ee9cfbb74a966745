-- ===== src/Sql/Parser/Unfold.antt =====
-- One step of each function of the parser, so that the recursion stays shut in later proofs.
use somedb.Base.{ℕ, suc, ◌-◌, ◌≡◌, refl, Bool, true, false, some, ltb, if◌then◌else◌}
use somedb.Sql.Expression.{
  SqlExpr, SqlExprs, Selection, binary, identifier, select, everything, where_,
}
use somedb.Sql.Token.{Token, text, text_eq}
use somedb.Sql.Parser.{
  ok, Parser, M, Result, bind, ◌>>=◌, return, raise, unsupported_infix, unsupported_prefix,
  invalid_select, next_token_pos, consume, peek, next_precedence, is_infix, prefix_kind, name,
  paren, statement, unsupported, parse, parse_loop, parse_prefix, parse_infix,
  parse_select_statement, parse_selection, populate_projection_list, where_follows, at,
}

module _ (f : ℕ) where
  abbrev pub prefix_case : Token → M SqlExpr
  prefix_case tok = elim (prefix_kind tok.type) [
    | name ↦ return (identifier tok.literal)
    | paren ↦ do e ← parse f 0; _ ← next_token_pos; return e
    | statement ↦ parse_select_statement f
    | unsupported ↦ raise unsupported_prefix
  ]

  abbrev pub infix_case : SqlExpr → ℕ → Token → M SqlExpr
  infix_case left q tok = elim (is_infix tok.type) [
    | true ↦ do _ ← next_token_pos; right ← parse f q; return (binary left tok.literal right)
    | false ↦ raise unsupported_infix
  ]

module _ (f : ℕ) (p : Parser) where
  pub parse-suc : (q : ℕ) → parse (suc f) q p ≡ bind (parse_prefix f p) λ e. parse_loop f q e
  unfolding parse
  parse-suc q = refl

  pub parse_loop-suc :
      (q : ℕ) (e : SqlExpr)
      → parse_loop (suc f) q e p ≡ (
          if ltb q (next_precedence p)
          then (bind (parse_infix f e (next_precedence p) p) λ e'. parse_loop f q e')
          else ok (e, p))
  unfolding parse
  parse_loop-suc q e = refl

  pub parse_prefix-suc : parse_prefix (suc f) p ≡ bind (consume p) (prefix_case f)
  unfolding parse
  parse_prefix-suc = refl

  pub parse_infix-suc :
      (left : SqlExpr) (q : ℕ) → parse_infix (suc f) left q p ≡ bind (peek p) (infix_case f left q)
  unfolding parse
  parse_infix-suc left q = refl

module _ (f : ℕ) where
  abbrev pub from_case : SqlExprs → Token → M SqlExpr
  from_case projection from = elim (text_eq from.literal (text "FROM")) [
    | false ↦ raise (invalid_select from.literal)
    | true ↦ do
      table ← consume
      selection ← parse_selection f
      return (select table.literal projection selection)
  ]

  pub parse_select_statement-suc :
      (p : Parser)
      → parse_select_statement (suc f) p
        ≡ bind
            (at (some (p.ahead - 1)) p)
            λ _. populate_projection_list f >>= λ projection. consume >>= from_case projection
  unfolding parse
  parse_select_statement-suc p = refl

  abbrev pub selection_case : Parser → Bool → Result (Selection × Parser)
  selection_case p b = elim b [
    | false ↦ ok (everything, p)
    | true ↦ bind (next_token_pos p) λ _. do e ← parse f 0; return (where_ e)
  ]

  pub parse_selection-suc :
      (p : Parser) → parse_selection (suc f) p ≡ selection_case p (where_follows p)
  unfolding parse
  parse_selection-suc p = refl
