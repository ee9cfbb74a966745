-- ===== src/Sql/Parser.antt =====
-- src/sql/parser.cpp and include/sql/parser.hpp: the Pratt parser.
-- `ahead` is `position + 1`, which the source keeps at 0 or more. A position of -1 is `none`, at
-- which `tokens.at` throws. The recursion takes fuel: see Sql/Parser/Total.
pub mod Syntax
pub mod Unfold
pub mod Steps
pub mod Total
pub mod Rounds
pub mod RoundTrip
pub mod Query
pub mod Printed
use somedb.Base.{
  ℕ, zero, suc, ◌+◌, ◌-◌, Bool, true, false, Option, none, some, List, [], ◌∷◌, ltb, leb,
  if◌then◌else◌, length, get_elem?,
}
use somedb.Sql.Expression.{
  SqlExpr, SqlExprs, Selection, binary, identifier, select, no_exprs, everything, where_, push_back,
}
use somedb.Sql.Token.{Text, Token, TokenType, text, text_eq}

pub data Error : Type 0 where
  out_of_range unsupported_prefix unsupported_infix out_of_fuel : Error
  invalid_select projection_start : Text → Error

pub data Result {ℓ} (A : Type ℓ) : Type ℓ where
  ok : A → Result A
  throw : Error → Result A

pub record Parser : Type 0 where
  pub tokens : List Token
  pub ahead : ℕ

abbrev pub M {ℓ} : Type ℓ → Type ℓ
M A = Parser → Result (A × Parser)

abbrev pub bind {ℓ κ} :
    {A : Type ℓ} {B : Type κ} → Result (A × Parser) → (A → M B) → Result (B × Parser)
bind (ok (a, p)) f = f a p
bind (throw e) f = throw e

infixl 5 ◌>>=◌ ◌>>◌
abbrev pub ◌>>=◌ {ℓ κ} : {A : Type ℓ} {B : Type κ} → M A → (A → M B) → M B
◌>>=◌ m f p = bind (m p) f

abbrev pub ◌>>◌ {ℓ κ} : {A : Type ℓ} {B : Type κ} → M A → M B → M B
m >> k = m >>= λ _. k

abbrev pub return {ℓ} : {A : Type ℓ} → A → M A
return a p = ok (a, p)

abbrev pub raise {ℓ} : {A : Type ℓ} → Error → M A
raise e p = throw e

-- `position < (int)tokens.size() ? ++position : -1`
unfoldable pub next_token_pos : M (Option ℕ)
next_token_pos p =
    if leb p.ahead (length p.tokens)
    then ok (some p.ahead, record p { ahead = p.ahead + 1 })
    else ok (none, p)

-- `position + 1 < (int)tokens.size() ? position + 1 : -1`
unfoldable pub peek_token_pos : Parser → Option ℕ
peek_token_pos p = if ltb p.ahead (length p.tokens) then some p.ahead else none

-- `tokens.at(i)`
unfoldable pub at : Option ℕ → M Token
at none p = throw out_of_range
at (some i) p = elim (get_elem? p.tokens i) [ none ↦ throw out_of_range | some t ↦ ok (t, p) ]

abbrev pub consume : M Token
consume = next_token_pos >>= at

abbrev pub peek : M Token
peek p = at (peek_token_pos p) p

unfoldable pub precedence_of : TokenType → ℕ
precedence_of TokenType.equals = 1
precedence_of TokenType.gt_eq = 1
precedence_of TokenType.lt_eq = 1
precedence_of TokenType.lt = 1
precedence_of TokenType.gt = 1
precedence_of TokenType.plus = 2
precedence_of TokenType.minus = 2
precedence_of TokenType.slash = 3
precedence_of TokenType.asterisk = 3
precedence_of TokenType.lparen = 4
precedence_of _ = 0

unfoldable pub next_precedence : Parser → ℕ
next_precedence p = elim (peek_token_pos p) [
  | none ↦ 0
  | some i ↦ elim (get_elem? p.tokens i) [ none ↦ 0 | some t ↦ precedence_of t.type ]
]

unfoldable pub is_infix : TokenType → Bool
is_infix TokenType.plus = true
is_infix TokenType.minus = true
is_infix TokenType.asterisk = true
is_infix TokenType.slash = true
is_infix TokenType.equals = true
is_infix TokenType.lt = true
is_infix TokenType.gt = true
is_infix TokenType.gt_eq = true
is_infix TokenType.lt_eq = true
is_infix _ = false

-- The cases of the switch in `parsePrefix`.
pub data PrefixKind : Type 0 where
  name paren statement unsupported : PrefixKind

unfoldable pub prefix_kind : TokenType → PrefixKind
prefix_kind TokenType.identifier = name
prefix_kind TokenType.int = name
prefix_kind TokenType.lparen = paren
prefix_kind TokenType.keyword = statement
prefix_kind _ = unsupported

abbrev pub is_comma : TokenType → Bool
is_comma TokenType.comma = true
is_comma _ = false

abbrev pub starts_projection : TokenType → Bool
starts_projection TokenType.asterisk = true
starts_projection TokenType.identifier = true
starts_projection _ = false

-- `while (tokens.at(peekTokenPos()).type == COMMA)`
unfoldable pub projection_loop : ℕ → SqlExprs → M SqlExprs
projection_loop zero plist p = throw out_of_fuel
projection_loop (suc f) plist p = bind (peek p) λ tok. elim (is_comma tok.type) [
  | true ↦ do
    _ ← next_token_pos
    t ← consume
    projection_loop f (push_back plist (identifier t.literal))
  | false ↦ return plist
]

unfoldable pub populate_projection_list : ℕ → M SqlExprs
populate_projection_list f p = bind (peek p) λ tok. elim (starts_projection tok.type) [
  | true ↦ do t ← consume; projection_loop f (push_back no_exprs (identifier t.literal))
  | false ↦ raise (projection_start tok.literal)
]

-- Whether a WHERE follows.
unfoldable pub where_follows : Parser → Bool
where_follows p = elim (peek_token_pos p) [
  | none ↦ false
  | some i ↦ elim (get_elem? p.tokens i) [
    | none ↦ false
    | some t ↦ text_eq t.literal (text "WHERE")
  ]
]

unfoldable mutual
  pub parse : ℕ → ℕ → M SqlExpr
  parse zero prec p = throw out_of_fuel
  parse (suc f) prec p = bind (parse_prefix f p) λ e. parse_loop f prec e

  -- `while (nextPrecedence() > precedence)`
  pub parse_loop : ℕ → ℕ → SqlExpr → M SqlExpr
  parse_loop zero prec e p = throw out_of_fuel
  parse_loop (suc f) prec e p =
      let rest = bind (parse_infix f e (next_precedence p) p) λ e'. parse_loop f prec e' in
      if ltb prec (next_precedence p) then rest else ok (e, p)

  pub parse_prefix : ℕ → M SqlExpr
  parse_prefix zero p = throw out_of_fuel
  parse_prefix (suc f) p = bind (consume p) λ tok. elim (prefix_kind tok.type) [
    | name ↦ return (identifier tok.literal)
    | paren ↦ do e ← parse f 0; _ ← next_token_pos; return e
    | statement ↦ parse_select_statement f
    | unsupported ↦ raise unsupported_prefix
  ]

  pub parse_infix : ℕ → SqlExpr → ℕ → M SqlExpr
  parse_infix zero left prec p = throw out_of_fuel
  parse_infix (suc f) left prec p = bind (peek p) λ tok. elim (is_infix tok.type) [
    | true ↦ do _ ← next_token_pos; right ← parse f prec; return (binary left tok.literal right)
    | false ↦ raise unsupported_infix
  ]

  pub parse_select_statement : ℕ → M SqlExpr
  parse_select_statement zero p = throw out_of_fuel
  parse_select_statement (suc f) p = bind (at (some (p.ahead - 1)) p) λ _. do
    projection ← populate_projection_list f
    from ← consume
    elim (text_eq from.literal (text "FROM")) [
      | false ↦ raise (invalid_select from.literal)
      | true ↦ do
        table ← consume
        selection ← parse_selection f
        return (select table.literal projection selection)
    ]

  pub parse_selection : ℕ → M Selection
  parse_selection zero p = throw out_of_fuel
  parse_selection (suc f) p = elim (where_follows p) [
    | false ↦ ok (everything, p)
    | true ↦ bind (next_token_pos p) λ _. do e ← parse f 0; return (where_ e)
  ]

unfoldable pub new_parser : List Token → Parser
new_parser toks = record { tokens = toks; ahead = 0 }
