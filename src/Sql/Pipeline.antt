-- ===== src/Sql/Pipeline.antt =====
-- src/sql/lexer.cpp and src/sql/parser.cpp together: `Lexer lexer(s); Parser parser(lexer);
-- parser.parse()`, from the text of a query to its expression.
use somedb.Base.{
  ℕ, ◌+◌, ◌*◌, ◌-◌, ◌<◌, ◌≡◌, refl, subst, ap, inl, inr, Option, none, some, List, [], ◌∷◌, ◌++◌,
  arith, length, ltb, Bool-cases,
}
use somedb.Sql.Expression.{SqlExpr}
use somedb.Sql.Token.{Text, Token, TokenType, text, text_eq, any_eq, get_string_type}
use somedb.Sql.Lexer.{new_lexer, populate_tokens, token, is_letter, is_digit, single, ◌>>=◌}
use somedb.Sql.Lexer.RoundTrip.{
  AllPass, IsToken, mark, greater, greater_equal, less, less_equal, letters, digits, AllTokens,
  print, populate_tokens-print,
}
use somedb.Sql.Parser.{Result, ok, Parser, parse, new_parser}
use somedb.Sql.Parser.Syntax.{
  Op, Ast, column, number, node, level, op_token, emit, infix_tokens, left_paren, right_paren,
  column_token, number_token,
}
use somedb.Sql.Parser.Steps.{parser_at}
use somedb.Sql.Parser.Query.{
  Item, star, Query, item_token, condition_tokens, other_items, after_items, query_tokens,
  query_sql, keyword, comma, parse-query_tokens,
}

-- The lexer runs when the parser is made; a text of n bytes needs n + 2 units of fuel, and a list
-- of n tokens 3 * n + 5.
unfoldable pub parse_text : Text → Option (Result (SqlExpr × Parser))
parse_text input = do
  toks ← populate_tokens (length input + 2) (new_lexer input)
  some (parse (3 * length toks + 5) 0 (new_parser toks))

-- A name is letters that are no keyword, and a number is digits.
abbrev pub IsName : Text → Type 0
IsName [] = ⊥
IsName (c ∷ s) = AllPass is_letter (c ∷ s) × (get_string_type (c ∷ s) ≡ TokenType.identifier)

abbrev pub IsNumber : Text → Type 0
IsNumber [] = ⊥
IsNumber (c ∷ s) = AllPass is_digit (c ∷ s)

abbrev pub NamesAst : Ast → Type 0
NamesAst (column s) = IsName s
NamesAst (number s) = IsNumber s
NamesAst (node op l r) = NamesAst l × NamesAst r

abbrev pub NamesItem : Item → Type 0
NamesItem star = Unit
NamesItem (Item.column s) = IsName s

abbrev pub NamesItems : List Item → Type 0
NamesItems [] = Unit
NamesItems (i ∷ is) = NamesItem i × NamesItems is

abbrev pub NamesCondition : Option Ast → Type 0
NamesCondition none = Unit
NamesCondition (some a) = NamesAst a

pub record NamesQuery (q : Query) : Type 0 where
  pub first : NamesItem q.first
  pub others : NamesItems q.others
  pub table : IsName q.table
  pub condition : NamesCondition q.condition

AllTokens-append : (xs ys : List Token) → AllTokens xs → AllTokens ys → AllTokens (xs ++ ys)
AllTokens-append [] ys h k = k
AllTokens-append (x ∷ xs) ys h k = (h.0, AllTokens-append xs ys h.1 k)

name-IsToken : (s : Text) → IsName s → IsToken (column_token s)
name-IsToken [] h = absurd h
name-IsToken (c ∷ s) h = subst (λ t. IsToken (token t (c ∷ s))) h.1 (letters c s h.0)

number-IsToken : (s : Text) → IsNumber s → IsToken (number_token s)
number-IsToken [] h = absurd h
number-IsToken (c ∷ s) h = digits c s h

op-IsToken : (op : Op) → IsToken (op_token op)
unfolding op_token single
op-IsToken Op.equal = mark b'=' TokenType.equals refl
op-IsToken Op.less = less
op-IsToken Op.greater = greater
op-IsToken Op.less_equal = less_equal
op-IsToken Op.greater_equal = greater_equal
op-IsToken Op.add = mark b'+' TokenType.plus refl
op-IsToken Op.subtract = mark b'-' TokenType.minus refl
op-IsToken Op.multiply = mark b'*' TokenType.asterisk refl
op-IsToken Op.divide = mark b'/' TokenType.slash refl

left_paren-IsToken : IsToken left_paren
unfolding single
left_paren-IsToken = mark b'(' TokenType.lparen refl

right_paren-IsToken : IsToken right_paren
unfolding single
right_paren-IsToken = mark b')' TokenType.rparen refl

comma-IsToken : IsToken comma
unfolding single
comma-IsToken = mark b',' TokenType.comma refl

select-IsToken : IsToken (keyword (text "SELECT"))
unfolding get_string_type any_eq text_eq is_letter
select-IsToken = letters b'S' (text "ELECT") (refl, (refl, (refl, (refl, (refl, (refl, tt))))))

from-IsToken : IsToken (keyword (text "FROM"))
unfolding get_string_type any_eq text_eq is_letter
from-IsToken = letters b'F' (text "ROM") (refl, (refl, (refl, (refl, tt))))

where-IsToken : IsToken (keyword (text "WHERE"))
unfolding get_string_type any_eq text_eq is_letter
where-IsToken = letters b'W' (text "HERE") (refl, (refl, (refl, (refl, (refl, tt)))))

emit-AllTokens : (p : ℕ) (a : Ast) → NamesAst a → AllTokens (emit p a)
unfolding emit
emit-AllTokens p (column s) h = (name-IsToken s h, tt)
emit-AllTokens p (number s) h = (number-IsToken s h, tt)
emit-AllTokens p (node op l r) h =
    let left = emit (level op - 1) l in
    let right = emit (level op) r in
    let body : AllTokens (infix_tokens op left right) =
      AllTokens-append left (op_token op ∷ right) (emit-AllTokens (level op - 1) l h.0)
        (op-IsToken op, emit-AllTokens (level op) r h.1) in
    elim (Bool-cases (ltb p (level op))) [
      | inl e ↦ rw e body
      | inr e ↦ rw e (
        left_paren-IsToken,
        AllTokens-append (infix_tokens op left right) (right_paren ∷ []) body
            (right_paren-IsToken, tt),
      )
    ]

item-IsToken : (i : Item) → NamesItem i → IsToken (item_token i)
unfolding item_token single
item-IsToken star h = mark b'*' TokenType.asterisk refl
item-IsToken (Item.column s) h = name-IsToken s h

items-AllTokens : (is : List Item) → NamesItems is → AllTokens (other_items is)
items-AllTokens [] h = tt
items-AllTokens (i ∷ is) h = (comma-IsToken, (item-IsToken i h.0, items-AllTokens is h.1))

condition-AllTokens : (c : Option Ast) → NamesCondition c → AllTokens (condition_tokens c)
unfolding condition_tokens
condition-AllTokens none h = tt
condition-AllTokens (some a) h = (where-IsToken, emit-AllTokens 0 a h)

query-AllTokens : (q : Query) → NamesQuery q → AllTokens (query_tokens q)
unfolding query_tokens
query-AllTokens q h = (
  select-IsToken,
  (
    item-IsToken q.first h.first,
    AllTokens-append (other_items q.others) (after_items q) (items-AllTokens q.others h.others)
        (from-IsToken, (name-IsToken q.table h.table, condition-AllTokens q.condition h.condition)),
  ),
)

-- The text of a query, with a space after each token and fewer than 65535 bytes long, goes through
-- the lexer and the parser and gives the expression of the query, where names are letters and no
-- keywords, and numbers are digits.
pub parse_text-print :
    (q : Query)
    → NamesQuery q
    → length (print (query_tokens q)) < 65535
    → parse_text (print (query_tokens q)) ≡ some (ok (query_sql q, parser_at (query_tokens q) []))
unfolding parse_text
parse_text-print q h small =
    let toks = query_tokens q in
    rw
      (populate_tokens-print toks (length (print toks) + 2) (query-AllTokens q h) small
        (omega arith))
      (ap some (parse-query_tokens q (3 * length toks + 5) (omega arith)))
