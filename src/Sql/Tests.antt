-- ===== src/Sql/Tests.antt =====
-- The SQL front end on small inputs.
use Prim.Native.String.{String}
use somedb.Base.{
  ℕ, zero, suc, ◌≡◌, ◌≢◌, ◌<◌, refl, List, some, none, ◌∷◌, ◌++◌, [], arith, get_or, true,
}
use somedb.Sql.Token.{Text, text, Token, TokenType, text_eq, any_eq, get_string_type}
use somedb.Sql.Expression.{binary, identifier}
use somedb.Sql.Lexer.Refine.{populate_tokens-Lexes}
use somedb.Sql.Lexer.RoundTrip.{AllTokens, less_equal, digits, print, populate_tokens-wraps}
use somedb.Sql.Lexer.Spec.{Lexes}
use somedb.Sql.Parser.Query.{
  Item, star, Query, item_token, condition_tokens, query_tokens, query_sql, parse-query_tokens,
}
use somedb.Sql.Parser.RoundTrip.{parse-emit}
use somedb.Sql.Parser.Steps.{parser_at}
use somedb.Sql.Parser.Syntax.{Op, Ast, column, number, node, level, op_token, to_sql, emit}
use somedb.Sql.Parser.Total.{parse-ne-out_of_fuel}
use somedb.Sql.Pipeline.{parse_text, IsName, IsNumber, NamesQuery, parse_text-print}
use somedb.Sql.Parser.{
  ok, throw, out_of_fuel, new_parser, next_token_pos, peek_token_pos, at, precedence_of,
  next_precedence, is_infix, prefix_kind, parse,
}
use somedb.Sql.Lexer.{
  new_lexer, token, populate_tokens, read_char, peek_next, is_letter, is_digit, is_space,
  eat_whitespace, read_while, single, comparison, scan_word, scan_number, scan_other, scan,
  next_token, collect,
}

lex_select :
    populate_tokens 20 (new_lexer (text "SELECT a1 >= 3;"))
    ≡ some (
        token TokenType.keyword (text "SELECT")
        ∷ token TokenType.identifier (text "a")
        ∷ token TokenType.int (text "1")
        ∷ token TokenType.gt_eq (text ">=")
        ∷ token TokenType.int (text "3")
        ∷ token TokenType.semicolon (text ";")
        ∷ [])
unfolding text_eq any_eq get_string_type read_char new_lexer peek_next is_letter is_digit is_space
    eat_whitespace read_while single comparison scan_word scan_number scan_other scan next_token
    collect populate_tokens
lex_select = refl

abbrev tok : TokenType → String → Token
tok t s = token t (text s)

abbrev sum : List Token
sum =
    tok TokenType.int "1"
    ∷ tok TokenType.minus "-"
    ∷ tok TokenType.int "2"
    ∷ tok TokenType.asterisk "*"
    ∷ tok TokenType.int "3"
    ∷ tok TokenType.minus "-"
    ∷ tok TokenType.int "4"
    ∷ []

-- 1 - 2 * 3 - 4 is (1 - (2 * 3)) - 4.
parse-sum :
    parse 30 0 (new_parser sum)
    ≡ ok (
      binary
          (binary
            (identifier (text "1"))
            (text "-")
            (binary (identifier (text "2")) (text "*") (identifier (text "3"))))
          (text "-")
          (identifier (text "4")),
      record { tokens = sum; ahead = 7 },
    )
unfolding new_parser parse next_token_pos peek_token_pos at precedence_of next_precedence is_infix
    prefix_kind
parse-sum = refl

abbrev a_minus_b : Ast
a_minus_b =
    node Op.subtract (column (text "a")) (node Op.multiply (number (text "12")) (column (text "b")))

abbrev condition_ab : Ast
condition_ab = node Op.less_equal a_minus_b (number (text "3"))

abbrev query_ab : Query
query_ab = record {
  first = Item.column (text "a");
  others = star ∷ [];
  table = text "tab";
  condition = some condition_ab;
}

IsName-a : IsName (text "a")
unfolding get_string_type any_eq text_eq is_letter
IsName-a = ((refl, tt), refl)

IsName-b : IsName (text "b")
unfolding get_string_type any_eq text_eq is_letter
IsName-b = ((refl, tt), refl)

IsName-tab : IsName (text "tab")
unfolding get_string_type any_eq text_eq is_letter
IsName-tab = ((refl, (refl, (refl, tt))), refl)

IsNumber-12 : IsNumber (text "12")
unfolding is_digit
IsNumber-12 = (refl, (refl, tt))

IsNumber-3 : IsNumber (text "3")
unfolding is_digit
IsNumber-3 = (refl, tt)

query_ab-names : NamesQuery query_ab
query_ab-names = record {
  first = IsName-a;
  others = (tt, tt);
  table = IsName-tab;
  condition = ((IsName-a, (IsNumber-12, IsName-b)), IsNumber-3);
}

parse_text-print_example :
    parse_text (print (query_tokens query_ab))
    ≡ some (ok (query_sql query_ab, parser_at (query_tokens query_ab) []))
unfolding query_tokens item_token condition_tokens emit op_token level
parse_text-print_example = parse_text-print query_ab query_ab-names (omega arith)

populate_tokens-Lexes_example :
    (toks : List Token) × (populate_tokens 20 (new_lexer (text "a <= 12 $")) ≡ some toks)
    × Lexes (token TokenType.illegal []) (text "a <= 12 $") toks
populate_tokens-Lexes_example =
    populate_tokens-Lexes (text "a <= 12 $") 20 (omega arith) (omega arith)

abbrev two_tokens : List Token
two_tokens = tok TokenType.lt_eq "<=" ∷ tok TokenType.int "3" ∷ []

two_tokens-AllTokens : AllTokens two_tokens
unfolding is_digit
two_tokens-AllTokens = (less_equal, (digits b'3' [] (refl, tt), tt))

parse-query_tokens_example :
    parse 99 0 (new_parser (query_tokens query_ab))
    ≡ ok (query_sql query_ab, parser_at (query_tokens query_ab) [])
unfolding query_tokens item_token condition_tokens emit op_token level
parse-query_tokens_example = parse-query_tokens query_ab 99 (omega arith)

-- A condition with a semicolon behind it.
parse-emit_example :
    parse 30 0 (
      parser_at
        (emit 0 condition_ab ++ tok TokenType.semicolon ";" ∷ [])
        (emit 0 condition_ab ++ tok TokenType.semicolon ";" ∷ []))
    ≡ ok (
      to_sql condition_ab,
      parser_at
          (emit 0 condition_ab ++ tok TokenType.semicolon ";" ∷ [])
          (tok TokenType.semicolon ";" ∷ []),
    )
unfolding emit op_token level precedence_of
parse-emit_example =
    parse-emit (emit 0 condition_ab ++ tok TokenType.semicolon ";" ∷ []) condition_ab 0 30
      (tok TokenType.semicolon ";" ∷ []) ([], refl) (omega arith) (omega arith)

parse-ne-out_of_fuel_example : parse 30 0 (new_parser sum) ≢ throw out_of_fuel
parse-ne-out_of_fuel_example = parse-ne-out_of_fuel sum 30 (omega arith)

unfoldable spaces : ℕ → Text
spaces zero = []
spaces (suc n) = 32 ∷ spaces n

get_or-spaces : (n i : ℕ) → i < n → is_space (get_or (spaces n) i 0) ≡ true
unfolding spaces is_space
get_or-spaces zero i h = absurd (omega arith)
get_or-spaces (suc n) zero h = refl
get_or-spaces (suc n) (suc i) h = get_or-spaces n i (omega arith)

populate_tokens-wraps_example : populate_tokens 100 (new_lexer (spaces 65536)) ≡ none
populate_tokens-wraps_example = populate_tokens-wraps (spaces 65536) 100 (get_or-spaces 65536)
