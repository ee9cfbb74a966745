-- ===== src/Sql/Lexer.antt =====
-- src/sql/lexer.cpp and include/sql/lexer.hpp: the lexer.
-- `position` and `ahead_position` are `u16` and wrap. A loop of the source takes fuel, and `none`
-- means that the fuel ran out.
pub mod Spec
pub mod Loops
pub mod Refine
pub mod RoundTrip
use somedb.Base.{
  ℕ, zero, suc, ◌+◌, ◌%◌, ◌^◌, Bool, true, false, Option, none, some, List, [], ◌∷◌, ◌++◌, ◌==◌,
  leb, ◌&&◌, ◌||◌, if◌then◌else◌, length, get_or,
}
use somedb.Sql.Token.{Text, Token, TokenType, get_string_type}

pub record Lexer : Type 0 where
  pub input : Text
  pub position : ℕ
  pub ahead_position : ℕ
  pub curr_ch : ℕ

infixl 5 ◌>>=◌
abbrev pub ◌>>=◌ {ℓ κ} : {A : Type ℓ} {B : Type κ} → Option A → (A → Option B) → Option B
none >>= f = none
some a >>= f = f a

-- A missing byte reads as '\0'.
unfoldable pub read_char : Lexer → Lexer
read_char lx = record lx {
  curr_ch = get_or lx.input lx.ahead_position 0;
  position = lx.ahead_position;
  ahead_position = (lx.ahead_position + 1) % 2 ^ 16;
}

unfoldable pub new_lexer : Text → Lexer
new_lexer input =
    read_char (record { input = input; position = 65535; ahead_position = 0; curr_ch = 0 })

unfoldable pub peek_next : Lexer → ℕ
peek_next lx = get_or lx.input lx.ahead_position 0

unfoldable pub is_letter : ℕ → Bool
is_letter c = leb b'a' c && leb c b'z' || leb b'A' c && leb c b'Z' || c == b'_'

unfoldable pub is_digit : ℕ → Bool
is_digit c = leb b'0' c && leb c b'9'

unfoldable pub is_space : ℕ → Bool
is_space c = c == 32 || c == 10 || c == 9 || c == 13

unfoldable pub eat_whitespace : ℕ → Lexer → Option Lexer
eat_whitespace zero lx = none
eat_whitespace (suc fuel) lx =
    let rest = eat_whitespace fuel (read_char lx) in if is_space lx.curr_ch then rest else some lx

-- `while (test()) { str.append(curr_ch); readChar(); }`, for `isLetter` and for `isDigit`.
unfoldable pub read_while : ℕ → (ℕ → Bool) → Text → Lexer → Option (Text × Lexer)
read_while zero test str lx = none
read_while (suc fuel) test str lx =
    let rest = read_while fuel test (str ++ lx.curr_ch ∷ []) (read_char lx) in
    if test lx.curr_ch then rest else some (str, lx)

abbrev pub token : TokenType → Text → Token
token t s = record { type = t; literal = s }

-- The cases of the switch that read one character.
unfoldable pub single : ℕ → Option TokenType
single c =
    if c == b'='
    then some TokenType.equals
    else if c == b'+'
    then some TokenType.plus
    else if c == b'-'
    then some TokenType.minus
    else if c == b','
    then some TokenType.comma
    else if c == b';'
    then some TokenType.semicolon
    else if c == b'*'
    then some TokenType.asterisk
    else if c == b'/'
    then some TokenType.slash
    else if c == b'('
    then some TokenType.lparen
    else if c == b')'
    then some TokenType.rparen
    else if c == b'{'
    then some TokenType.lbrace
    else if c == b'}'
    then some TokenType.rbrace
    else none

-- `>` and `<`, with or without `=`.
unfoldable pub comparison : TokenType → TokenType → Lexer → Token × Lexer
comparison plain with_eq lx =
    if peek_next lx == b'='
    then (token with_eq (lx.curr_ch ∷ b'=' ∷ []), read_char (read_char lx))
    else (token plain (lx.curr_ch ∷ []), read_char lx)

unfoldable pub scan_word : ℕ → Lexer → Option (Token × Lexer)
scan_word fuel lx = do
  (str, lx') ← read_while fuel is_letter [] lx
  some (token (get_string_type str) str, lx')

unfoldable pub scan_number : ℕ → Lexer → Option (Token × Lexer)
scan_number fuel lx = do
  (num, lx') ← read_while fuel is_digit [] lx
  some (token TokenType.int num, lx')

-- The switch on `curr_ch`, past the single characters. `old` is the token that the caller passes
-- in: an illegal character sets its type and leaves its literal.
unfoldable pub scan_other : ℕ → Token → Lexer → Option (Token × Lexer)
scan_other fuel old lx =
    if lx.curr_ch == b'>'
    then some (comparison TokenType.gt TokenType.gt_eq lx)
    else if lx.curr_ch == b'<'
    then some (comparison TokenType.lt TokenType.lt_eq lx)
    else if lx.curr_ch == 0
    then some (token TokenType.eof [], read_char lx)
    else if is_letter lx.curr_ch
    then scan_word fuel lx
    else if is_digit lx.curr_ch
    then scan_number fuel lx
    else some (record old { type = TokenType.illegal }, read_char lx)

unfoldable pub scan : ℕ → Token → Lexer → Option (Token × Lexer)
scan fuel old lx = elim (single lx.curr_ch) [
  | some t ↦ some (token t (lx.curr_ch ∷ []), read_char lx)
  | none ↦ scan_other fuel old lx
]

unfoldable pub next_token : ℕ → Token → Lexer → Option (Token × Lexer)
next_token fuel old lx = do lx' ← eat_whitespace fuel lx; scan fuel old lx'

abbrev pub is_eof : TokenType → Bool
is_eof TokenType.eof = true
is_eof _ = false

-- `while (tok->type != END) { tokens.emplace_back(*tok); lexer.nextToken(*tok); }`
unfoldable pub collect : ℕ → ℕ → Token → Lexer → Option (List Token)
collect zero fuel tok lx = none
collect (suc rounds) fuel tok lx =
    let rest = do
      (tok', lx') ← next_token fuel tok lx
      toks ← collect rounds fuel tok' lx'
      some (tok ∷ toks)
    in if is_eof tok.type then some [] else rest

-- `Parser::populateTokens`. The first token is default-initialised; its literal is empty, and its
-- type is set before it is read.
unfoldable pub populate_tokens : ℕ → Lexer → Option (List Token)
populate_tokens fuel lx = do
  (tok, lx') ← next_token fuel (token TokenType.illegal []) lx
  collect fuel fuel tok lx'
