-- ===== src/Sql/Lexer/Spec.antt =====
-- The lexer of src/sql/lexer.cpp read as a function of the text that is left: no positions, no
-- look-ahead state, no fuel.
use somedb.Base.{ℕ, Bool, true, false, ◌≡◌, List, [], ◌∷◌, none, some, if◌then◌else◌, ◌==◌}
use somedb.Sql.Token.{Text, Token, TokenType, get_string_type}
use somedb.Sql.Lexer.{token, single, is_letter, is_digit, is_space, is_eof}

unfoldable pub skip : Text → Text
skip [] = []
skip (c ∷ s) = if is_space c then skip s else c ∷ s

-- The longest front of bytes that pass the test, and the rest.
unfoldable pub span : (ℕ → Bool) → Text → Text × Text
span test [] = ([], [])
span test (c ∷ s) =
    let (front, rest) = span test s in if test c then (c ∷ front, rest) else ([], c ∷ s)

abbrev pub word : Text × Text → Token × Text
word (str, rest) = (token (get_string_type str) str, rest)

abbrev pub number : Text × Text → Token × Text
number (num, rest) = (token TokenType.int num, rest)

unfoldable pub compared : TokenType → TokenType → ℕ → Text → Token × Text
compared plain with_eq c [] = (token plain (c ∷ []), [])
compared plain with_eq c (d ∷ s) =
    if d == b'=' then (token with_eq (c ∷ b'=' ∷ []), s) else (token plain (c ∷ []), d ∷ s)

unfoldable pub other_token : Token → ℕ → Text → Token × Text
other_token old c s =
    if c == b'>'
    then compared TokenType.gt TokenType.gt_eq c s
    else if c == b'<'
    then compared TokenType.lt TokenType.lt_eq c s
    else if c == 0
    then (token TokenType.eof [], s)
    else if is_letter c
    then word (span is_letter (c ∷ s))
    else if is_digit c
    then number (span is_digit (c ∷ s))
    else (record old { type = TokenType.illegal }, s)

unfoldable pub first_token : Token → Text → Token × Text
first_token old [] = (token TokenType.eof [], [])
first_token old (c ∷ s) = elim (single c) [
  | some t ↦ (token t (c ∷ []), s)
  | none ↦ other_token old c s
]

abbrev pub next : Token → Text → Token × Text
next old s = first_token old (skip s)

-- `Lexes old s toks`: after the token `old`, the text `s` reads as `toks`, up to the first end.
pub data Lexes : Token → Text → List Token → Type 0 where
  stop : {old : Token} {s : Text} → is_eof (next old s).0.type ≡ true → Lexes old s []
  more :
      {old tok : Token} {s rest : Text} {toks : List Token}
      → next old s ≡ (tok, rest)
      → is_eof tok.type ≡ false
      → Lexes tok rest toks
      → Lexes old s (tok ∷ toks)
