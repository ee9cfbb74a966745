-- ===== src/Sql/Lexer/RoundTrip.antt =====
-- src/sql/lexer.cpp: printed tokens lex back, and what the 16-bit positions do to a long input.
use somedb.Base.{
  ℕ, zero, suc, ◌+◌, ◌<◌, ◌≡◌, refl, sym, ap, ap₂, ◌∙◌, Bool, true, false, none, some, List, [],
  ◌∷◌, ◌++◌, arith, length, get_or, if◌then◌else◌, ◌==◌,
}
use somedb.Sql.Token.{Text, Token, TokenType, get_string_type}
use somedb.Sql.Lexer.{
  Lexer, token, read_char, new_lexer, single, is_letter, is_digit, is_space, is_eof, eat_whitespace,
  next_token, populate_tokens,
}
use somedb.Sql.Lexer.Spec.{
  skip, span, compared, word, number, other_token, first_token, next, Lexes, stop, more,
}
use somedb.Sql.Lexer.Refine.{populate_tokens-Lexes}

abbrev pub AllPass : (ℕ → Bool) → Text → Type 0
AllPass test [] = Unit
AllPass test (c ∷ s) = (test c ≡ true) × AllPass test s

-- The tokens that a text can be read as: each literal is one that the lexer gives its type.
pub data IsToken : Token → Type 0 where
  mark : (c : ℕ) (t : TokenType) → single c ≡ some t → IsToken (token t (c ∷ []))
  greater : IsToken (token TokenType.gt (b'>' ∷ []))
  greater_equal : IsToken (token TokenType.gt_eq (b'>' ∷ b'=' ∷ []))
  less : IsToken (token TokenType.lt (b'<' ∷ []))
  less_equal : IsToken (token TokenType.lt_eq (b'<' ∷ b'=' ∷ []))
  letters :
      (c : ℕ) (s : Text)
      → AllPass is_letter (c ∷ s)
      → IsToken (token (get_string_type (c ∷ s)) (c ∷ s))
  digits : (c : ℕ) (s : Text) → AllPass is_digit (c ∷ s) → IsToken (token TokenType.int (c ∷ s))

abbrev pub AllTokens : List Token → Type 0
AllTokens [] = Unit
AllTokens (t ∷ ts) = IsToken t × AllTokens ts

-- Each literal and a space.
abbrev pub print : List Token → Text
print [] = []
print (t ∷ ts) = t.literal ++ 32 ∷ print ts

span-space :
    (test : ℕ → Bool) (s rest : Text)
    → test 32 ≡ false
    → AllPass test s
    → span test (s ++ 32 ∷ rest) ≡ (s, 32 ∷ rest)
unfolding span
span-space test [] rest t h = rw t
span-space test (c ∷ s) rest t h = rw (span-space test s rest t h.1, h.0)

letter-single : (c : ℕ) → is_letter c ≡ true → single c ≡ none
unfolding is_letter single
letter-single c h = ground arith

digit-single : (c : ℕ) → is_digit c ≡ true → single c ≡ none
unfolding is_digit single
digit-single c h = ground arith

letter_facts :
    (c : ℕ)
    → is_letter c ≡ true
    → (is_space c ≡ false) × ((c == b'>') ≡ false) × ((c == b'<') ≡ false) × ((c == 0) ≡ false)
unfolding is_letter is_space
letter_facts c h = ground arith

digit_facts :
    (c : ℕ)
    → is_digit c ≡ true
    → (is_space c ≡ false)
      × ((c == b'>') ≡ false)
      × ((c == b'<') ≡ false)
      × ((c == 0) ≡ false)
      × (is_letter c ≡ false)
unfolding is_letter is_digit is_space
digit_facts c h = ground arith

single-space :
    (c : ℕ) (t : TokenType) → single c ≡ some t → (is_space c ≡ false) × (is_eof t ≡ false)
unfolding single is_space
single-space c t h = ground arith

word_type-eof : (b : Bool) → is_eof (if b then TokenType.keyword else TokenType.identifier) ≡ false
word_type-eof true = refl
word_type-eof false = refl

get_string_type-eof : (s : Text) → is_eof (get_string_type s) ≡ false
unfolding get_string_type
get_string_type-eof s = word_type-eof _

-- What `next` gives on a comparison and a space.
next-comparison :
    (old : Token) (rest : Text)
    → (next old (b'>' ∷ 32 ∷ rest) ≡ (token TokenType.gt (b'>' ∷ []), 32 ∷ rest))
      × (next old (b'>' ∷ b'=' ∷ 32 ∷ rest) ≡ (token TokenType.gt_eq (b'>' ∷ b'=' ∷ []), 32 ∷ rest))
      × (next old (b'<' ∷ 32 ∷ rest) ≡ (token TokenType.lt (b'<' ∷ []), 32 ∷ rest))
      × (next old (b'<' ∷ b'=' ∷ 32 ∷ rest) ≡ (token TokenType.lt_eq (b'<' ∷ b'=' ∷ []), 32 ∷ rest))
unfolding skip is_space first_token single other_token compared
next-comparison old rest = (refl, refl, refl, refl)

next-letter :
    (old : Token) (c : ℕ) (r : Text)
    → is_letter c ≡ true
    → next old (c ∷ r) ≡ word (span is_letter (c ∷ r))
unfolding skip first_token other_token
next-letter old c r h =
    let (sp, n₁, n₂, n₃) = letter_facts c h in
    rw sp (rw (letter-single c h, first_token) (rw (n₁, n₂, n₃, h)))

next-digit :
    (old : Token) (c : ℕ) (r : Text)
    → is_digit c ≡ true
    → next old (c ∷ r) ≡ (token TokenType.int (span is_digit (c ∷ r)).0, (span is_digit (c ∷ r)).1)
unfolding skip first_token other_token
next-digit old c r h =
    let (sp, n₁, n₂, n₃, n₄) = digit_facts c h in
    rw sp (rw (digit-single c h, first_token) (rw (n₁, n₂, n₃, n₄, h)))

letter_space : is_letter 32 ≡ false
unfolding is_letter
letter_space = refl

digit_space : is_digit 32 ≡ false
unfolding is_digit
digit_space = refl

-- A printed token is read back, up to the space.
next-print :
    {t : Token} (old : Token) (rest : Text)
    → IsToken t
    → (next old (t.literal ++ 32 ∷ rest) ≡ (t, 32 ∷ rest)) × (is_eof t.type ≡ false)
unfolding skip first_token
next-print old rest (mark c t e) =
    let (sp, eof) = single-space c t e in (rw sp (rw (e, first_token)), eof)
next-print old rest greater = ((next-comparison old rest).0, refl)
next-print old rest greater_equal = ((next-comparison old rest).1, refl)
next-print old rest less = ((next-comparison old rest).2, refl)
next-print old rest less_equal = ((next-comparison old rest).3, refl)
next-print old rest (letters c s h) = (
  next-letter old c (s ++ 32 ∷ rest) h.0
      ∙ ap word (span-space is_letter (c ∷ s) rest letter_space h),
  get_string_type-eof (c ∷ s),
)
next-print old rest (digits c s h) = (
  next-digit old c (s ++ 32 ∷ rest) h.0
      ∙ ap number (span-space is_digit (c ∷ s) rest digit_space h),
  refl,
)

-- A space in front changes nothing.
Lexes-space :
    {old : Token} {s : Text} {toks : List Token} → Lexes old s toks → Lexes old (32 ∷ s) toks
unfolding skip is_space
Lexes-space (stop e) = stop e
Lexes-space (more e t l) = more e t l

print-Lexes : (old : Token) (toks : List Token) → AllTokens toks → Lexes old (print toks) toks
unfolding skip first_token
print-Lexes old [] h = stop refl
print-Lexes old (t ∷ toks) h =
    let (e, eof) = next-print old (print toks) h.0 in
    more e eof (Lexes-space (print-Lexes t toks h.1))

-- A text reads in one way.
Lexes-unique :
    {old old' : Token} {s s' : Text} {a b : List Token}
    → Lexes old s a
    → Lexes old' s' b
    → (old ≡ old')
    → (s ≡ s')
    → a ≡ b
Lexes-unique (stop e) (stop f) p q = refl
Lexes-unique {old} {old'} {s} {s'} (stop e) (more f g l) p q =
    let r : next old s ≡ next old' s' = ap₂ next p q in
    cc (ap (λ (r : Token × Text). is_eof r.0.type) (r ∙ f))
Lexes-unique {old} {old'} {s} {s'} (more e g l) (stop f) p q =
    let r : next old s ≡ next old' s' = ap₂ next p q in
    cc (ap (λ (r : Token × Text). is_eof r.0.type) (sym e ∙ r))
Lexes-unique {old} {old'} {s} {s'} (more {tok = t} {rest = u} e g l)
      (more {tok = t'} {rest = u'} f h m) p q =
    let r : (t, u) ≡ (t', u') = sym e ∙ ap₂ next p q ∙ f in
    let pt : t ≡ t' = ap (λ (r : Token × Text). r.0) r in
    let pu : u ≡ u' = ap (λ (r : Token × Text). r.1) r in ap₂ ◌∷◌ pt (Lexes-unique l m pt pu)

-- Tokens printed with a space after each lex back to themselves, for a printed text of fewer than
-- 65535 bytes and fuel above its length plus one.
pub populate_tokens-print :
    (toks : List Token) (fuel : ℕ)
    → AllTokens toks
    → length (print toks) < 65535
    → length (print toks) + 1 < fuel
    → populate_tokens fuel (new_lexer (print toks)) ≡ some toks
populate_tokens-print toks fuel h small enough =
    let (found, run, lex) = populate_tokens-Lexes (print toks) fuel small enough in
    run ∙ ap some (Lexes-unique lex (print-Lexes (token TokenType.illegal []) toks h) refl refl)

-- Where the first 65536 bytes of an input are whitespace, the loop of `eatWhitespace` does not end.
eat_whitespace-wraps :
    (inp : Text) (fuel : ℕ) (lx : Lexer)
    → lx.input ≡ inp
    → lx.ahead_position < 65536
    → is_space lx.curr_ch ≡ true
    → ((i : ℕ) → i < 65536 → is_space (get_or inp i 0) ≡ true)
    → eat_whitespace fuel lx ≡ none
unfolding eat_whitespace read_char
eat_whitespace-wraps inp zero lx e h k all = refl
eat_whitespace-wraps inp (suc fuel) lx e h k all = rw k (
    eat_whitespace-wraps inp fuel (read_char lx) e (omega arith) (rw e (all lx.ahead_position h))
      all)

-- Where the first 65536 bytes of an input are whitespace, `populateTokens` does not end, whatever
-- the fuel: the 16-bit position of the lexer starts again at 0.
pub populate_tokens-wraps :
    (inp : Text) (fuel : ℕ)
    → ((i : ℕ) → i < 65536 → is_space (get_or inp i 0) ≡ true)
    → populate_tokens fuel (new_lexer inp) ≡ none
unfolding populate_tokens next_token new_lexer read_char
populate_tokens-wraps inp fuel all =
    rw (eat_whitespace-wraps inp fuel (new_lexer inp) refl (omega arith) (all 0 (omega arith)) all)
