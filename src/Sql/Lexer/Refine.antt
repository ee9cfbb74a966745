-- ===== src/Sql/Lexer/Refine.antt =====
-- src/sql/lexer.cpp: the lexer over positions computes what the lexer over the remaining text
-- does, and its loops end.
use somedb.Base.{
  ℕ, zero, suc, ◌+◌, ◌<◌, ◌≡◌, refl, Bool, true, false, inl, inr, Option, some, List, [], ◌∷◌,
  arith, length, Suffix, Suffix-tail, Bool-cases, Option-cases, ◌==◌,
}
use somedb.Sql.Token.{Text, Token, TokenType, get_string_type}
use somedb.Sql.Lexer.{
  Lexer, token, read_char, new_lexer, peek_next, single, comparison, is_letter, is_digit, is_eof,
  scan_word, scan_number, scan_other, scan, next_token, collect, populate_tokens,
}
use somedb.Sql.Lexer.Spec.{
  skip, span, compared, word, number, other_token, first_token, next, Lexes, stop, more,
}
use somedb.Sql.Lexer.Loops.{
  lexer_at, ahead_byte, read_char-at, new_lexer-at, skip-Suffix, span-Suffix, length-skip,
  length-span, eat_whitespace-at, read_while-at,
}

-- What one call of `scan` gives: the token of the specification and, unless it is the end, the
-- state in which the rest is left, which is shorter.
record Scans (inp s : Text) (r : Token × Text) (o : Option (Token × Lexer)) : Type 0 where
  state : Lexer
  result : o ≡ some (r.0, state)
  rest : is_eof r.0.type ≡ false → state ≡ lexer_at inp r.1
  suffix : is_eof r.0.type ≡ false → Suffix inp r.1
  shorter : is_eof r.0.type ≡ false → length r.1 < length s

scan_nil :
    (fuel : ℕ) (old : Token) (inp : Text)
    → scan fuel old (lexer_at inp []) ≡ some (token TokenType.eof [], read_char (lexer_at inp []))
unfolding scan scan_other single
scan_nil fuel old inp = refl

span-shorter :
    (test : ℕ → Bool) (c : ℕ) (s : Text)
    → test c ≡ true
    → length (span test (c ∷ s)).1 < length (c ∷ s)
unfolding span
span-shorter test c s e = rw e (omega (arith, length-span test s))

module _ (inp : Text) (small : length inp < 65535) where
  comparison-Scans :
      (plain with_eq : TokenType) (c : ℕ) (s : Text)
      → Suffix inp (c ∷ s)
      → Scans inp
          (c ∷ s)
          (compared plain with_eq c s)
          (some (comparison plain with_eq (lexer_at inp (c ∷ s))))
  unfolding comparison compared peek_next
  comparison-Scans plain with_eq c [] suf = record {
    state = lexer_at inp [];
    result = rw (ahead_byte inp c [] suf, read_char-at inp c [] small suf);
    rest = λ _. refl;
    suffix = λ _. Suffix-tail inp c [] suf;
    shorter = λ _. omega arith;
  }
  comparison-Scans plain with_eq c (d ∷ s) suf =
      let suf' = Suffix-tail inp c (d ∷ s) suf in
      elim (Bool-cases (d == b'=')) [
        | inl e ↦ record {
          state = lexer_at inp s;
          result = rw (
            ahead_byte inp c (d ∷ s) suf,
            e,
            read_char-at inp c (d ∷ s) small suf,
            read_char-at inp d s small suf',
          );
          rest = λ _. rw e;
          suffix = λ _. rw e (Suffix-tail inp d s suf');
          shorter = λ _. rw e (omega arith);
        }
        | inr e ↦ record {
          state = lexer_at inp (d ∷ s);
          result = rw (ahead_byte inp c (d ∷ s) suf, e, read_char-at inp c (d ∷ s) small suf);
          rest = λ _. rw e;
          suffix = λ _. rw e suf';
          shorter = λ _. rw e (omega arith);
        }
      ]

  word-Scans :
      (fuel c : ℕ) (s : Text)
      → Suffix inp (c ∷ s)
      → length (c ∷ s) < fuel
      → is_letter c ≡ true
      → Scans inp (c ∷ s) (word (span is_letter (c ∷ s))) (scan_word fuel (lexer_at inp (c ∷ s)))
  unfolding scan_word is_letter get_string_type
  word-Scans fuel c s suf h e = record {
    state = lexer_at inp (span is_letter (c ∷ s)).1;
    result = rw (read_while-at inp small is_letter refl fuel [] (c ∷ s) suf h);
    rest = λ _. refl;
    suffix = λ _. span-Suffix is_letter inp (c ∷ s) suf;
    shorter = λ _. span-shorter is_letter c s e;
  }

  number-Scans :
      (fuel c : ℕ) (s : Text)
      → Suffix inp (c ∷ s)
      → length (c ∷ s) < fuel
      → is_digit c ≡ true
      → Scans inp (c ∷ s) (number (span is_digit (c ∷ s))) (scan_number fuel (lexer_at inp (c ∷ s)))
  unfolding scan_number is_digit
  number-Scans fuel c s suf h e = record {
    state = lexer_at inp (span is_digit (c ∷ s)).1;
    result = rw (read_while-at inp small is_digit refl fuel [] (c ∷ s) suf h);
    rest = λ _. refl;
    suffix = λ _. span-Suffix is_digit inp (c ∷ s) suf;
    shorter = λ _. span-shorter is_digit c s e;
  }

  one-Scans :
      (tok : Token) (c : ℕ) (s : Text)
      → Suffix inp (c ∷ s)
      → Scans inp (c ∷ s) (tok, s) (some (tok, read_char (lexer_at inp (c ∷ s))))
  one-Scans tok c s suf = record {
    state = lexer_at inp s;
    result = rw (read_char-at inp c s small suf);
    rest = λ _. refl;
    suffix = λ _. Suffix-tail inp c s suf;
    shorter = λ _. omega arith;
  }

  eof-Scans :
      (s : Text) (rest : Text) (lx : Lexer)
      → Scans inp s (token TokenType.eof [], rest) (some (token TokenType.eof [], lx))
  eof-Scans s rest lx = record {
    state = lx;
    result = refl;
    rest = λ e. cc;
    suffix = λ e. cc;
    shorter = λ e. cc;
  }

  other-Scans :
      (fuel : ℕ) (old : Token) (c : ℕ) (s : Text)
      → Suffix inp (c ∷ s)
      → length (c ∷ s) < fuel
      → Scans inp (c ∷ s) (other_token old c s) (scan_other fuel old (lexer_at inp (c ∷ s)))
  unfolding scan_other other_token
  other-Scans fuel old c s suf h = elim (Bool-cases (c == b'>')) [
    | inl e ↦ rw e (comparison-Scans TokenType.gt TokenType.gt_eq c s suf)
    | inr e₁ ↦ elim (Bool-cases (c == b'<')) [
      | inl e ↦ rw (e₁, e) (comparison-Scans TokenType.lt TokenType.lt_eq c s suf)
      | inr e₂ ↦ elim (Bool-cases (c == 0)) [
        | inl e ↦ rw (e₁, e₂, e) (eof-Scans (c ∷ s) s (read_char (lexer_at inp (c ∷ s))))
        | inr e₃ ↦ elim (Bool-cases (is_letter c)) [
          | inl e ↦ rw (e₁, e₂, e₃, e) (word-Scans fuel c s suf h e)
          | inr e₄ ↦ elim (Bool-cases (is_digit c)) [
            | inl e ↦ rw (e₁, e₂, e₃, e₄, e) (number-Scans fuel c s suf h e)
            | inr e ↦
                rw (e₁, e₂, e₃, e₄, e) (one-Scans (record old { type = TokenType.illegal }) c s suf)
          ]
        ]
      ]
    ]
  ]

  scan-Scans :
      (fuel : ℕ) (old : Token) (s : Text)
      → Suffix inp s
      → length s < fuel
      → Scans inp s (first_token old s) (scan fuel old (lexer_at inp s))
  unfolding scan first_token
  scan-Scans fuel old [] suf h = record {
    state = read_char (lexer_at inp []);
    result = scan_nil fuel old inp;
    rest = λ e. cc;
    suffix = λ e. cc;
    shorter = λ e. cc;
  }
  scan-Scans fuel old (c ∷ s) suf h = elim (Option-cases (single c)) [
    | inr (t, e) ↦ rw (e, scan, first_token) (one-Scans (token t (c ∷ [])) c s suf)
    | inl e ↦ rw (e, scan, first_token) (other-Scans fuel old c s suf h)
  ]

  next_token-Scans :
      (fuel : ℕ) (old : Token) (s : Text)
      → Suffix inp s
      → length s < fuel
      → Scans inp s (next old s) (next_token fuel old (lexer_at inp s))
  unfolding next_token
  next_token-Scans fuel old s suf h =
      let le = length-skip s in
      let r = scan-Scans fuel old (skip s) (skip-Suffix inp s suf) (omega arith) in
      record {
        state = r.state;
        result = rw (eat_whitespace-at inp small fuel s suf h) r.result;
        rest = r.rest;
        suffix = r.suffix;
        shorter = λ e. omega (arith, r.shorter e);
      }

  -- The loop of `populateTokens`, from a token that was read.
  collect-Lexes :
      (rounds fuel : ℕ) (tok : Token) (s : Text)
      → Suffix inp s
      → length s < fuel
      → length s + 1 < rounds
      → is_eof tok.type ≡ false
      → (toks : List Token) × (collect rounds fuel tok (lexer_at inp s) ≡ some (tok ∷ toks))
        × Lexes tok s toks
  unfolding collect
  collect-Lexes zero fuel tok s suf h k e = absurd (omega arith)
  collect-Lexes (suc zero) fuel tok s suf h k e = absurd (omega arith)
  collect-Lexes (suc (suc rounds)) fuel tok s suf h k e =
      let r = next_token-Scans fuel tok s suf h in
      elim (Bool-cases (is_eof (next tok s).0.type)) [
        | inl end ↦ ([], rw (e, r.result, end), stop end)
        | inr go ↦
            let (toks, run, lex) =
              collect-Lexes (suc rounds) fuel (next tok s).0 (next tok s).1 (r.suffix go)
                (omega (arith, r.shorter go)) (omega (arith, r.shorter go)) go in
            ((next tok s).0 ∷ toks, rw (e, r.result, r.rest go, run), more refl go lex)
      ]

collect_end :
    (rounds fuel : ℕ) (tok : Token) (lx : Lexer)
    → 0 < rounds
    → is_eof tok.type ≡ true
    → collect rounds fuel tok lx ≡ some []
unfolding collect
collect_end zero fuel tok lx h e = absurd (omega arith)
collect_end (suc rounds) fuel tok lx h e = rw e

-- For an input of fewer than 65535 bytes, with fuel above its length plus one, `populateTokens`
-- ends, and its tokens are those that the specification reads.
pub populate_tokens-Lexes :
    (inp : Text) (fuel : ℕ)
    → length inp < 65535
    → length inp + 1 < fuel
    → (toks : List Token) × (populate_tokens fuel (new_lexer inp) ≡ some toks)
      × Lexes (token TokenType.illegal []) inp toks
unfolding populate_tokens
populate_tokens-Lexes inp fuel small h =
    let old = token TokenType.illegal [] in
    let r = next_token-Scans inp small fuel old inp ([], refl) (omega arith) in
    elim (Bool-cases (is_eof (next old inp).0.type)) [
      | inl end ↦ (
        [],
        rw (new_lexer-at inp, r.result)
            (collect_end fuel fuel (next old inp).0 r.state (omega arith) end),
        stop end,
      )
      | inr go ↦
          let (toks, run, lex) =
            collect-Lexes inp small fuel fuel (next old inp).0 (next old inp).1 (r.suffix go)
              (omega (arith, r.shorter go)) (omega (arith, r.shorter go)) go in
          (
            (next old inp).0 ∷ toks,
            rw (new_lexer-at inp, r.result, r.rest go) run,
            more refl go lex,
          )
    ]
