-- ===== src/Sql/Parser/RoundTrip.antt =====
-- src/sql/parser.cpp: the tokens of an expression parse back to it, with the levels of the
-- operators, association to the left, and parentheses.
use somedb.Base.{
  ℕ, zero, suc, ◌+◌, ◌-◌, ◌*◌, ◌<◌, ◌≤◌, ◌≡◌, refl, ap, ◌∙◌, inl, inr, List, [], ◌∷◌, ◌++◌,
  append_assoc, append-nil, arith, length, length-append, ltb, Suffix, Suffix-tail, Suffix-append,
  Bool-cases,
}
use somedb.Sql.Expression.{SqlExpr, identifier}
use somedb.Sql.Token.{Token}
use somedb.Sql.Parser.{
  ok, precedence_of, prefix_kind, name, parse, parse_loop, parse_prefix, new_parser,
}
use somedb.Sql.Parser.Syntax.{
  Op, level, op_token, Ast, column, number, node, to_sql, column_token, number_token, left_paren,
  right_paren, infix_tokens, in_parens, emit,
}
use somedb.Sql.Parser.Unfold.{prefix_case, parse-suc, parse_prefix-suc}
use somedb.Sql.Parser.Steps.{parser_at, next_level, next_token_pos-at, consume-at}
use somedb.Sql.Parser.Rounds.{
  op_token-level, level_pos, spine, spine-le, parse_loop-stop, parse_loop-step,
}

module _ (all : List Token) where
  abbrev Reads : ℕ → Ast → Type 0
  Reads p a =
      (q f : ℕ) (rest : List Token)
      → q ≤ p
      → next_level rest ≤ p + 1
      → Suffix all (emit p a ++ rest)
      → 3 * length (emit p a) ≤ f
      → parse f q (parser_at all (emit p a ++ rest))
        ≡ parse_loop (f - spine p a) q (to_sql a) (parser_at all rest)

  -- An operand and what follows it, read at a precedence that lets its operator through.
  body-Reads :
      (op : Op) (l r : Ast) (q f : ℕ) (rest : List Token)
      → Reads (level op - 1) l
      → Reads (level op) r
      → q < level op
      → next_level rest ≤ level op
      → let body = infix_tokens op (emit (level op - 1) l) (emit (level op) r) in
        Suffix all (body ++ rest)
        → 3 * length (infix_tokens op (emit (level op - 1) l) (emit (level op) r)) ≤ f
        → parse f q
            (parser_at all (infix_tokens op (emit (level op - 1) l) (emit (level op) r) ++ rest))
          ≡ parse_loop
              (f - (spine (level op - 1) l + 1))
              q
              (to_sql (node op l r))
              (parser_at all rest)
  unfolding to_sql
  body-Reads op l r q f rest read_l read_r h low suf enough =
      let left = emit (level op - 1) l in
      let right = emit (level op) r in
      let split : infix_tokens op left right ++ rest ≡ left ++ op_token op ∷ (right ++ rest) =
        append_assoc left (op_token op ∷ right) rest in
      let size = length-append left (op_token op ∷ right) in
      let short = spine-le (level op - 1) l in
      let short' = spine-le (level op) r in
      let g = f - spine (level op - 1) l - 2 in
      let two : f - spine (level op - 1) l ≡ suc (suc g) = omega arith in
      let one : suc g ≡ f - (spine (level op - 1) l + 1) = omega arith in
      let suf_op : Suffix all (op_token op ∷ (right ++ rest)) =
        Suffix-append all left (op_token op ∷ (right ++ rest)) (rw split at suf) in
      let suf_r : Suffix all (right ++ rest) =
        Suffix-tail all (op_token op) (right ++ rest) suf_op in
      let run_r =
        read_r (level op) g rest (omega arith) (omega arith) suf_r (omega arith)
        ∙ parse_loop-stop all (g - spine (level op) r) (level op) (to_sql r) rest
            (Suffix-append all right rest suf_r) (omega arith) low in
      let run_l =
        read_l q f (op_token op ∷ (right ++ rest)) (omega arith)
          (omega (arith, op_token-level op, level_pos op)) (rw split at suf) (omega arith) in
      rw split (
        run_l
        ∙ rw two (
            parse_loop-step all g q op (to_sql l) (to_sql r) (right ++ rest) rest suf_op h run_r
            ∙ ap (λ (n : ℕ). parse_loop n q (to_sql (node op l r)) (parser_at all rest)) one))

  -- A run of `parse` from a prefix that is read.
  prefix-Reads :
      (f q : ℕ) (e : SqlExpr) (ts rest : List Token)
      → parse_prefix f (parser_at all ts) ≡ ok (e, parser_at all rest)
      → parse (suc f) q (parser_at all ts) ≡ parse_loop f q e (parser_at all rest)
  prefix-Reads f q e ts rest run = rw (parse-suc, run)

  name-Reads :
      (f : ℕ) (t : Token) (rest : List Token)
      → prefix_kind t.type ≡ name
      → Suffix all (t ∷ rest)
      → parse_prefix (suc f) (parser_at all (t ∷ rest))
        ≡ ok (identifier t.literal, parser_at all rest)
  name-Reads f t rest k suf = rw (parse_prefix-suc, consume-at all t rest suf) (rw (k, prefix_case))

  -- A parenthesised body.
  paren-Reads :
      (f : ℕ) (e : SqlExpr) (body rest : List Token)
      → Suffix all (left_paren ∷ (body ++ right_paren ∷ rest))
      → parse f 0 (parser_at all (body ++ right_paren ∷ rest))
        ≡ ok (e, parser_at all (right_paren ∷ rest))
      → parse_prefix (suc f) (parser_at all (left_paren ∷ (body ++ right_paren ∷ rest)))
        ≡ ok (e, parser_at all rest)
  unfolding prefix_kind
  paren-Reads f e body rest suf run =
      let inner = Suffix-tail all left_paren (body ++ right_paren ∷ rest) suf in
      let close = Suffix-append all body (right_paren ∷ rest) inner in
      rw (parse_prefix-suc, consume-at all left_paren (body ++ right_paren ∷ rest) suf)
        (rw run (rw (next_token_pos-at all right_paren rest close)))

  name-parse :
      (f q : ℕ) (t : Token) (rest : List Token)
      → prefix_kind t.type ≡ name
      → Suffix all (t ∷ rest)
      → 3 ≤ f
      → parse f q (parser_at all (t ∷ rest))
        ≡ parse_loop (f - 1) q (identifier t.literal) (parser_at all rest)
  name-parse zero q t rest k suf h = absurd (omega arith)
  name-parse (suc zero) q t rest k suf h = absurd (omega arith)
  name-parse (suc (suc f)) q t rest k suf h =
      let e : suc f ≡ suc (suc f) - 1 = omega arith in
      prefix-Reads (suc f) q (identifier t.literal) (t ∷ rest) rest (name-Reads f t rest k suf)
      ∙ ap (λ (n : ℕ). parse_loop n q (identifier t.literal) (parser_at all rest)) e

  paren-parse :
      (f q : ℕ) (op : Op) (l r : Ast) (rest : List Token)
      → Reads (level op - 1) l
      → Reads (level op) r
      → Suffix all (in_parens (infix_tokens op (emit (level op - 1) l) (emit (level op) r)) ++ rest)
      → 3 * length (in_parens (infix_tokens op (emit (level op - 1) l) (emit (level op) r))) ≤ f
      → parse f q (
          parser_at all
            (in_parens (infix_tokens op (emit (level op - 1) l) (emit (level op) r)) ++ rest))
        ≡ parse_loop (f - 1) q (to_sql (node op l r)) (parser_at all rest)
  unfolding precedence_of
  paren-parse f q op l r rest read_l read_r suf enough =
      let body = infix_tokens op (emit (level op - 1) l) (emit (level op) r) in
      let split : body ++ right_paren ∷ [] ++ rest ≡ body ++ right_paren ∷ rest =
        append_assoc body (right_paren ∷ []) rest in
      let suf' : Suffix all (left_paren ∷ (body ++ right_paren ∷ rest)) = rw split at suf in
      let inner = Suffix-tail all left_paren (body ++ right_paren ∷ rest) suf' in
      let size = length-append body (right_paren ∷ []) in
      let short = spine-le (level op - 1) l in
      let size' = length-append (emit (level op - 1) l) (op_token op ∷ emit (level op) r) in
      let two : f ≡ suc (suc (f - 2)) = omega arith in
      let one : suc (f - 2) ≡ f - 1 = omega arith in
      let run =
        body-Reads op l r 0 (f - 2) (right_paren ∷ rest) read_l read_r (level_pos op) (omega arith)
          inner (omega arith)
        ∙ parse_loop-stop all (f - 2 - (spine (level op - 1) l + 1)) 0 (to_sql (node op l r))
            (right_paren ∷ rest) (Suffix-append all body (right_paren ∷ rest) inner) (omega arith)
            (omega arith) in
      let whole =
        prefix-Reads (suc (f - 2)) q (to_sql (node op l r))
          (left_paren ∷ (body ++ right_paren ∷ rest)) rest
          (paren-Reads (f - 2) (to_sql (node op l r)) body rest suf' run) in
      rw split (
        ap (λ (n : ℕ). parse n q (parser_at all (left_paren ∷ (body ++ right_paren ∷ rest)))) two
        ∙ whole
        ∙ ap (λ (n : ℕ). parse_loop n q (to_sql (node op l r)) (parser_at all rest)) one)

  parse-Reads : (p : ℕ) (a : Ast) → Reads p a
  unfolding emit spine to_sql prefix_kind
  parse-Reads p (column s) q f rest h low suf enough =
      name-parse f q (column_token s) rest refl suf enough
  parse-Reads p (number s) q f rest h low suf enough =
      name-parse f q (number_token s) rest refl suf enough
  parse-Reads p (node op l r) q f rest h low suf enough =
      let read_l = parse-Reads (level op - 1) l in
      let read_r = parse-Reads (level op) r in
      elim (Bool-cases (ltb p (level op))) [
        | inl e ↦ rw e (
            body-Reads op l r q f rest read_l read_r (ground arith) (ground arith) (rw e at suf)
              (rw e at enough))
        | inr e ↦ rw e (paren-parse f q op l r rest read_l read_r (rw e at suf) (rw e at enough))
      ]

-- An expression that is written out in tokens, with parentheses only where the levels of the
-- operators ask for them, parses to itself at the precedence that it is written for, wherever it
-- stands in the input, and the parser stops at what follows, if that starts no operator of a
-- higher level.
pub parse-emit :
    (all : List Token) (a : Ast) (q f : ℕ) (rest : List Token)
    → Suffix all (emit q a ++ rest)
    → next_level rest ≤ q
    → 3 * length (emit q a) < f
    → parse f q (parser_at all (emit q a ++ rest)) ≡ ok (to_sql a, parser_at all rest)
parse-emit all a q f rest suf low enough =
    let short = spine-le q a in
    parse-Reads all q a q f rest (omega arith) (omega arith) suf (omega arith)
    ∙ parse_loop-stop all (f - spine q a) q (to_sql a) rest (Suffix-append all (emit q a) rest suf)
        (omega arith) low

-- The last thing of the input.
pub parse-emit_end :
    (all : List Token) (a : Ast) (q f : ℕ)
    → Suffix all (emit q a)
    → 3 * length (emit q a) < f
    → parse f q (parser_at all (emit q a)) ≡ ok (to_sql a, parser_at all [])
parse-emit_end all a q f suf enough =
    let end = append-nil (emit q a) in
    let run =
      parse-emit all a q f [] (let s : Suffix all (emit q a ++ []) = rw end suf in s) (omega arith)
        enough in
    rw end at run

-- A whole expression that is written out in tokens parses to itself, and all tokens are read.
parse_expression :
    (a : Ast) (f : ℕ)
    → 3 * length (emit 0 a) < f
    → parse f 0 (new_parser (emit 0 a))
      ≡ ok (to_sql a, record { tokens = emit 0 a; ahead = length (emit 0 a) })
unfolding new_parser
parse_expression a f enough =
    let all = emit 0 a in
    let start : 0 ≡ length all - length all = omega arith in
    let stop : length all - 0 ≡ length all = omega arith in
    ap (λ (n : ℕ). parse f 0 (record { tokens = all; ahead = n })) start
    ∙ parse-emit_end all a 0 f ([], refl) enough
    ∙ ap (λ (n : ℕ). ok (to_sql a, record { tokens = all; ahead = n })) stop
