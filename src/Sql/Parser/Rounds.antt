-- ===== src/Sql/Parser/Rounds.antt =====
-- src/sql/parser.cpp: the rounds of the loop in `parse`, and how many there are for an expression.
use somedb.Base.{
  ℕ, zero, suc, ◌+◌, ◌-◌, ◌<◌, ◌≤◌, ◌≡◌, refl, true, false, inl, inr, List, ◌∷◌, arith, length,
  length-append, ltb, if◌then◌else◌, Suffix, Bool-cases,
}
use somedb.Sql.Expression.{SqlExpr, binary}
use somedb.Sql.Token.{Token}
use somedb.Sql.Parser.{ok, precedence_of, is_infix, parse, parse_loop, parse_infix}
use somedb.Sql.Parser.Syntax.{Op, equal, level, op_token, Ast, column, number, node, emit}
use somedb.Sql.Parser.Unfold.{infix_case, parse_loop-suc, parse_infix-suc}
use somedb.Sql.Parser.Steps.{parser_at, next_level, next_token_pos-at, peek-at, next_precedence-at}

pub op_token-level : (op : Op) → precedence_of (op_token op).type ≡ level op
unfolding op_token level precedence_of
op_token-level equal = refl
op_token-level _ = refl

pub op_token-infix : (op : Op) → is_infix (op_token op).type ≡ true
unfolding op_token is_infix
op_token-infix equal = refl
op_token-infix _ = refl

pub level_pos : (op : Op) → 0 < level op
unfolding level
level_pos equal = omega arith
level_pos _ = omega arith

-- The rounds that the loop of `parse` makes on the left spine, and one.
unfoldable pub spine : ℕ → Ast → ℕ
spine p (column s) = 1
spine p (number s) = 1
spine p (node op l r) = if ltb p (level op) then spine (level op - 1) l + 1 else 1

pub spine-le : (p : ℕ) (a : Ast) → spine p a ≤ length (emit p a)
unfolding spine emit
spine-le p (column s) = omega arith
spine-le p (number s) = omega arith
spine-le p (node op l r) = elim (Bool-cases (ltb p (level op))) [
  | inr e ↦ rw e (omega arith)
  | inl e ↦ rw e (
      omega (
        arith,
        length-append (emit (level op - 1) l) (op_token op ∷ emit (level op) r),
        spine-le (level op - 1) l,
      ))
]

module _ (all : List Token) where
  -- The loop ends where the next level is not above the precedence.
  pub parse_loop-stop :
      (f q : ℕ) (e : SqlExpr) (rest : List Token)
      → Suffix all rest
      → 0 < f
      → next_level rest ≤ q
      → parse_loop f q e (parser_at all rest) ≡ ok (e, parser_at all rest)
  unfolding parse
  parse_loop-stop zero q e rest suf pos h = absurd (omega arith)
  parse_loop-stop (suc f) q e rest suf pos h =
      let low : ltb q (next_level rest) ≡ false = ground arith in
      rw (next_precedence-at all rest suf, low)

  pub parse_infix-step :
      (f q : ℕ) (op : Op) (e r : SqlExpr) (ts rest : List Token)
      → Suffix all (op_token op ∷ ts)
      → parse f q (parser_at all ts) ≡ ok (r, parser_at all rest)
      → parse_infix (suc f) e q (parser_at all (op_token op ∷ ts))
        ≡ ok (binary e (op_token op).literal r, parser_at all rest)
  parse_infix-step f q op e r ts rest suf run =
      rw (parse_infix-suc, peek-at all (op_token op) ts suf)
        (rw (op_token-infix op, infix_case) (rw (next_token_pos-at all (op_token op) ts suf, run)))

  -- One round of the loop, at an operator whose right operand parses.
  pub parse_loop-step :
      (f q : ℕ) (op : Op) (e r : SqlExpr) (ts rest : List Token)
      → Suffix all (op_token op ∷ ts)
      → q < level op
      → parse f (level op) (parser_at all ts) ≡ ok (r, parser_at all rest)
      → parse_loop (suc (suc f)) q e (parser_at all (op_token op ∷ ts))
        ≡ parse_loop (suc f) q (binary e (op_token op).literal r) (parser_at all rest)
  parse_loop-step f q op e r ts rest suf h run =
      let above : ltb q (level op) ≡ true = ground arith in
      rw (
        parse_loop-suc,
        next_precedence-at all (op_token op ∷ ts) suf,
        op_token-level op,
        above,
        parse_infix-step f (level op) op e r ts rest suf run,
      )
