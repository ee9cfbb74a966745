-- ===== src/Sql/Parser/Steps.antt =====
-- The state of the parser as a function of the tokens that are left, and its steps there.
use somedb.Base.{
  ℕ, suc, ◌+◌, ◌-◌, ◌≡◌, Bool, true, false, none, some, List, [], ◌∷◌, arith, length, ltb, leb,
  Suffix, Suffix-length, get_elem?-suffix,
}
use somedb.Sql.Token.{Token, text, text_eq}
use somedb.Sql.Parser.{
  ok, Parser, next_token_pos, peek_token_pos, at, consume, peek, precedence_of, next_precedence,
  where_follows,
}

abbrev pub parser_at : List Token → List Token → Parser
parser_at all ts = record { tokens = all; ahead = length all - length ts }

abbrev pub next_level : List Token → ℕ
next_level [] = 0
next_level (t ∷ ts) = precedence_of t.type

abbrev pub where_next : List Token → Bool
where_next [] = false
where_next (t ∷ ts) = text_eq t.literal (text "WHERE")

module _ (all : List Token) where
  pub next_token_pos-at :
      (t : Token) (ts : List Token)
      → Suffix all (t ∷ ts)
      → next_token_pos (parser_at all (t ∷ ts))
        ≡ ok (some (length all - length (t ∷ ts)), parser_at all ts)
  unfolding next_token_pos
  next_token_pos-at t ts suf =
      let h = Suffix-length all (t ∷ ts) suf in
      let inside : leb (length all - suc (length ts)) (length all) ≡ true = ground arith in
      let step : length all - suc (length ts) + 1 ≡ length all - length ts = omega arith in
      rw (inside, step)

  pub peek_token_pos-at :
      (t : Token) (ts : List Token)
      → Suffix all (t ∷ ts)
      → peek_token_pos (parser_at all (t ∷ ts)) ≡ some (length all - length (t ∷ ts))
  unfolding peek_token_pos
  peek_token_pos-at t ts suf =
      let h = Suffix-length all (t ∷ ts) suf in
      let inside : ltb (length all - suc (length ts)) (length all) ≡ true = ground arith in
      rw inside

  pub peek_token_pos-end : peek_token_pos (parser_at all []) ≡ none
  unfolding peek_token_pos
  peek_token_pos-end =
      let outside : ltb (length all - 0) (length all) ≡ false = ground arith in rw outside

  pub peek-at :
      (t : Token) (ts : List Token)
      → Suffix all (t ∷ ts)
      → peek (parser_at all (t ∷ ts)) ≡ ok (t, parser_at all (t ∷ ts))
  unfolding at
  peek-at t ts suf = rw (peek_token_pos-at t ts suf) (rw (get_elem?-suffix all t ts suf, at))

  pub consume-at :
      (t : Token) (ts : List Token)
      → Suffix all (t ∷ ts)
      → consume (parser_at all (t ∷ ts)) ≡ ok (t, parser_at all ts)
  unfolding at
  consume-at t ts suf = rw (next_token_pos-at t ts suf) (rw (get_elem?-suffix all t ts suf, at))

  pub next_precedence-at :
      (ts : List Token) → Suffix all ts → next_precedence (parser_at all ts) ≡ next_level ts
  unfolding next_precedence
  next_precedence-at [] suf = rw (peek_token_pos-end, next_precedence)
  next_precedence-at (t ∷ ts) suf =
      rw (peek_token_pos-at t ts suf, next_precedence) (rw (get_elem?-suffix all t ts suf))

  pub where_follows-at :
      (ts : List Token) → Suffix all ts → where_follows (parser_at all ts) ≡ where_next ts
  unfolding where_follows
  where_follows-at [] suf = rw (peek_token_pos-end, where_follows)
  where_follows-at (t ∷ ts) suf =
      rw (peek_token_pos-at t ts suf, where_follows) (rw (get_elem?-suffix all t ts suf))
