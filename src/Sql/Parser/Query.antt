-- ===== src/Sql/Parser/Query.antt =====
-- src/sql/parser.cpp: a SELECT statement, as tokens and as text, is read back by the parser and
-- by lexer and parser together.
use somedb.Base.{
  ℕ, zero, suc, ◌+◌, ◌-◌, ◌*◌, ◌<◌, ◌≡◌, refl, sym, ap, ◌∙◌, true, false, Option, none, some, List,
  [], ◌∷◌, ◌++◌, append-nil, arith, length, length-append, Suffix, Suffix-tail, Suffix-length,
  Suffix-append, get_elem?-suffix,
}
use somedb.Sql.Expression.{
  SqlExpr, SqlExprs, Selection, select, identifier, everything, where_, no_exprs, push_back,
}
use somedb.Sql.Token.{Text, Token, TokenType, text, text_eq}
use somedb.Sql.Parser.{
  ok, bind, at, is_comma, starts_projection, prefix_kind, parse, parse_select_statement,
  parse_selection, projection_loop, populate_projection_list, new_parser,
}
use somedb.Sql.Parser.Syntax.{Ast, to_sql, emit}
use somedb.Sql.Parser.Unfold.{
  parse-suc, parse_prefix-suc, parse_select_statement-suc, parse_selection-suc,
}
use somedb.Sql.Parser.Steps.{parser_at, next_token_pos-at, peek-at, consume-at, where_follows-at}
use somedb.Sql.Parser.Rounds.{parse_loop-stop}
use somedb.Sql.Parser.RoundTrip.{parse-emit_end}

-- An item of the projection: a column, or `*`.
pub data Item : Type 0 where
  star : Item
  column : Text → Item

pub record Query : Type 0 where
  pub first : Item
  pub others : List Item
  pub table : Text
  pub condition : Option Ast

abbrev pub keyword : Text → Token
keyword s = record { type = TokenType.keyword; literal = s }

abbrev pub comma : Token
comma = record { type = TokenType.comma; literal = text "," }

unfoldable pub item_token : Item → Token
item_token star = record { type = TokenType.asterisk; literal = text "*" }
item_token (column s) = record { type = TokenType.identifier; literal = s }

abbrev pub other_items : List Item → List Token
other_items [] = []
other_items (i ∷ is) = comma ∷ item_token i ∷ other_items is

unfoldable pub condition_tokens : Option Ast → List Token
condition_tokens none = []
condition_tokens (some a) = keyword (text "WHERE") ∷ emit 0 a

abbrev pub after_items : Query → List Token
after_items q =
    keyword (text "FROM")
    ∷ record { type = TokenType.identifier; literal = q.table }
    ∷ condition_tokens q.condition

unfoldable pub query_tokens : Query → List Token
query_tokens q =
    keyword (text "SELECT") ∷ item_token q.first ∷ (other_items q.others ++ after_items q)

unfoldable pub push_items : SqlExprs → List Item → SqlExprs
push_items es [] = es
push_items es (i ∷ is) = push_items (push_back es (identifier (item_token i).literal)) is

unfoldable pub to_selection : Option Ast → Selection
to_selection none = everything
to_selection (some a) = where_ (to_sql a)

-- What the parser builds for a query.
unfoldable pub query_sql : Query → SqlExpr
query_sql q = select q.table (push_items no_exprs (q.first ∷ q.others)) (to_selection q.condition)

length-other_items : (is : List Item) → length (other_items is) ≡ 2 * length is
length-other_items [] = omega arith
length-other_items (i ∷ is) = omega (arith, length-other_items is)

module _ (all : List Token) where
  projection_loop-items :
      (f : ℕ) (es : SqlExprs) (is : List Item) (t : Token) (ts : List Token)
      → Suffix all (other_items is ++ t ∷ ts)
      → is_comma t.type ≡ false
      → length is < f
      → projection_loop f es (parser_at all (other_items is ++ t ∷ ts))
        ≡ ok (push_items es is, parser_at all (t ∷ ts))
  unfolding projection_loop push_items
  projection_loop-items zero es is t ts suf end h = absurd (omega arith)
  projection_loop-items (suc f) es [] t ts suf end h = rw (peek-at all t ts suf) (rw (end, bind))
  projection_loop-items (suc f) es (i ∷ is) t ts suf end h =
      let items = other_items is ++ t ∷ ts in
      let suf₁ = Suffix-tail all comma (item_token i ∷ items) suf in
      let suf₂ = Suffix-tail all (item_token i) items suf₁ in
      rw (peek-at all comma (item_token i ∷ items) suf) (
        rw (next_token_pos-at all comma (item_token i ∷ items) suf) (
          rw (consume-at all (item_token i) items suf₁) (
            projection_loop-items f (push_back es (identifier (item_token i).literal)) is t ts suf₂
              end (omega arith))))

  item_token-starts : (i : Item) → starts_projection (item_token i).type ≡ true
  unfolding item_token
  item_token-starts star = refl
  item_token-starts (column s) = refl

  populate-items :
      (f : ℕ) (i : Item) (is : List Item) (t : Token) (ts : List Token)
      → Suffix all (item_token i ∷ (other_items is ++ t ∷ ts))
      → is_comma t.type ≡ false
      → length is < f
      → populate_projection_list f (parser_at all (item_token i ∷ (other_items is ++ t ∷ ts)))
        ≡ ok (push_items no_exprs (i ∷ is), parser_at all (t ∷ ts))
  unfolding populate_projection_list push_items
  populate-items f i is t ts suf end h =
      let items = other_items is ++ t ∷ ts in
      rw (peek-at all (item_token i) items suf) (
        rw (item_token-starts i, bind)
          (rw (consume-at all (item_token i) items suf) (
            projection_loop-items f (push_back no_exprs (identifier (item_token i).literal)) is t ts
              (Suffix-tail all (item_token i) items suf) end h)))

  parse_selection-tokens :
      (f : ℕ) (c : Option Ast)
      → Suffix all (condition_tokens c)
      → 3 * length (condition_tokens c) < f
      → parse_selection f (parser_at all (condition_tokens c))
        ≡ ok (to_selection c, parser_at all [])
  unfolding condition_tokens to_selection text_eq
  parse_selection-tokens zero c suf h = absurd (omega arith)
  parse_selection-tokens (suc f) none suf h = rw (parse_selection-suc, where_follows-at all [] suf)
  parse_selection-tokens (suc f) (some a) suf h =
      rw (parse_selection-suc, where_follows-at all (keyword (text "WHERE") ∷ emit 0 a) suf)
        (rw (next_token_pos-at all (keyword (text "WHERE")) (emit 0 a) suf) (
          rw (
            parse-emit_end all a 0 f (Suffix-tail all (keyword (text "WHERE")) (emit 0 a) suf)
              (omega arith))))

  -- The token that was consumed last is there.
  at-last :
      (t : Token) (ts : List Token)
      → Suffix all (t ∷ ts)
      → at (some ((parser_at all ts).ahead - 1)) (parser_at all ts) ≡ ok (t, parser_at all ts)
  unfolding at
  at-last t ts suf =
      let h = Suffix-length all (t ∷ ts) suf in
      let e : length all - length ts - 1 ≡ length all - suc (length ts) = omega arith in
      rw e (rw (get_elem?-suffix all t ts suf, at))

  parse_select-tokens :
      (f : ℕ) (q : Query)
      → Suffix all (query_tokens q)
      → 3 * length (query_tokens q) < f
      → parse_select_statement f
          (parser_at all (item_token q.first ∷ (other_items q.others ++ after_items q)))
        ≡ ok (query_sql q, parser_at all [])
  unfolding query_tokens query_sql text_eq
  parse_select-tokens zero q suf h = absurd (omega arith)
  parse_select-tokens (suc f) q suf h =
      let items = item_token q.first ∷ (other_items q.others ++ after_items q) in
      let table : Token = record { type = TokenType.identifier; literal = q.table } in
      let suf₁ = Suffix-tail all (keyword (text "SELECT")) items suf in
      let suf₂ : Suffix all (after_items q) =
        Suffix-append all (other_items q.others) (after_items q)
          (Suffix-tail all (item_token q.first) (other_items q.others ++ after_items q) suf₁) in
      let suf₃ =
        Suffix-tail all (keyword (text "FROM")) (table ∷ condition_tokens q.condition) suf₂ in
      let suf₄ = Suffix-tail all table (condition_tokens q.condition) suf₃ in
      let size = length-append (other_items q.others) (after_items q) in
      rw (parse_select_statement-suc, at-last (keyword (text "SELECT")) items suf)
        (rw
          (populate-items f q.first q.others (keyword (text "FROM"))
            (table ∷ condition_tokens q.condition) suf₁ refl
            (omega (arith, length-other_items q.others)))
          (rw (consume-at all (keyword (text "FROM")) (table ∷ condition_tokens q.condition) suf₂) (
            rw (consume-at all table (condition_tokens q.condition) suf₃)
              (rw (parse_selection-tokens f q.condition suf₄ (omega arith))))))

-- The tokens of a query parse to it: the projection in its order, the table, and the condition
-- with its operators at their levels. All tokens are read.
pub parse-query_tokens :
    (q : Query) (f : ℕ)
    → 3 * length (query_tokens q) + 3 < f
    → parse f 0 (new_parser (query_tokens q)) ≡ ok (query_sql q, parser_at (query_tokens q) [])
unfolding new_parser query_tokens prefix_kind
parse-query_tokens q zero h = absurd (omega arith)
parse-query_tokens q (suc zero) h = absurd (omega arith)
parse-query_tokens q (suc (suc f)) h =
    let all = query_tokens q in
    let items = item_token q.first ∷ (other_items q.others ++ after_items q) in
    let start : 0 ≡ length all - length all = omega arith in
    ap (λ (n : ℕ). parse (suc (suc f)) 0 (record { tokens = all; ahead = n })) start
    ∙ rw (parse-suc, parse_prefix-suc, consume-at all (keyword (text "SELECT")) items ([], refl))
        (rw (parse_select-tokens all f q ([], refl) (omega arith)) (
          parse_loop-stop all (suc f) 0 (query_sql q) [] (all, sym (append-nil all)) (omega arith)
            (omega arith)))
