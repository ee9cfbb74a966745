-- ===== src/Sql/Parser/Total.antt =====
-- src/sql/parser.cpp: the parser ends. Its fuel is enough at three units for each token that is
-- left and two more, so a run returns or throws what the source throws.
use somedb.Base.{
  ℕ, zero, suc, ◌+◌, ◌-◌, ◌*◌, ◌<◌, ◌≤◌, ◌≡◌, ◌≢◌, refl, inl, inr, ◌⊎◌, Option, none, some, List,
  ◌∷◌, [], arith, length, ltb, leb, Bool-cases, Option-cases, get_elem?,
}
use somedb.Sql.Expression.{SqlExpr, SqlExprs}
use somedb.Sql.Token.{Token, text, text_eq}
use somedb.Sql.Parser.{
  Error, out_of_fuel, PrefixKind, name, paren, statement, unsupported, prefix_kind, Result, ok,
  throw, Parser, M, new_parser, bind, next_token_pos, peek_token_pos, at, consume, peek,
  next_precedence, is_infix, is_comma, starts_projection, projection_loop, populate_projection_list,
  where_follows, parse, parse_loop, parse_prefix, parse_infix, parse_select_statement,
  parse_selection,
}

-- The tokens that are left, with one more for the step past the end.
abbrev pub left : Parser → ℕ
left p = length p.tokens + 1 - p.ahead

-- The run did not stop for want of fuel, and if it returns, `P` holds of the number that is left.
pub data Ends {ℓ} {A : Type ℓ} (P : ℕ → Type 0) : Result (A × Parser) → Type ℓ where
  returns : {a : A} {p : Parser} → P (left p) → Ends P (ok (a, p))
  throws : {e : Error} → e ≢ out_of_fuel → Ends P (throw e)

module _ {ℓ κ} {A : Type ℓ} {B : Type κ} where
  Ends-bind :
      (P Q : ℕ → Type 0) (r : Result (A × Parser)) (f : A → M B)
      → Ends P r
      → ((a : A) (p : Parser) → P (left p) → Ends Q (f a p))
      → Ends Q (bind r f)
  Ends-bind P Q _ f (returns {a} {p} h) k = k a p h
  Ends-bind P Q _ f (throws h) k = throws h

Ends-mono {ℓ} :
    {A : Type ℓ} (P Q : ℕ → Type 0) {r : Result (A × Parser)}
    → Ends P r
    → ((m : ℕ) → P m → Q m)
    → Ends Q r
Ends-mono P Q (returns {a} {p} h) k = returns (k (left p) h)
Ends-mono P Q (throws h) k = throws h

Ends-throw {ℓ} :
    {A : Type ℓ} {P : ℕ → Type 0} {r : Result (A × Parser)} → Ends P r → r ≢ throw out_of_fuel
Ends-throw (returns h) e = cc
Ends-throw (throws {e} h) e' = h (cc)

abbrev Below : ℕ → ℕ → Type 0
Below n m = m < n

abbrev AtMost : ℕ → ℕ → Type 0
AtMost n m = m ≤ n

Ends-next_token_pos : (p : Parser) → Ends (AtMost (left p)) (next_token_pos p)
unfolding next_token_pos
Ends-next_token_pos p = elim (Bool-cases (leb p.ahead (length p.tokens))) [
  | inl e ↦ rw e (returns (ground arith))
  | inr e ↦ rw e (returns (ground arith))
]

Ends-at : (i : Option ℕ) (p : Parser) → Ends (AtMost (left p)) (at i p)
unfolding at
Ends-at none p = throws (λ e. cc)
Ends-at (some i) p = elim (Option-cases (get_elem? p.tokens i)) [
  | inl e ↦ rw (e, at) (throws (λ e'. cc))
  | inr (t, e) ↦ rw (e, at) (returns (omega arith))
]

get_elem?-end {ℓ} : {A : Type ℓ} (xs : List A) (i : ℕ) → length xs ≤ i → get_elem? xs i ≡ none
get_elem?-end [] i h = refl
get_elem?-end (x ∷ xs) zero h = absurd (omega arith)
get_elem?-end (x ∷ xs) (suc i) h = get_elem?-end xs i (omega arith)

get_elem?-lt {ℓ} :
    {A : Type ℓ} (xs : List A) (i : ℕ) (x : A) → get_elem? xs i ≡ some x → i < length xs
get_elem?-lt [] i x h = cc
get_elem?-lt (y ∷ xs) zero x h = omega arith
get_elem?-lt (y ∷ xs) (suc i) x h = omega (arith, get_elem?-lt xs i x h)

-- A token that is consumed is one less.
Ends-consume : (p : Parser) → Ends (Below (left p)) (consume p)
unfolding next_token_pos at
Ends-consume p = elim (Bool-cases (leb p.ahead (length p.tokens))) [
  | inr e ↦ rw e (throws (λ e'. cc))
  | inl e ↦ rw e (elim (Option-cases (get_elem? p.tokens p.ahead)) [
    | inl f ↦ rw (f, at) (throws (λ e'. cc))
    | inr (t, f) ↦ rw (f, at) (returns (omega (arith, get_elem?-lt p.tokens p.ahead t f)))
  ])
]

-- A position that is peeked at is consumed by the next step.
Ends-peek : (p : Parser) → Ends (λ m. (m ≤ left p) × (1 < m)) (peek p)
unfolding at peek_token_pos
Ends-peek p = elim (Bool-cases (ltb p.ahead (length p.tokens))) [
  | inr e ↦ rw e (throws (λ e'. cc))
  | inl e ↦ rw e (elim (Option-cases (get_elem? p.tokens p.ahead)) [
    | inl f ↦ rw (f, at) (throws (λ e'. cc))
    | inr (t, f) ↦
        rw (f, at) (returns (omega arith, omega (arith, get_elem?-lt p.tokens p.ahead t f)))
  ])
]

Ends-step : (p : Parser) → 1 < left p → Ends (Below (left p)) (next_token_pos p)
unfolding next_token_pos
Ends-step p h = elim (Bool-cases (leb p.ahead (length p.tokens))) [
  | inl e ↦ rw e (returns (ground arith))
  | inr e ↦ rw e (returns (ground arith))
]

Ends-projection_loop :
    (f : ℕ) (plist : SqlExprs) (p : Parser)
    → left p < f
    → Ends (AtMost (left p)) (projection_loop f plist p)
unfolding projection_loop
Ends-projection_loop zero plist p h = absurd (omega arith)
Ends-projection_loop (suc f) plist p h = Ends-bind _ _ (peek p) _ (Ends-peek p) λ tok q lq.
    elim (Bool-cases (is_comma tok.type)) [
      | inr e ↦ rw e (returns lq.0)
      | inl e ↦ rw e (
          Ends-bind _ _ (next_token_pos q) _ (Ends-step q lq.1) λ _ q₁ l₁.
            Ends-bind _ _ (consume q₁) _ (Ends-consume q₁) λ t q₂ l₂.
              Ends-mono _ _ (Ends-projection_loop f _ q₂ (omega arith)) λ m k. omega arith)
    ]

Ends-populate_projection_list :
    (f : ℕ) (p : Parser) → left p ≤ f → Ends (AtMost (left p)) (populate_projection_list f p)
unfolding populate_projection_list
Ends-populate_projection_list f p h = Ends-bind _ _ (peek p) _ (Ends-peek p) λ tok q lq.
    elim (Bool-cases (starts_projection tok.type)) [
      | inr e ↦ rw e (throws (λ e'. cc))
      | inl e ↦ rw e (
          Ends-bind _ _ (consume q) _ (Ends-consume q)
            λ t q₁ l₁. Ends-mono _ _ (Ends-projection_loop f _ q₁ (omega arith)) λ m k. omega arith)
    ]

-- A step that may be taken past the end, and a value.
Ends-close {ℓ} :
    {A : Type ℓ} (n : ℕ) (a : A) (p : Parser)
    → left p ≤ n
    → Ends (AtMost n) (bind (next_token_pos p) λ _ q. ok (a, q))
Ends-close n a p h =
    Ends-bind _ _ (next_token_pos p) _ (Ends-next_token_pos p) λ _ q l. returns (omega arith)

PrefixKind-cases :
    (k : PrefixKind) → (k ≡ name) ⊎ ((k ≡ paren) ⊎ ((k ≡ statement) ⊎ (k ≡ unsupported)))
PrefixKind-cases name = inl refl
PrefixKind-cases paren = inr (inl refl)
PrefixKind-cases statement = inr (inr (inl refl))
PrefixKind-cases unsupported = inr (inr (inr refl))

-- The bounds: a call of `parse` needs three units for each token that is left and two more.
mutual
  unfolding parse

  Ends-parse :
      (f prec : ℕ) (p : Parser) → 3 * left p + 1 < f → Ends (Below (left p)) (parse f prec p)
  Ends-parse zero prec p h = absurd (omega arith)
  Ends-parse (suc f) prec p h =
      Ends-bind _ _ (parse_prefix f p) _ (Ends-parse_prefix f p (omega arith))
        λ e q l. Ends-mono _ _ (Ends-parse_loop f prec e q (omega arith)) λ m k. omega arith

  Ends-parse_loop :
      (f prec : ℕ) (e : SqlExpr) (p : Parser)
      → 3 * left p + 1 < f
      → Ends (AtMost (left p)) (parse_loop f prec e p)
  Ends-parse_loop zero prec e p h = absurd (omega arith)
  Ends-parse_loop (suc f) prec e p h = elim (Bool-cases (ltb prec (next_precedence p))) [
    | inr t ↦ rw t (returns (omega arith))
    | inl t ↦ rw t (
        Ends-bind _ _ (parse_infix f e (next_precedence p) p) _
          (Ends-parse_infix f e (next_precedence p) p (omega arith))
          λ e' q l. Ends-mono _ _ (Ends-parse_loop f prec e' q (omega arith)) λ m k. omega arith)
  ]

  Ends-parse_prefix :
      (f : ℕ) (p : Parser) → 3 * left p < f → Ends (Below (left p)) (parse_prefix f p)
  Ends-parse_prefix zero p h = absurd (omega arith)
  Ends-parse_prefix (suc f) p h = Ends-bind _ _ (consume p) _ (Ends-consume p) λ tok q l.
      elim (PrefixKind-cases (prefix_kind tok.type)) [
        | inl k ↦ rw k (returns l)
        | inr (inl k) ↦ rw k (
            Ends-bind _ _ (parse f 0 q) _ (Ends-parse f 0 q (omega arith))
              λ e q₁ l₁. Ends-mono _ _ (Ends-close (left q₁) e q₁ (omega arith)) λ m j. omega arith)
        | inr (inr (inl k)) ↦
            rw k (Ends-mono _ _ (Ends-parse_select_statement f q (omega arith)) λ m j. omega arith)
        | inr (inr (inr k)) ↦ rw k (throws (λ e'. cc))
      ]

  Ends-parse_infix :
      (f : ℕ) (e : SqlExpr) (prec : ℕ) (p : Parser)
      → 3 * left p < f
      → Ends (Below (left p)) (parse_infix f e prec p)
  Ends-parse_infix zero e prec p h = absurd (omega arith)
  Ends-parse_infix (suc f) e prec p h = Ends-bind _ _ (peek p) _ (Ends-peek p) λ tok q lq.
      elim (Bool-cases (is_infix tok.type)) [
        | inr t ↦ rw t (throws (λ e'. cc))
        | inl t ↦ rw t (
            Ends-bind _ _ (next_token_pos q) _ (Ends-step q lq.1) λ _ q₁ l₁.
              Ends-bind _ _ (parse f prec q₁) _ (Ends-parse f prec q₁ (omega arith))
                λ r q₂ l₂. returns (omega arith))
      ]

  Ends-parse_select_statement :
      (f : ℕ) (p : Parser)
      → 3 * left p + 1 < f
      → Ends (AtMost (left p)) (parse_select_statement f p)
  Ends-parse_select_statement zero p h = absurd (omega arith)
  Ends-parse_select_statement (suc f) p h =
      Ends-bind _ _ (at (some (p.ahead - 1)) p) _ (Ends-at _ p) λ _ q₀ l₀.
        Ends-bind _ _ (populate_projection_list f q₀) _
          (Ends-populate_projection_list f q₀ (omega arith))
          λ projection q₁ l₁. Ends-bind _ _ (consume q₁) _ (Ends-consume q₁) λ from q₂ l₂.
            elim (Bool-cases (text_eq from.literal (text "FROM"))) [
              | inr t ↦ rw t (throws (λ e'. cc))
              | inl t ↦ rw t (
                  Ends-bind _ _ (consume q₂) _ (Ends-consume q₂) λ table q₃ l₃.
                    Ends-bind _ _ (parse_selection f q₃) _ (Ends-parse_selection f q₃ (omega arith))
                      λ selection q₄ l₄. returns (omega arith))
            ]

  Ends-parse_selection :
      (f : ℕ) (p : Parser) → 3 * left p + 2 < f → Ends (AtMost (left p)) (parse_selection f p)
  Ends-parse_selection zero p h = absurd (omega arith)
  Ends-parse_selection (suc f) p h = elim (Bool-cases (where_follows p)) [
    | inr t ↦ rw (t, parse_selection) (returns (omega arith))
    | inl t ↦
        rw (t, parse_selection)
          (Ends-bind _ _ (next_token_pos p) _ (Ends-next_token_pos p) λ _ q l.
            Ends-bind _ _ (parse f 0 q) _ (Ends-parse f 0 q (omega arith))
              λ e q₁ l₁. returns (omega arith))
  ]

-- With three units of fuel for each token and five more, parsing any list of tokens returns or
-- throws an error of the source: the loops and the recursion of the parser end.
pub parse-ne-out_of_fuel :
    (toks : List Token) (f : ℕ)
    → 3 * length toks + 4 < f
    → parse f 0 (new_parser toks) ≢ throw out_of_fuel
unfolding new_parser
parse-ne-out_of_fuel toks f h = Ends-throw (Ends-parse f 0 (new_parser toks) (omega arith))
