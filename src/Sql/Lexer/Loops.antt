-- ===== src/Sql/Lexer/Loops.antt =====
-- The state of the lexer as a function of the text that is left, and its two loops.
use somedb.Base.{
  ℕ, zero, suc, ◌+◌, ◌-◌, ◌%◌, ◌<◌, ◌≤◌, ◌≡◌, refl, ap, Bool, false, inl, inr, some, [], ◌∷◌, ◌++◌,
  append_assoc, append-nil, arith, length, length-append, get_or, Suffix, Suffix-tail,
  Suffix-length, Bool-cases,
}
use somedb.Sql.Token.{Text}
use somedb.Sql.Lexer.{Lexer, read_char, new_lexer, is_space, eat_whitespace, read_while}
use somedb.Sql.Lexer.Spec.{skip, span}

abbrev pub first : Text → ℕ
first s = get_or s 0 0

-- The lexer over `inp` when `s` is left to read.
abbrev pub lexer_at : Text → Text → Lexer
lexer_at inp s = record {
  input = inp;
  position = length inp - length s;
  ahead_position = length inp - length s + 1;
  curr_ch = first s;
}

get_or-append : (front s : Text) (n : ℕ) → get_or (front ++ s) (length front + n) 0 ≡ get_or s n 0
get_or-append [] s n = let e : 0 + n ≡ n = omega arith in rw e
get_or-append (c ∷ front) s n =
    let e : suc (length front) + n ≡ suc (length front + n) = omega arith in
    rw e (get_or-append front s n)

-- The byte after the current one.
pub ahead_byte :
    (inp : Text) (c : ℕ) (s : Text)
    → Suffix inp (c ∷ s)
    → get_or inp (length inp - length (c ∷ s) + 1) 0 ≡ first s
ahead_byte inp c s (front, e) =
    let n : length inp - suc (length s) + 1 ≡ length front + 1 =
      omega (arith, length-append front (c ∷ s), ap length e) in
    rw (n, e) (get_or-append front (c ∷ s) 1)

pub read_char-at :
    (inp : Text) (c : ℕ) (s : Text)
    → length inp < 65535
    → Suffix inp (c ∷ s)
    → read_char (lexer_at inp (c ∷ s)) ≡ lexer_at inp s
unfolding read_char
read_char-at inp c s small suf =
    let le = Suffix-length inp (c ∷ s) suf in
    let p : length inp - suc (length s) + 1 ≡ length inp - length s = omega arith in
    let a : (length inp - suc (length s) + 1 + 1) % 65536 ≡ length inp - length s + 1 =
      omega arith in
    λ i. record {
      input = inp;
      position = p i;
      ahead_position = a i;
      curr_ch = ahead_byte inp c s suf i;
    }

pub new_lexer-at : (inp : Text) → new_lexer inp ≡ lexer_at inp inp
unfolding new_lexer read_char
new_lexer-at inp =
    let p : 0 ≡ length inp - length inp = omega arith in
    λ i. record { input = inp; position = p i; ahead_position = p i + 1; curr_ch = first inp }

pub skip-Suffix : (inp s : Text) → Suffix inp s → Suffix inp (skip s)
unfolding skip
skip-Suffix inp [] suf = suf
skip-Suffix inp (c ∷ s) suf = elim (Bool-cases (is_space c)) [
  | inl e ↦ rw e (skip-Suffix inp s (Suffix-tail inp c s suf))
  | inr e ↦ rw e suf
]

pub span-Suffix : (test : ℕ → Bool) (inp s : Text) → Suffix inp s → Suffix inp (span test s).1
unfolding span
span-Suffix test inp [] suf = suf
span-Suffix test inp (c ∷ s) suf = elim (Bool-cases (test c)) [
  | inl e ↦ rw e (span-Suffix test inp s (Suffix-tail inp c s suf))
  | inr e ↦ rw e suf
]

pub length-skip : (s : Text) → length (skip s) ≤ length s
unfolding skip
length-skip [] = omega arith
length-skip (c ∷ s) = ground (arith, length-skip s)

pub length-span : (test : ℕ → Bool) (s : Text) → length (span test s).1 ≤ length s
unfolding span
length-span test [] = omega arith
length-span test (c ∷ s) = ground (arith, length-span test s)

module _ (inp : Text) (small : length inp < 65535) where
  -- Whitespace is skipped and the loop ends.
  pub eat_whitespace-at :
      (fuel : ℕ) (s : Text)
      → Suffix inp s
      → length s < fuel
      → eat_whitespace fuel (lexer_at inp s) ≡ some (lexer_at inp (skip s))
  unfolding eat_whitespace skip is_space
  eat_whitespace-at zero s suf h = absurd (omega arith)
  eat_whitespace-at (suc fuel) [] suf h = refl
  eat_whitespace-at (suc fuel) (c ∷ s) suf h = elim (Bool-cases (is_space c)) [
    | inl e ↦
        rw (e, read_char-at inp c s small suf)
          (eat_whitespace-at fuel s (Suffix-tail inp c s suf) (omega arith))
    | inr e ↦ rw e
  ]

  -- The reading loops take the longest front, and end.
  pub read_while-at :
      (test : ℕ → Bool)
      → test 0 ≡ false
      → (fuel : ℕ) (str s : Text) → Suffix inp s
      → length s < fuel
      → read_while fuel test str (lexer_at inp s)
        ≡ some (str ++ (span test s).0, lexer_at inp (span test s).1)
  unfolding read_while span
  read_while-at test t zero str s suf h = absurd (omega arith)
  read_while-at test t (suc fuel) str [] suf h = rw (t, append-nil)
  read_while-at test t (suc fuel) str (c ∷ s) suf h = elim (Bool-cases (test c)) [
    | inl e ↦
        rw (e, read_char-at inp c s small suf)
          (rw (read_while-at test t fuel (str ++ c ∷ []) s (Suffix-tail inp c s suf) (omega arith))
            (rw append_assoc))
    | inr e ↦ rw (e, append-nil)
  ]
