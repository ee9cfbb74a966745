-- ===== src/Sql/Logical/Typed.antt =====
-- src/sql/logical_expression.cpp: the types of expressions over integers.
use somedb.Base.{
  ℕ, ◌+◌, ◌%◌, ◌≡◌, refl, sym, subst, true, false, Bool-cases, some, List, [], ◌∷◌, arith, inl, inr,
}
use somedb.Base.Int.{ℤ, pos}
use somedb.Sql.Logical.{
  BinaryOpType, op_add, op_subtract, op_multiply, op_divide, find_column, LogicalExpr, constant,
  column, binary, apply, evaluate,
}
use somedb.Sql.Primitive.{
  DataType, integer_type, get_size, Outcome, value, no_function, divided_by_zero, no_column,
  aborted, overflow, undefined, Platform, PrimitiveValue, integer, i32, plus, opposite, times,
  quotient, fits, int_eq, ◌>>=◌,
}
use somedb.Sql.Primitive.Laws.{assert_types_equal-value, add-integer}
use somedb.Sql.Primitive.Methods.{
  integer_deserialize, subtract, multiply, divide, integer_subtract, integer_multiply,
  integer_divide, deserialize,
}
use somedb.Sql.Schema.{Column, Table, get_offset, get_value}
use somedb.Sql.Token.{Text, text_eq}
use somedb.Utils.Hash.Chain.{text_eq_refl}
use somedb.Utils.Serialize.{Buf, decode_int32, decode_uint32, signed32}

get_offset-find_column :
    (name : Text) (columns : List Column) (col : Column) (curr_offset : ℕ)
    → find_column name columns ≡ some col
    → (q : ℕ) × (get_offset col columns curr_offset ≡ some q)
unfolding find_column get_offset
get_offset-find_column name [] col n found = absurd cc
get_offset-find_column name (c ∷ cs) col n found = elim (Bool-cases (text_eq col.name c.name)) [
  | inl e ↦ (n, rw e refl)
  | inr e ↦ elim (Bool-cases (text_eq c.name name)) [
    | inl f ↦
        let g : some c ≡ some col = rw f at found in
        let h : c ≡ col = grind arith in
        absurd (
          let k : text_eq c.name c.name ≡ false =
            subst (λ (x : Column). text_eq x.name c.name ≡ false) (sym h) e in
          let l = text_eq_refl c.name in cc)
    | inr f ↦
        let g : find_column name cs ≡ some col = rw f at found in
        let (q, run) =
          get_offset-find_column name cs col ((n + get_size col.data_type) % 4294967296) g in
        (q, rw e run)
  ]
]

signed32-fits : (w : ℕ) → fits (signed32 w) ≡ true
signed32-fits w = ground arith

decode_int32-fits : (row : Buf) (q : ℕ) → fits (decode_int32 row q) ≡ true
unfolding decode_int32
decode_int32-fits row q = signed32-fits (decode_uint32 row q)

module _ (p : Platform) (row : Buf) (table : Table) where
  -- The number of an integer, without a bound.
  pub data Means : LogicalExpr p → ℤ → Type 0 where
    means_constant : (z : ℤ) → Means (constant (integer p z)) z
    means_column :
        (name : Text) (return_type : DataType) (col : Column) (q : ℕ)
        → find_column name table.columns ≡ some col
        → get_offset col table.columns 0 ≡ some q
        → Means (column name return_type) (decode_int32 row q)
    means_add :
        (l r : LogicalExpr p) (a b : ℤ)
        → Means l a
        → Means r b
        → Means (binary l r op_add) (plus a b)
    means_subtract :
        (l r : LogicalExpr p) (a b : ℤ)
        → Means l a
        → Means r b
        → Means (binary l r op_subtract) (plus a (opposite b))
    means_multiply :
        (l r : LogicalExpr p) (a b : ℤ)
        → Means l a
        → Means r b
        → Means (binary l r op_multiply) (times a b)
    means_divide :
        (l r : LogicalExpr p) (a b : ℤ)
        → Means l a
        → Means r b
        → int_eq b (pos 0) ≡ false
        → Means (binary l r op_divide) (quotient a b)

  -- Constants that are integers of 32 bits, and columns that the table has as integers.
  abbrev pub IsInteger : LogicalExpr p → Type 0
  IsInteger (constant v) = (z : ℤ) × (v ≡ integer p z) × (fits z ≡ true)
  IsInteger (column name return_type) =
      (col : Column) × (find_column name table.columns ≡ some col) × (col.data_type ≡ integer_type)
  IsInteger (binary l r op) = IsInteger l × IsInteger r

  abbrev pub Result : LogicalExpr p → Outcome (PrimitiveValue p) → Type 0
  Result e (value v) = (z : ℤ) × (v ≡ integer p z) × (fits z ≡ true) × Means e z
  Result e overflow = Unit
  Result e divided_by_zero = Unit
  Result e no_function = ⊥
  Result e no_column = ⊥
  Result e aborted = ⊥
  Result e undefined = ⊥

  i32-Result : (e : LogicalExpr p) (z : ℤ) → Means e z → Result e (i32 p z)
  i32-Result e z m = elim (Bool-cases (fits z)) [ inl h ↦ rw h (z, refl, h, m) | inr h ↦ rw h tt ]

  apply-Result :
      (l r : LogicalExpr p) (op : BinaryOpType) (a b : ℤ)
      → Means l a
      → Means r b
      → Result (binary l r op) (apply p op (integer p a) (integer p b))
  unfolding apply subtract multiply divide integer_subtract integer_multiply integer_divide
  apply-Result l r op_add a b m n =
      rw (add-integer p a b) (i32-Result (binary l r op_add) (plus a b) (means_add l r a b m n))
  apply-Result l r op_subtract a b m n =
      rw (assert_types_equal-value p integer_type (integer p a) (integer p b))
        (i32-Result (binary l r op_subtract) (plus a (opposite b)) (means_subtract l r a b m n))
  apply-Result l r op_multiply a b m n =
      rw (assert_types_equal-value p integer_type (integer p a) (integer p b))
        (i32-Result (binary l r op_multiply) (times a b) (means_multiply l r a b m n))
  apply-Result l r op_divide a b m n = elim (Bool-cases (int_eq b (pos 0))) [
    | inl zero_divisor ↦
        rw (assert_types_equal-value p integer_type (integer p a) (integer p b), zero_divisor) tt
    | inr h ↦
        rw (assert_types_equal-value p integer_type (integer p a) (integer p b), h)
          (i32-Result (binary l r op_divide) (quotient a b) (means_divide l r a b m n h))
  ]

  bind-Result :
      (l r : LogicalExpr p) (op : BinaryOpType) (x y : Outcome (PrimitiveValue p))
      → Result l x
      → Result r y
      → Result (binary l r op) (do lhs ← x; rhs ← y; apply p op lhs rhs)
  bind-Result l r op overflow y f g = tt
  bind-Result l r op divided_by_zero y f g = tt
  bind-Result l r op (value v) overflow f g = tt
  bind-Result l r op (value v) divided_by_zero f g = tt
  bind-Result l r op (value v) (value w) (a, e, h, m) (b, e', h', n) =
      rw (e, e') (apply-Result l r op a b m n)
  bind-Result l r op (value v) no_function f g = g
  bind-Result l r op (value v) no_column f g = g
  bind-Result l r op (value v) aborted f g = g
  bind-Result l r op (value v) undefined f g = g
  bind-Result l r op no_function y f g = f
  bind-Result l r op no_column y f g = f
  bind-Result l r op aborted y f g = f
  bind-Result l r op undefined y f g = f

  get_value-run :
      (name : Text) (return_type : DataType) (col : Column) (q : ℕ)
      → find_column name table.columns ≡ some col
      → col.data_type ≡ integer_type
      → get_offset col table.columns 0 ≡ some q
      → evaluate p (column name return_type) row table ≡ value (integer p (decode_int32 row q))
  unfolding evaluate get_value deserialize integer_deserialize
  get_value-run name return_type col q found type place =
      rw (evaluate, found, get_value, place, type)

  -- An expression of integer constants that fit 32 bits and of columns that the table has as
  -- integers evaluates to an integer that fits 32 bits and is what the operators give without a
  -- bound, or to a division by zero or an overflow: no column is missing, no method throws, no
  -- assertion fails.
  pub evaluate-Result : (e : LogicalExpr p) → IsInteger e → Result e (evaluate p e row table)
  unfolding evaluate
  evaluate-Result (constant v) (z, same, h) = (z, same, h, rw same (means_constant z))
  evaluate-Result (column name return_type) (col, found, type) =
      let (q, place) = get_offset-find_column name table.columns col 0 found in
      rw (get_value-run name return_type col q found type place) (
        decode_int32 row q,
        refl,
        decode_int32-fits row q,
        means_column name return_type col q found place,
      )
  evaluate-Result (binary l r op) (f, g) =
      bind-Result l r op (evaluate p l row table) (evaluate p r row table) (evaluate-Result l f)
        (evaluate-Result r g)
