-- ===== src/Sql/Primitive/Methods.antt =====
-- src/sql/primitive.cpp: the methods of each type, and the virtual ones that choose by the type.
-- Strings are compared by their addresses.
use somedb.Base.{ℕ, ◌==◌, ltb, ◌&&◌, Bool, true, false, if◌then◌else◌}
use somedb.Base.Int.{pos}
use somedb.Sql.Primitive.{
  DataType, boolean_type, varchar_type, integer_type, decimal_type, CmpState, Outcome, value,
  no_function, divided_by_zero, aborted, Platform, as_boolean, state, not, same_bool, int_eq,
  int_lt, plus, opposite, times, quotient, PrimitiveValue, boolean, integer, decimal, i32,
  get_boolean, get_integer, get_decimal, get_string, ◌>>=◌,
}
use somedb.Sql.Token.{Text, text_eq}
use somedb.Utils.Serialize.Double.{decode_double}
use somedb.Utils.Serialize.{Buf, decode_int32}

module _ (p : Platform) where
  -- `PrimitiveType::toString`: the name of the type of the pointer, whatever object it points to.
  unfoldable pub type_string : DataType → Text
  type_string type = p.pointer_name

  -- `assertTypesEqual` of the object `this`.
  unfoldable pub assert_types_equal :
      DataType → PrimitiveValue p → PrimitiveValue p → Outcome {0} Unit
  assert_types_equal this l r =
      if text_eq (type_string l.type) (type_string this) then value tt else aborted

  -- A method whose body reads the same member of both values.
  unfoldable pub compare_with :
      {A : Type 0}
      → DataType
      → (PrimitiveValue p → Outcome A)
      → (A → A → Bool)
      → PrimitiveValue p
      → PrimitiveValue p
      → Outcome CmpState
  compare_with this get test l r = do
    checked ← assert_types_equal this l r
    a ← get l
    b ← get r
    value (state (test a b))

  abbrev pub Comparison : Type 0
  Comparison = PrimitiveValue p → PrimitiveValue p → Outcome CmpState

  abbrev pub Operation : Type 0
  Operation = PrimitiveValue p → PrimitiveValue p → Outcome (PrimitiveValue p)

  unfoldable pub boolean_equals : Comparison
  boolean_equals l r = compare_with boolean_type (get_boolean p) same_bool l r

  unfoldable pub boolean_not_equals : Comparison
  boolean_not_equals l r =
      compare_with boolean_type (get_boolean p) (λ a b. not (same_bool a b)) l r

  unfoldable pub boolean_greater_than : Comparison
  boolean_greater_than l r =
      compare_with boolean_type (get_boolean p) (λ a b. same_bool a true && same_bool b false) l r

  unfoldable pub boolean_less_than : Comparison
  boolean_less_than l r =
      compare_with boolean_type (get_boolean p) (λ a b. same_bool a false && same_bool b true) l r

  unfoldable pub varchar_equals : Comparison
  varchar_equals l r = compare_with varchar_type (get_string p) (λ a b. a == b) l r

  unfoldable pub varchar_not_equals : Comparison
  varchar_not_equals l r = compare_with varchar_type (get_string p) (λ a b. not (a == b)) l r

  unfoldable pub varchar_greater_than : Comparison
  varchar_greater_than l r = compare_with varchar_type (get_string p) (λ a b. ltb b a) l r

  unfoldable pub varchar_less_than : Comparison
  varchar_less_than l r = compare_with varchar_type (get_string p) (λ a b. ltb a b) l r

  unfoldable pub integer_equals : Comparison
  integer_equals l r = compare_with integer_type (get_integer p) int_eq l r

  unfoldable pub integer_not_equals : Comparison
  integer_not_equals l r = compare_with integer_type (get_integer p) (λ a b. not (int_eq a b)) l r

  unfoldable pub integer_greater_than : Comparison
  integer_greater_than l r = compare_with integer_type (get_integer p) (λ a b. int_lt b a) l r

  unfoldable pub integer_less_than : Comparison
  integer_less_than l r = compare_with integer_type (get_integer p) int_lt l r

  unfoldable pub decimal_equals : Comparison
  decimal_equals l r = compare_with decimal_type (get_decimal p) p.double_eq l r

  unfoldable pub decimal_not_equals : Comparison
  decimal_not_equals l r =
      compare_with decimal_type (get_decimal p) (λ a b. not (p.double_eq a b)) l r

  unfoldable pub decimal_greater_than : Comparison
  decimal_greater_than l r = compare_with decimal_type (get_decimal p) (λ a b. p.double_lt b a) l r

  unfoldable pub decimal_less_than : Comparison
  decimal_less_than l r = compare_with decimal_type (get_decimal p) p.double_lt l r

  unfoldable pub integer_add : Operation
  integer_add l r = do
    checked ← assert_types_equal integer_type l r
    a ← get_integer p l
    b ← get_integer p r
    i32 p (plus a b)

  unfoldable pub decimal_add : Operation
  decimal_add l r = do
    checked ← assert_types_equal decimal_type l r
    a ← get_decimal p l
    b ← get_decimal p r
    value (decimal p (p.double_add a b))

  unfoldable pub integer_subtract : Operation
  integer_subtract l r = do
    checked ← assert_types_equal integer_type l r
    a ← get_integer p l
    b ← get_integer p r
    i32 p (plus a (opposite b))

  unfoldable pub decimal_subtract : Operation
  decimal_subtract l r = do
    checked ← assert_types_equal decimal_type l r
    a ← get_decimal p l
    b ← get_decimal p r
    value (decimal p (p.double_subtract a b))

  unfoldable pub integer_multiply : Operation
  integer_multiply l r = do
    checked ← assert_types_equal integer_type l r
    a ← get_integer p l
    b ← get_integer p r
    i32 p (times a b)

  unfoldable pub decimal_multiply : Operation
  decimal_multiply l r = do
    checked ← assert_types_equal decimal_type l r
    a ← get_decimal p l
    b ← get_decimal p r
    value (decimal p (p.double_multiply a b))

  unfoldable pub integer_divide : Operation
  integer_divide l r = do
    checked ← assert_types_equal integer_type l r
    b ← get_integer p r
    a ← get_integer p l
    (if int_eq b (pos 0) then divided_by_zero else i32 p (quotient a b))

  unfoldable pub decimal_divide : Operation
  decimal_divide l r = do
    checked ← assert_types_equal decimal_type l r
    b ← get_decimal p r
    a ← get_decimal p l
    (if p.double_eq b p.double_zero
        then divided_by_zero
        else value (decimal p (p.double_divide a b)))

  -- The virtual methods, of the type of the left value.
  unfoldable pub equals : Comparison
  equals l r = elim l.type [
    | boolean_type ↦ boolean_equals l r
    | varchar_type ↦ varchar_equals l r
    | integer_type ↦ integer_equals l r
    | decimal_type ↦ decimal_equals l r
  ]

  unfoldable pub not_equals : Comparison
  not_equals l r = elim l.type [
    | boolean_type ↦ boolean_not_equals l r
    | varchar_type ↦ varchar_not_equals l r
    | integer_type ↦ integer_not_equals l r
    | decimal_type ↦ decimal_not_equals l r
  ]

  unfoldable pub greater_than : Comparison
  greater_than l r = elim l.type [
    | boolean_type ↦ boolean_greater_than l r
    | varchar_type ↦ varchar_greater_than l r
    | integer_type ↦ integer_greater_than l r
    | decimal_type ↦ decimal_greater_than l r
  ]

  unfoldable pub less_than : Comparison
  less_than l r = elim l.type [
    | boolean_type ↦ boolean_less_than l r
    | varchar_type ↦ varchar_less_than l r
    | integer_type ↦ integer_less_than l r
    | decimal_type ↦ decimal_less_than l r
  ]

  -- `PrimitiveType::add` and the like throw.
  unfoldable pub add : Operation
  add l r = elim l.type [
    | boolean_type ↦ no_function
    | varchar_type ↦ no_function
    | integer_type ↦ integer_add l r
    | decimal_type ↦ decimal_add l r
  ]

  unfoldable pub subtract : Operation
  subtract l r = elim l.type [
    | boolean_type ↦ no_function
    | varchar_type ↦ no_function
    | integer_type ↦ integer_subtract l r
    | decimal_type ↦ decimal_subtract l r
  ]

  unfoldable pub multiply : Operation
  multiply l r = elim l.type [
    | boolean_type ↦ no_function
    | varchar_type ↦ no_function
    | integer_type ↦ integer_multiply l r
    | decimal_type ↦ decimal_multiply l r
  ]

  unfoldable pub divide : Operation
  divide l r = elim l.type [
    | boolean_type ↦ no_function
    | varchar_type ↦ no_function
    | integer_type ↦ integer_divide l r
    | decimal_type ↦ decimal_divide l r
  ]

  unfoldable pub boolean_deserialize : Buf → ℕ → PrimitiveValue p
  boolean_deserialize buf q = boolean p (not (buf q == 0))

  -- The value is made from a type and a pointer to the bytes, for which the constructor from a `bool`
  -- is taken: the pointer is not NULL.
  unfoldable pub varchar_deserialize : Buf → ℕ → PrimitiveValue p
  varchar_deserialize buf q = record { type = varchar_type; member = as_boolean true }

  unfoldable pub integer_deserialize : Buf → ℕ → PrimitiveValue p
  integer_deserialize buf q = integer p (decode_int32 buf q)

  unfoldable pub decimal_deserialize : Buf → ℕ → PrimitiveValue p
  decimal_deserialize buf q = decimal p (p.double_of (decode_double buf q))

  unfoldable pub deserialize : DataType → Buf → ℕ → PrimitiveValue p
  deserialize boolean_type buf q = boolean_deserialize buf q
  deserialize varchar_type buf q = varchar_deserialize buf q
  deserialize integer_type buf q = integer_deserialize buf q
  deserialize decimal_type buf q = decimal_deserialize buf q
