-- ===== src/Sql/Primitive/Laws.antt =====
-- src/sql/primitive.cpp: the comparisons agree with one another, subtraction undoes addition, and
-- varchars from rows.
use somedb.Base.Int.{ℤ, pos, negsuc}
use somedb.Base.{ℕ, ◌+◌, ◌≡◌, ◌∙◌, ◌&&◌, refl, Bool, true, false, arith, ◌==◌, ltb}
use somedb.Sql.Primitive.{
  CmpState, sql_true, state, not, same_bool, get_integer, get_boolean, i32, integer_type,
  boolean_type, varchar_type, undefined, get_string, Outcome, value, Platform, PrimitiveValue,
  DataType, plus, opposite, fits, int_eq, int_lt, boolean, integer,
}
use somedb.Sql.Primitive.Methods.{
  varchar_deserialize, type_string, assert_types_equal, compare_with, boolean_equals,
  boolean_not_equals, boolean_greater_than, boolean_less_than, integer_equals, integer_not_equals,
  integer_greater_than, integer_less_than, integer_add, integer_subtract, equals, not_equals,
  greater_than, less_than, add, subtract, deserialize, varchar_equals, varchar_not_equals,
  varchar_greater_than, varchar_less_than,
}
use somedb.Utils.Serialize.{Buf}
use somedb.Utils.Hash.Chain.{text_eq_refl}

-- How many of the outcomes are SQL_TRUE.
abbrev pub holds : Outcome CmpState → ℕ
holds (value sql_true) = 1
holds _ = 0

-- A type that has no other name than the others passes the assertion.
pub assert_types_equal-value :
    (p : Platform) (this : DataType) (l r : PrimitiveValue p)
    → assert_types_equal p this l r ≡ value tt
unfolding assert_types_equal type_string
assert_types_equal-value p this l r = rw (text_eq_refl p.pointer_name)

plus-opposite : (a b : ℤ) → plus (plus a b) (opposite b) ≡ a
plus-opposite (pos a) (pos b) = ground arith
plus-opposite (pos a) (negsuc b) = ground arith
plus-opposite (negsuc a) (pos b) = ground arith
plus-opposite (negsuc a) (negsuc b) = ground arith

bool_trichotomy :
    (a b : Bool)
    → (holds (value (state (same_bool a b)))
          + holds (value (state (same_bool a true && same_bool b false)))
          + holds (value (state (same_bool a false && same_bool b true)))
        ≡ 1)
      × (holds (value (state (same_bool a b))) + holds (value (state (not (same_bool a b)))) ≡ 1)
bool_trichotomy true true = (refl, refl)
bool_trichotomy true false = (refl, refl)
bool_trichotomy false true = (refl, refl)
bool_trichotomy false false = (refl, refl)

int_trichotomy :
    (a b : ℤ)
    → (holds (value (state (int_eq a b)))
          + holds (value (state (int_lt b a)))
          + holds (value (state (int_lt a b)))
        ≡ 1)
      × (holds (value (state (int_eq a b))) + holds (value (state (not (int_eq a b)))) ≡ 1)
int_trichotomy (pos a) (pos b) = (ground arith, ground arith)
int_trichotomy (pos a) (negsuc b) = (omega arith, omega arith)
int_trichotomy (negsuc a) (pos b) = (omega arith, omega arith)
int_trichotomy (negsuc a) (negsuc b) = (ground arith, ground arith)

module _ (p : Platform) where
  compare_with-value :
      {A : Type 0} (this : DataType) (get : PrimitiveValue p → Outcome A) (test : A → A → Bool)
      (l r : PrimitiveValue p) (a b : A)
      → get l ≡ value a
      → get r ≡ value b
      → compare_with p this get test l r ≡ value (state (test a b))
  unfolding compare_with
  compare_with-value this get test l r a b e f = rw (assert_types_equal-value p this l r, e, f)

  -- Two integers are in exactly one of the relations of equality, greater and less, and notEquals
  -- holds where equals does not.
  compare-integer :
      (a b : ℤ)
      → (holds (equals p (integer p a) (integer p b))
            + holds (greater_than p (integer p a) (integer p b))
            + holds (less_than p (integer p a) (integer p b))
          ≡ 1)
        × (holds (equals p (integer p a) (integer p b))
              + holds (not_equals p (integer p a) (integer p b))
            ≡ 1)
  unfolding equals greater_than less_than not_equals integer_equals integer_not_equals
      integer_greater_than integer_less_than
  compare-integer a b =
      let same = λ (test : ℤ → ℤ → Bool).
        compare_with-value integer_type (get_integer p) test (integer p a) (integer p b) a b refl
          refl in
      rw (same int_eq, same (λ a b. int_lt b a), same int_lt, same (λ a b. not (int_eq a b)))
        (int_trichotomy a b)

  -- Two Booleans are in exactly one of the relations of equality, greater and less, and notEquals
  -- holds where equals does not.
  compare-boolean :
      (a b : Bool)
      → (holds (equals p (boolean p a) (boolean p b))
            + holds (greater_than p (boolean p a) (boolean p b))
            + holds (less_than p (boolean p a) (boolean p b))
          ≡ 1)
        × (holds (equals p (boolean p a) (boolean p b))
              + holds (not_equals p (boolean p a) (boolean p b))
            ≡ 1)
  unfolding equals greater_than less_than not_equals boolean_equals boolean_not_equals
      boolean_greater_than boolean_less_than
  compare-boolean a b =
      let same = λ (test : Bool → Bool → Bool).
        compare_with-value boolean_type (get_boolean p) test (boolean p a) (boolean p b) a b refl
          refl in
      rw
        (
          same same_bool,
          same (λ a b. same_bool a true && same_bool b false),
          same (λ a b. same_bool a false && same_bool b true),
          same (λ a b. not (same_bool a b)),
        )
        (bool_trichotomy a b)

  pub add-integer : (a b : ℤ) → add p (integer p a) (integer p b) ≡ i32 p (plus a b)
  unfolding add integer_add
  add-integer a b = rw (assert_types_equal-value p integer_type (integer p a) (integer p b))

  -- For an integer of 32 bits and a sum that fits 32 bits, add returns the sum, and to subtract what
  -- was added gives the integer back.
  subtract-add :
      (a b : ℤ)
      → fits a ≡ true
      → fits (plus a b) ≡ true
      → (add p (integer p a) (integer p b) ≡ value (integer p (plus a b)))
        × (subtract p (integer p (plus a b)) (integer p b) ≡ value (integer p a))
  unfolding subtract integer_subtract
  subtract-add a b h k = (
    add-integer a b ∙ rw k,
    rw (
      assert_types_equal-value p integer_type (integer p (plus a b)) (integer p b),
      plus-opposite a b,
      h,
    ),
  )

  compare_with-undefined :
      {A : Type 0} (this : DataType) (get : PrimitiveValue p → Outcome A) (test : A → A → Bool)
      (l r : PrimitiveValue p)
      → get l ≡ undefined
      → compare_with p this get test l r ≡ undefined
  unfolding compare_with
  compare_with-undefined this get test l r e = rw (assert_types_equal-value p this l r, e)

  -- To compare a varchar that was read from a row with another value is undefined in each of
  -- the four comparisons, since its string was never set.
  pub compare-varchar :
      (buf : Buf) (q : ℕ) (r : PrimitiveValue p)
      → (equals p (deserialize p varchar_type buf q) r ≡ undefined)
        × (not_equals p (deserialize p varchar_type buf q) r ≡ undefined)
        × (greater_than p (deserialize p varchar_type buf q) r ≡ undefined)
        × (less_than p (deserialize p varchar_type buf q) r ≡ undefined)
  unfolding equals not_equals greater_than less_than varchar_equals varchar_not_equals
      varchar_greater_than varchar_less_than deserialize varchar_deserialize
  compare-varchar buf q r =
      let l : PrimitiveValue p = deserialize p varchar_type buf q in
      let same =
        λ (test : ℕ → ℕ → Bool). compare_with-undefined varchar_type (get_string p) test l r refl in
      (
        same (λ a b. a == b),
        same (λ a b. not (a == b)),
        same (λ a b. ltb b a),
        same (λ a b. ltb a b),
      )
