-- ===== src/Sql/Primitive.antt =====
-- include/sql/primitive.hpp and src/sql/primitive.cpp: the types of the system and their values.
-- What the compiler and the machine define, `typeid(...).name()` and `double`, is a parameter.
-- The methods are in the child Methods.
pub mod Methods
pub mod Laws
use somedb.Base.Int.{ℤ, pos, negsuc}
use somedb.Base.{
  ℕ, suc, ◌+◌, ◌-◌, ◌*◌, ◌/◌, ◌^◌, ◌==◌, ltb, ◌&&◌, Bool, true, false, List, if◌then◌else◌,
}
use somedb.Sql.Token.{Text}

-- The structs that inherit from `PrimitiveType`.
pub data DataType : Type 0 where
  boolean_type varchar_type integer_type decimal_type : DataType

-- `getSize`
unfoldable pub get_size : DataType → ℕ
get_size boolean_type = 1
get_size varchar_type = 1024
get_size integer_type = 4
get_size decimal_type = 8

pub data CmpState : Type 0 where
  sql_true sql_false : CmpState

-- A value, an exception, a failed `assert`, or undefined behaviour: a signed overflow, and a member
-- of a union that was not the one written.
pub data Outcome {ℓ} (A : Type ℓ) : Type ℓ where
  value : A → Outcome A
  no_function divided_by_zero no_column aborted overflow undefined : Outcome A

infixl 5 ◌>>=◌
abbrev pub ◌>>=◌ {ℓ κ} : {A : Type ℓ} {B : Type κ} → Outcome A → (A → Outcome B) → Outcome B
value a >>= f = f a
no_function >>= f = no_function
divided_by_zero >>= f = divided_by_zero
no_column >>= f = no_column
aborted >>= f = aborted
overflow >>= f = overflow
undefined >>= f = undefined

pub record Platform : Type 1 where
  -- `typeid(this).name()`, of the type `const PrimitiveType *`
  pub pointer_name : Text
  pub Double : Type 0
  pub double_eq : Double → Double → Bool
  pub double_lt : Double → Double → Bool
  pub double_add : Double → Double → Double
  pub double_subtract : Double → Double → Double
  pub double_multiply : Double → Double → Double
  pub double_divide : Double → Double → Double
  pub double_zero : Double
  -- The number whose 8 bytes these are.
  pub double_of : List ℕ → Double

abbrev pub state : Bool → CmpState
state b = if b then sql_true else sql_false

abbrev pub not : Bool → Bool
not true = false
not false = true

abbrev pub same_bool : Bool → Bool → Bool
same_bool true b = b
same_bool false b = not b

abbrev pub int_eq : ℤ → ℤ → Bool
int_eq (pos a) (pos b) = a == b
int_eq (negsuc a) (negsuc b) = a == b
int_eq _ _ = false

abbrev pub int_lt : ℤ → ℤ → Bool
int_lt (pos a) (pos b) = ltb a b
int_lt (negsuc a) (negsuc b) = ltb b a
int_lt (negsuc a) (pos b) = true
int_lt (pos a) (negsuc b) = false

abbrev pub plus : ℤ → ℤ → ℤ
plus (pos a) (pos b) = pos (a + b)
plus (pos a) (negsuc b) = if ltb b a then pos (a - b - 1) else negsuc (b - a)
plus (negsuc a) (pos b) = if ltb a b then pos (b - a - 1) else negsuc (a - b)
plus (negsuc a) (negsuc b) = negsuc (a + b + 1)

abbrev pub negated : ℕ → ℤ
negated a = if a == 0 then pos 0 else negsuc (a - 1)

abbrev pub opposite : ℤ → ℤ
opposite (pos a) = negated a
opposite (negsuc a) = pos (a + 1)

abbrev pub times : ℤ → ℤ → ℤ
times (pos a) (pos b) = pos (a * b)
times (pos a) (negsuc b) = negated (a * (b + 1))
times (negsuc a) (pos b) = negated ((a + 1) * b)
times (negsuc a) (negsuc b) = pos ((a + 1) * (b + 1))

-- Division of the source rounds towards 0. The divisor is not 0.
abbrev pub quotient : ℤ → ℤ → ℤ
quotient (pos a) (pos b) = pos (a / b)
quotient (pos a) (negsuc b) = negated (a / (b + 1))
quotient (negsuc a) (pos b) = negated ((a + 1) / b)
quotient (negsuc a) (negsuc b) = pos ((a + 1) / (b + 1))

abbrev pub fits : ℤ → Bool
fits (pos a) = ltb a (2 ^ 31)
fits (negsuc a) = ltb a (2 ^ 31)

module _ (p : Platform) where
  -- The member of the union `ColumnValue` that was written; a string is its address.
  pub data Member : Type 0 where
    as_boolean : Bool → Member
    as_integer : ℤ → Member
    as_decimal : p.Double → Member
    as_string : ℕ → Member

  pub record PrimitiveValue : Type 0 where
    pub type : DataType
    pub member : Member

  -- The values as the constructors make them.
  abbrev pub boolean : Bool → PrimitiveValue
  boolean b = record { type = boolean_type; member = as_boolean b }

  abbrev pub integer : ℤ → PrimitiveValue
  integer z = record { type = integer_type; member = as_integer z }

  abbrev pub decimal : p.Double → PrimitiveValue
  decimal x = record { type = decimal_type; member = as_decimal x }

  abbrev pub varchar : ℕ → PrimitiveValue
  varchar address = record { type = varchar_type; member = as_string address }

  -- The result of `int32_t` arithmetic.
  abbrev pub i32 : ℤ → Outcome PrimitiveValue
  i32 z = if fits z then value (integer z) else overflow

  -- To read a member of a value.
  abbrev pub get_boolean : PrimitiveValue → Outcome Bool
  get_boolean v = elim v.member [ as_boolean b ↦ value b | _ ↦ undefined ]

  abbrev pub get_integer : PrimitiveValue → Outcome ℤ
  get_integer v = elim v.member [ as_integer z ↦ value z | _ ↦ undefined ]

  abbrev pub get_decimal : PrimitiveValue → Outcome p.Double
  get_decimal v = elim v.member [ as_decimal x ↦ value x | _ ↦ undefined ]

  abbrev pub get_string : PrimitiveValue → Outcome ℕ
  get_string v = elim v.member [ as_string address ↦ value address | _ ↦ undefined ]
