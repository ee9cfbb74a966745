-- ===== src/Sql/Samples.antt =====
-- A machine, for the tests.
use somedb.Base.{ℕ, ◌+◌, ◌-◌, ◌*◌, ◌/◌, ◌==◌, ltb, get_or}
use somedb.Sql.Primitive.{Platform}
use somedb.Sql.Token.{text}

-- A machine whose `double` is a natural number.
abbrev pub platform : Platform
platform = record {
  pointer_name = text "PKN6somedb13PrimitiveTypeE";
  Double = ℕ;
  double_eq = λ a b. a == b;
  double_lt = ltb;
  double_add = λ a b. a + b;
  double_subtract = λ a b. a - b;
  double_multiply = λ a b. a * b;
  double_divide = λ a b. a / b;
  double_zero = 0;
  double_of = λ bytes. get_or bytes 0 0;
}
