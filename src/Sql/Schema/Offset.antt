-- ===== src/Sql/Schema/Offset.antt =====
-- src/sql/schema.cpp: where `Row::getValue` reads.
use native.Mathlib.Nat.{mul-suc}
use somedb.Base.{
  ℕ, suc, ◌+◌, ◌*◌, ◌%◌, ◌<◌, ◌≡◌, ap, ◌∙◌, true, false, some, List, [], ◌∷◌, ◌++◌, length, arith,
}
use somedb.Sql.Primitive.{get_size}
use somedb.Sql.Schema.{Column, get_offset}
use somedb.Sql.Token.{Text, text_eq}

abbrev pub Lacks : Text → List Column → Type 0
Lacks name [] = Unit
Lacks name (c ∷ cs) = (text_eq name c.name ≡ false) × Lacks name cs

-- For a column that stands in the schema behind others with other names, and less than 2 ^ 32 bytes
-- in, `getValue` reads at the size of that column times their number, whatever their sizes are.
pub get_offset-position :
    (col sch_col : Column) (before after : List Column) (curr_offset : ℕ)
    → Lacks col.name before
    → text_eq col.name sch_col.name ≡ true
    → curr_offset + get_size col.data_type * length before < 4294967296
    → get_offset col (before ++ sch_col ∷ after) curr_offset
      ≡ some (curr_offset + get_size col.data_type * length before)
unfolding get_offset
get_offset-position col sch_col [] after curr_offset l h small =
    let z : curr_offset ≡ curr_offset + get_size col.data_type * 0 = omega arith in rw h (ap some z)
get_offset-position col sch_col (c ∷ before) after curr_offset l h small =
    let size = get_size col.data_type in
    let law : size * suc (length before) ≡ size * length before + size =
      mul-suc size (length before) in
    let small_step : (curr_offset + size) % 4294967296 ≡ curr_offset + size = omega (arith, law) in
    let same : curr_offset + size + size * length before
        ≡ curr_offset + size * suc (length before) =
      omega (arith, law) in
    rw (l.0, small_step)
      (get_offset-position col sch_col before after (curr_offset + size) l.1 h (omega (arith, law))
        ∙ ap some same)
