-- ===== src/Sql/Schema/Equal.antt =====
-- include/sql/schema.hpp: which columns and tables are equal.
use somedb.Base.{
  ◌≡◌, refl, sym, ap₂, ◌↔◌, ◌==◌, ==_iff, ◌&&◌, Bool, true, false, List, [], ◌∷◌, length, arith,
}
use somedb.Sql.Primitive.{DataType, Platform}
use somedb.Sql.Primitive.Methods.{type_string}
use somedb.Sql.Schema.{Column, Table, columns_eq, table_eq}
use somedb.Sql.Token.{Text, text_eq}
use somedb.Utils.Hash.Chain.{text_eq_refl, text_eq_sound}

abbrev pub column_names : List Column → List Text
column_names [] = []
column_names (c ∷ cs) = c.name ∷ column_names cs

both : (a b : Bool) → (a && b) ≡ true → (a ≡ true) × (b ≡ true)
both true true h = (refl, refl)
both true false h = absurd cc
both false b h = absurd cc

length-column_names :
    (cs ds : List Column) → column_names cs ≡ column_names ds → length ds ≡ length cs
length-column_names [] [] e = refl
length-column_names [] (d ∷ ds) e = absurd cc
length-column_names (c ∷ cs) [] e = absurd cc
length-column_names (c ∷ cs) (d ∷ ds) e =
    let rest : column_names cs ≡ column_names ds = grind arith in
    let n = length-column_names cs ds rest in omega (arith, n)

module _ (p : Platform) where
  same_type : (t u : DataType) → text_eq (type_string p t) (type_string p u) ≡ true
  unfolding type_string
  same_type t u = text_eq_refl p.pointer_name

  columns_eq_sound :
      (cs ds : List Column)
      → length ds ≡ length cs
      → columns_eq p cs ds ≡ true
      → column_names cs ≡ column_names ds
  unfolding columns_eq
  columns_eq_sound [] [] n h = refl
  columns_eq_sound [] (d ∷ ds) n h = absurd (omega arith)
  columns_eq_sound (c ∷ cs) [] n h = absurd (omega arith)
  columns_eq_sound (c ∷ cs) (d ∷ ds) n h =
      let (same, more) = both (text_eq c.name d.name) _ h in
      let (type, rest) =
        both (text_eq (type_string p c.data_type) (type_string p d.data_type)) _ more in
      ap₂ ◌∷◌ (text_eq_sound c.name d.name same) (columns_eq_sound cs ds (omega (arith, n)) rest)

  columns_eq_complete :
      (cs ds : List Column) → column_names cs ≡ column_names ds → columns_eq p cs ds ≡ true
  unfolding columns_eq
  columns_eq_complete [] ds e = refl
  columns_eq_complete (c ∷ cs) [] e = refl
  columns_eq_complete (c ∷ cs) (d ∷ ds) e =
      let first : c.name ≡ d.name = grind arith in
      let rest : column_names cs ≡ column_names ds = grind arith in
      rw (
        first,
        text_eq_refl d.name,
        same_type c.data_type d.data_type,
        columns_eq_complete cs ds rest,
      )

  -- Two tables are equal where they have the same name and columns of the same names in the
  -- same order, and only there, whatever the types of the columns are.
  pub table_eq-column_names :
      (a b : Table)
      → (table_eq p a b ≡ true)
        ↔ ((a.name ≡ b.name) × (column_names a.columns ≡ column_names b.columns))
  unfolding table_eq
  table_eq-column_names a b = (
    λ h.
        let (same, more) = both (text_eq b.name a.name) _ h in
        let (n, rest) = both (length b.columns == length a.columns) _ more in
        (
          sym (text_eq_sound b.name a.name same),
          columns_eq_sound a.columns b.columns ((==_iff (length b.columns) (length a.columns)).0 n)
              rest,
        ),
    λ h.
        let n =
          (==_iff (length b.columns) (length a.columns)).1
            (length-column_names a.columns b.columns h.1) in
        rw (h.0, text_eq_refl b.name, n, columns_eq_complete a.columns b.columns h.1),
  )
