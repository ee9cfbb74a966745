-- ===== src/Sql/Plan/Laws.antt =====
-- src/sql/logical_plan.cpp: what `pretty` prints.
use somedb.Base.{ℕ, suc, ◌+◌, ◌≤◌, ◌-◌, ◌≡◌, ap, subst, refl, ◌++◌, Option, some, ◌∷◌, arith}
use somedb.Sql.Plan.{
  LogicalOperator, null, scan, selection, projection, aggregation, Run, finished, stopped, tabs,
  children, plan_string, pretty, pretty_rounds,
}
use somedb.Sql.Primitive.{Platform}
use somedb.Sql.Schema.{Table}
use somedb.Sql.Token.{Text}

module _ (p : Platform) (access_schema : Text → Option Table) where
  -- What is printed of one operator.
  abbrev pub line : ℕ → Text → Text
  line indent str = (10 ∷ tabs indent) ++ str

  -- What the source prints: a scan, or an operator and the start of the line of its input.
  abbrev pub printed : LogicalOperator p → ℕ → Text → Run
  printed null indent str = stopped (10 ∷ tabs indent)
  printed (scan path) indent str = finished (line indent str)
  printed _ indent str = stopped (line indent str ++ (10 ∷ tabs (indent + 1)))

  same_line :
      {a b : Text} (indent : ℕ) (end : Text)
      → some a ≡ some b
      → stopped (line indent a ++ end) ≡ stopped (line indent b ++ end)
  same_line {a = a} {b = b} indent end e =
      let same : a ≡ b = grind arith in ap (λ (s : Text). stopped (line indent s ++ end)) same

  pretty-scan :
      (path str : Text) (fuel indent : ℕ)
      → plan_string p access_schema (scan path) ≡ some str
      → pretty p access_schema (suc (suc (suc fuel))) (scan path) indent
        ≡ finished (line indent str)
  unfolding pretty children
  pretty-scan path str fuel indent e = rw (pretty, e, pretty_rounds) refl

  pretty-three :
      (op : LogicalOperator p) (str : Text) (fuel indent : ℕ)
      → plan_string p access_schema op ≡ some str
      → pretty p access_schema (suc (suc (suc fuel))) op indent ≡ printed op indent str
  unfolding pretty children plan_string
  pretty-three null str fuel indent e = absurd cc
  pretty-three (scan path) str fuel indent e = pretty-scan path str fuel indent e
  pretty-three (selection input expr) str fuel indent e =
      same_line indent (10 ∷ tabs (indent + 1)) e
  pretty-three (projection input cols) str fuel indent e =
      same_line indent (10 ∷ tabs (indent + 1)) e
  pretty-three (aggregation input ac gc op) str fuel indent e =
      same_line indent (10 ∷ tabs (indent + 1)) e

  -- With fuel of 3 or more, for an operator that has a string, pretty of a scan prints its line
  -- and returns. Of every other operator it prints the line, begins the line of the input, and
  -- then reads through NULL, since the test of the loop has taken the input away.
  pub pretty-printed :
      (op : LogicalOperator p) (str : Text) (fuel indent : ℕ)
      → plan_string p access_schema op ≡ some str
      → 3 ≤ fuel
      → pretty p access_schema fuel op indent ≡ printed op indent str
  pretty-printed op str fuel indent e h =
      let enough : suc (suc (suc (fuel - 3))) ≡ fuel = omega arith in
      subst (λ (f : ℕ). pretty p access_schema f op indent ≡ printed op indent str) enough
        (pretty-three op str (fuel - 3) indent e)
