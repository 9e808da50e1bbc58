-- ===== src/Sql/Tests.antt =====
-- The theorems on the SQL of a filter at concrete filters.
use dudld.Common.{true, false, inl, ℕ, ◌≡◌, refl, arith, Bytes, List, [], ◌++◌, Option, some, codes}
use dudld.ParseExpr.Syntax.{
  ValTest, Expr, num, string, vf_title, vf_year, vo_eq, vo_ge, op_self, op_and, type_of,
}
use dudld.ParseExpr.Tables.{is_valid}
use dudld.ParseExpr.RoundTrip.Exprs.{ArePrintable, expr_parse_str-text}
use dudld.ParseExpr.Text.{expr_text}
use dudld.Sql.Escape.{db_escape, literal, literal-db_escape, literal-leaves}
use dudld.Sql.Filter.{find_format, sql_valtestfmt}
use dudld.Sql.Table.{is_some, find_format-is_valid, AreFormatted, expr_parse_str-AreFormatted}

literal-db_escape_example :
    literal true (db_escape (codes "it's") ++ codes "' OR 1") ≡ some (codes "it's", codes " OR 1")
literal-db_escape_example =
    literal-db_escape true (codes "it's") (codes " OR 1") (inl refl) (λ e. omega (arith, e))

literal-leaves_example :
    literal false (db_escape (codes "\\'; DROP") ++ codes "'") ≡ some (codes "'", codes "; DROP'")
unfolding db_escape
literal-leaves_example = literal-leaves b';' (codes " DROP") [] (λ e. omega (arith, e))

abbrev blue : ValTest
blue = record { field = vf_title; op = vo_eq; val = string (codes "blue") }

find_format-is_valid_example :
    is_some (find_format blue sql_valtestfmt)
    ≡ is_valid vf_title vo_eq (type_of (string (codes "blue")))
find_format-is_valid_example = find_format-is_valid blue

abbrev young : Expr
young = op_self (record { field = vf_year; op = vo_ge; val = num 1990 })

young-ArePrintable : ArePrintable young
unfolding is_valid type_of
young-ArePrintable = record { valid = refl; value = omega arith }

expr_parse_str-AreFormatted_example : AreFormatted (op_and young young)
expr_parse_str-AreFormatted_example =
    expr_parse_str-AreFormatted (expr_text (op_and young young)) (op_and young young)
      (expr_parse_str-text (op_and young young) (young-ArePrintable, young-ArePrintable))

-- No tag has a name, and there is no state.
abbrev nobody : Bytes → Unit {0} → Unit {0} × Option (List ℕ)
nobody sql s = (s, some [])
