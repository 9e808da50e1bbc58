-- ===== src/Sql/Table.antt =====
-- The two tables of tests: the one of commondb/parseexpr.c that the parser goes by, and the one of
-- pgdb/filter.c that has the SQL.
use dudld.Common.{
  ◌≡◌, refl, ◌∙◌, Bool, true, false, Bool-cases, inl, inr, Bytes, List, [], ◌∷◌, Option, none, some,
  map,
}
use dudld.ParseExpr.Syntax.{Expr, ValTest, op_self, op_not, op_and, op_or, type_of}
use dudld.ParseExpr.Tables.{TestType, find_test, is_valid}
use dudld.ParseExpr.Parser.{expr_parse_str, parsed}
use dudld.ParseExpr.Sound.{AreValid, expr_parse_str-AreValid}
use dudld.Sql.Filter.{SqlValtestfmt, sql_valtestfmt, is_entry, find_format}

abbrev pub is_some : Option SqlValtestfmt → Bool
is_some none = false
is_some (some f) = true

abbrev test_of : SqlValtestfmt → TestType
test_of f = (f.field, f.op, f.type)

find_format-find_test :
    (t : ValTest) (fs : List SqlValtestfmt)
    → is_some (find_format t fs) ≡ find_test t.field t.op (type_of t.val) (map test_of fs)
unfolding find_format find_test is_entry
find_format-find_test t [] = refl
find_format-find_test t (f ∷ fs) = elim (Bool-cases (is_entry t f)) [
  | inl e ↦ rw e refl
  | inr e ↦ rw e (find_format-find_test t fs)
]

-- The table of pgdb/filter.c has an entry for a test just where the parser's table allows it.
pub find_format-is_valid :
    (t : ValTest) → is_some (find_format t sql_valtestfmt) ≡ is_valid t.field t.op (type_of t.val)
unfolding is_valid
find_format-is_valid t = find_format-find_test t sql_valtestfmt

-- There is SQL for every test of an expression.
abbrev pub AreFormatted : Expr → Type 0
AreFormatted (op_self t) = (f : SqlValtestfmt) × (find_format t sql_valtestfmt ≡ some f)
AreFormatted (op_not e) = AreFormatted e
AreFormatted (op_and a b) = AreFormatted a × AreFormatted b
AreFormatted (op_or a b) = AreFormatted a × AreFormatted b

is_some-some : (o : Option SqlValtestfmt) → is_some o ≡ true → (f : SqlValtestfmt) × (o ≡ some f)
is_some-some none h = absurd (cc h)
is_some-some (some f) h = (f, refl)

AreValid-AreFormatted : (e : Expr) → AreValid e → AreFormatted e
AreValid-AreFormatted (op_self t) h = is_some-some _ (find_format-is_valid t ∙ h)
AreValid-AreFormatted (op_not e) h = AreValid-AreFormatted e h
AreValid-AreFormatted (op_and a b) (h, k) = (AreValid-AreFormatted a h, AreValid-AreFormatted b k)
AreValid-AreFormatted (op_or a b) (h, k) = (AreValid-AreFormatted a h, AreValid-AreFormatted b k)

-- pgdb/filter.c has SQL for every test of an expression that expr_parse_str returns.
pub expr_parse_str-AreFormatted :
    (s : Bytes) (e : Expr) → expr_parse_str s ≡ parsed e → AreFormatted e
expr_parse_str-AreFormatted s e h = AreValid-AreFormatted e (expr_parse_str-AreValid s e h)
