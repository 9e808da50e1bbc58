-- ===== src/ParseExpr/Examples.antt =====
-- Runs of the parser and the printer on texts, and the theorems at concrete inputs.
use dudld.ParseExpr.Sound.{AreValid, expr_parse_str-AreValid}
use dudld.ParseExpr.Termination.{expr_parse_str-ends}
use dudld.ParseExpr.Lexer.Block.{alloc_block-bounds}
use dudld.Common.Memory.{zeros, IsIntact, zeros-IsIntact}
use dudld.ParseExpr.Print.{expr_fmt, expr_fmt-prefix}
use dudld.Common.{
  ℕ, ◌≤◌, ◌∷◌, ◌++◌, take, length, ◌<◌, ◌≢◌, ◌↔◌, Bytes, ◌≡◌, refl, some, codes, arith,
}
use dudld.ParseExpr.Syntax.{
  Expr, type_of, op_self, op_not, op_and, string, num, list, nil, cons, vf_title, vf_year, vf_tag,
  vo_eq, vo_ge, vo_in, junk, invalid_match, vo_lt, vt_num,
}
use dudld.Common.Char.{isspace, isdigit, isalnum, tolower}
use dudld.ParseBuf.{pi_str_col, pi_str_eof, pi_str_new}
use dudld.ParseExpr.Tables.{is_valid, field_of, valfield_name, valop_name}
use dudld.ParseExpr.Lexer.{
  parse_string, filter_string, escaped, parse_num, num_from, parse_name, filter_name, parse_alloc,
  alloc_from, alloc_block, parse_nonspace, nonspace_from, next, parse_error,
}
use dudld.ParseExpr.Parser.{
  Parsed, parsed, failed, gave_up, expr_parse_str, expr_parse, finish, fuel_for, parse_expr,
  rest_of_expr, second_operand, close_brace, combine, parse_operator, parse_expr_val, parse_valtest,
  check_test, operand, parse_valop, in_op, compare_op, parse_vallist, vallist_from, parse_value,
}
use dudld.ParseExpr.RoundTrip.Exprs.{ArePrintable, expr_parse_str-text}
use dudld.ParseExpr.Text.{expr_text, valtest_text, value_text, print_int, digits}

abbrev old : Expr
old = op_self (record { field = vf_year; op = vo_ge; val = num 1990 })

abbrev blue : Expr
blue = op_self (record { field = vf_title; op = vo_eq; val = string (codes "blue") })

abbrev tagged : Expr
tagged = op_self (record {
  field = vf_tag;
  op = vo_in;
  val = list (cons (num 1) (cons (string (codes "x")) nil));
})

-- The parser with all of its parts in sight.
run : Bytes → Parsed
unfolding expr_parse_str expr_parse finish fuel_for parse_expr rest_of_expr second_operand
    close_brace combine parse_operator parse_expr_val parse_valtest check_test operand parse_valop
    in_op compare_op parse_vallist vallist_from parse_value parse_string filter_string escaped
    parse_num num_from parse_name filter_name parse_alloc alloc_from parse_nonspace nonspace_from
    next parse_error pi_str_col pi_str_eof pi_str_new is_valid type_of field_of isspace isdigit
    isalnum tolower
run s = expr_parse_str s

parse_and : run (codes "Year>=19 90&! (title = \"Blue\")") ≡ parsed (op_and old (op_not blue))
unfolding run
parse_and = refl

parse_text : run (expr_text (op_and (op_not old) tagged)) ≡ parsed (op_and (op_not old) tagged)
unfolding run expr_text valtest_text value_text print_int digits valfield_name valop_name
parse_text = refl

parse_three : run (codes "year>=1990&year>=1990&year>=1990") ≡ failed (some junk) 22
unfolding run
parse_three = refl

parse_invalid : run (codes "title<3") ≡ failed (some (invalid_match vf_title vo_lt vt_num)) 7
unfolding run
parse_invalid = refl

old-ArePrintable : ArePrintable old
unfolding is_valid type_of
old-ArePrintable = record { valid = refl; value = omega arith }

tagged-ArePrintable : ArePrintable tagged
unfolding is_valid type_of tolower
tagged-ArePrintable = record {
  valid = refl;
  value = (omega arith, ((((omega arith, omega arith), omega arith, omega arith, refl), tt), tt));
}

expr_parse_str-text_example :
    expr_parse_str (expr_text (op_and (op_not old) tagged)) ≡ parsed (op_and (op_not old) tagged)
expr_parse_str-text_example =
    expr_parse_str-text (op_and (op_not old) tagged) (old-ArePrintable, tagged-ArePrintable)

expr_parse_str-AreValid_example : AreValid (op_and (op_not old) tagged)
expr_parse_str-AreValid_example =
    expr_parse_str-AreValid (expr_text (op_and (op_not old) tagged)) (op_and (op_not old) tagged)
      expr_parse_str-text_example

expr_parse_str-ends_example : expr_parse_str (codes "((!title") ≢ gave_up
expr_parse_str-ends_example = expr_parse_str-ends (codes "((!title")

alloc_block-bounds_example : (5 < (alloc_block 6).0) × ((5 < (alloc_block 5).0) ↔ (◌≢◌ {A = ℕ} 5 5))
alloc_block-bounds_example = alloc_block-bounds 5

expr_fmt-prefix_example :
    IsIntact 8 (expr_fmt old (zeros 8) 0 8).0
    × ((rest : Bytes) × ((expr_fmt old (zeros 8) 0 8).0.bytes ≡ take 7 (expr_text old) ++ 0 ∷ rest))
    × (length (expr_text old) ≤ 8 → (expr_fmt old (zeros 8) 0 8).1 ≡ length (expr_text old))
    × (8 < length (expr_text old) → 8 < (expr_fmt old (zeros 8) 0 8).1)
expr_fmt-prefix_example = expr_fmt-prefix old 8 7 (zeros 8) (zeros-IsIntact 8) (omega arith)
