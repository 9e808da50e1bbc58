-- ===== src/ParseExpr/Sound.antt =====
-- What commondb/parseexpr.c accepts: the tests of an expression that the parser returns.
use dudld.Common.{ℕ, zero, suc, true, Option, none, some, Bytes, ◌≡◌, refl, arith}
use dudld.ParseBuf.{PiStr, pi_str_new}
use dudld.ParseExpr.Syntax.{
  ValTest, type_of, Expr, op_and, op_or, op_not, op_self, Message, expecting_expression,
  expecting_another,
}
use dudld.ParseExpr.Tables.{is_valid}
use dudld.ParseExpr.Lexer.{ParseStat, done, undo, parse_nonspace}
use dudld.ParseExpr.Parser.{
  Outcome, ran, out_of_fuel, bind, expect, parse_expr_val, close_brace, combine, second_operand,
  rest_of_expr, check_test, parse_valtest, parse_operator, parse_expr_not, parse_one_expr,
  parse_expr, parsed, finish, fuel_for, start, expr_parse, expr_parse_str,
}

-- The table allows every test of the expression.
abbrev pub AreValid : Expr → Type 0
AreValid (op_self t) = is_valid t.field t.op (type_of t.val) ≡ true
AreValid (op_not e) = AreValid e
AreValid (op_and a b) = AreValid a × AreValid b
AreValid (op_or a b) = AreValid a × AreValid b

-- What a call that returned an expression promises of it.
abbrev IsSound : Outcome → Type 0
IsSound (ran none i) = Unit
IsSound (ran (some e) i) = AreValid e
IsSound out_of_fuel = Unit

check_test-valid :
    (t : ValTest) (i : ParseStat) (u : ValTest)
    → (check_test t i).0 ≡ some u
    → is_valid u.field u.op (type_of u.val) ≡ true
unfolding check_test
check_test-valid t i u h = ground arith

parse_valtest-valid :
    (i : ParseStat) (t : ValTest)
    → (parse_valtest i).0 ≡ some t
    → is_valid t.field t.op (type_of t.val) ≡ true
unfolding parse_valtest
parse_valtest-valid i t h = grind (arith, check_test-valid)

parse_expr_val-IsSound : (i : ParseStat) → IsSound (parse_expr_val i)
unfolding parse_expr_val
parse_expr_val-IsSound i = grind (arith, parse_valtest-valid i)

bind-IsSound :
    (o : Outcome) (m : Message) (f : Expr → ParseStat → Outcome)
    → IsSound o
    → ((e : Expr) (i : ParseStat) → AreValid e → IsSound (f e i))
    → IsSound (bind o (λ e i. expect m e i f))
bind-IsSound (ran none i) m f h k = tt
bind-IsSound (ran (some e) i) m f h k = k e i h
bind-IsSound out_of_fuel m f h k = tt

close_brace-IsSound : (e : Expr) (i : ParseStat) → AreValid e → IsSound (close_brace e i)
unfolding close_brace
close_brace-IsSound e i h = ground (arith, h)

combine-IsSound :
    (node : Expr → Expr → Expr) (a : Expr) (o : Outcome)
    → IsSound o
    → ((b : Expr) → AreValid b → AreValid (node a b))
    → IsSound (combine node a o)
unfolding combine
combine-IsSound node a o h k =
    bind-IsSound o expecting_another (λ b i. ran (some (node a b)) i) h (λ b i v. k b v)

second_operand-IsSound :
    (a : Expr) (i : ParseStat) (b : ParseStat → Outcome)
    → AreValid a
    → ((j : ParseStat) → IsSound (b j))
    → IsSound (second_operand a i b)
unfolding second_operand
second_operand-IsSound a i b h k =
    let both = combine-IsSound op_and a (b (parse_operator i).1) (k _) (λ x v. (h, v)) in
    let either = combine-IsSound op_or a (b (parse_operator i).1) (k _) (λ x v. (h, v)) in
    ground (arith, h, both, either)

rest_of_expr-IsSound :
    (a : Expr) (i : ParseStat) (b : ParseStat → Outcome)
    → AreValid a
    → ((j : ParseStat) → IsSound (b j))
    → IsSound (rest_of_expr a i b)
unfolding rest_of_expr
rest_of_expr-IsSound a i b h k =
    ground (arith, h, second_operand-IsSound a (undo (parse_nonspace i).1) b h k)

first_operand-IsSound :
    (o : Outcome) (b : ParseStat → Outcome)
    → IsSound o
    → ((j : ParseStat) → IsSound (b j))
    → IsSound (bind o (λ a j. elim a [ none ↦ ran none j | some e ↦ rest_of_expr e j b ]))
first_operand-IsSound (ran none i) b h k = tt
first_operand-IsSound (ran (some e) i) b h k = rest_of_expr-IsSound e i b h k
first_operand-IsSound out_of_fuel b h k = tt

one_expr_step :
    (f : ℕ) (i : ParseStat)
    → ((j : ParseStat) → IsSound (parse_expr f j))
    → ((j : ParseStat) → IsSound (parse_expr_not f j))
    → IsSound (parse_one_expr (suc f) i)
unfolding parse_one_expr
one_expr_step f i inner negated =
    let j : ParseStat = (parse_nonspace i).1 in
    let braced =
      bind-IsSound (parse_expr f (done j)) expecting_expression close_brace (inner (done j))
        close_brace-IsSound in
    ground (arith, braced, negated (done j), parse_expr_val-IsSound (undo j))

mutual
  unfolding parse_expr_not parse_one_expr parse_expr

  parse_expr_not-IsSound : (f : ℕ) (i : ParseStat) → IsSound (parse_expr_not f i)
  parse_expr_not-IsSound zero i = tt
  parse_expr_not-IsSound (suc f) i =
      bind-IsSound (parse_one_expr f i) expecting_expression (λ e j. ran (some (op_not e)) j)
        (parse_one_expr-IsSound f i) (λ e j v. v)

  parse_one_expr-IsSound : (f : ℕ) (i : ParseStat) → IsSound (parse_one_expr f i)
  parse_one_expr-IsSound zero i = tt
  parse_one_expr-IsSound (suc f) i =
      one_expr_step f i (parse_expr-IsSound f) (parse_expr_not-IsSound f)

  parse_expr-IsSound : (f : ℕ) (i : ParseStat) → IsSound (parse_expr f i)
  parse_expr-IsSound zero i = tt
  parse_expr-IsSound (suc f) i =
      first_operand-IsSound (parse_one_expr f i) (parse_one_expr f) (parse_one_expr-IsSound f i)
        (parse_one_expr-IsSound f)

finish-some : (e : Option Expr) (i : ParseStat) (x : Expr) → finish e i ≡ parsed x → e ≡ some x
unfolding finish
finish-some e i x h = ground arith

expr_parse-AreValid :
    (p : PiStr) (e : Expr)
    → expr_parse p ≡ parsed e
    → (o : Outcome) → parse_expr (fuel_for (start p)) (start p) ≡ o
    → IsSound o
    → AreValid e
unfolding expr_parse
expr_parse-AreValid p e h (ran none i) w v = ground (arith, finish-some none i e)
expr_parse-AreValid p e h (ran (some x) i) w v = grind (arith, finish-some (some x) i e)
expr_parse-AreValid p e h out_of_fuel w v = ground arith

-- The table allows every test of an expression that expr_parse_str returns.
pub expr_parse_str-AreValid : (s : Bytes) (e : Expr) → expr_parse_str s ≡ parsed e → AreValid e
unfolding expr_parse_str
expr_parse_str-AreValid s e h =
    expr_parse-AreValid (pi_str_new s) e h _ refl (parse_expr-IsSound _ _)
