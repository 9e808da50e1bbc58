-- ===== src/ParseExpr/Parser.antt =====
-- commondb/parseexpr.c: values, tests and expressions, by recursive descent. `none` is NULL.
use dudld.Common.{ℕ, zero, suc, ◌+◌, ◌*◌, not, Option, none, some, Bytes, ◌==◌, if◌then◌else◌, ◌||◌}
use dudld.Common.Char.{isdigit, is_char}
use dudld.ParseBuf.{PiStr, pi_str_eof, pi_str_col, pi_str_new}
use dudld.ParseExpr.Syntax.{
  Value, Values, num, string, list, nil, cons, type_of, ValOp, vo_none, vo_eq, vo_lt, vo_le, vo_gt,
  vo_ge, vo_in, vo_re, ValTest, Expr, op_self, op_not, op_and, op_or, Operator, none_op, and_op,
  or_op, Message, expecting_value, invalid_value, missing_value, eof_operator, unknown_field,
  invalid_value_operator, no_value, invalid_match, expecting_expression, missing_close,
  unexpected_close, invalid_operator, expecting_another, junk,
}
use dudld.ParseExpr.Tables.{field_of, is_valid}
use dudld.ParseExpr.Lexer.{
  ParseStat, parse_error, next, done, undo, left, parse_nonspace, parse_name, parse_num,
  parse_string,
}

unfoldable pub parse_value : ParseStat → Option Value × ParseStat
parse_value i =
    let (c, j) = parse_nonspace i in
    let k = undo j in
    elim c [
      | none ↦ (none, parse_error expecting_value k)
      | some b ↦
          if b == b'"'
          then (let (s, l) = parse_string k in
              elim s [ none ↦ (none, l) | some str ↦ (some (string str), l) ])
          else if isdigit b
          then (let (n, l) = parse_num k in (some (num n), l))
          else (none, parse_error invalid_value k)
    ]

-- The loop of parse_vallist, on the number of bytes left.
unfoldable pub vallist_from : ℕ → ParseStat → Option Values × ParseStat
vallist_from zero i = (none, parse_error missing_value (parse_value i).1)
vallist_from (suc n) i =
    let (v, j) = parse_value i in
    elim v [
      | none ↦ (none, parse_error missing_value j)
      | some x ↦
          let (c, k) = parse_nonspace j in
          let more = vallist_from n k in
          if is_char b',' c
          then elim more.0 [ none ↦ (none, more.1) | some xs ↦ (some (cons x xs), more.1) ]
          else (some (cons x nil), undo k)
    ]

unfoldable pub parse_vallist : ParseStat → Option Value × ParseStat
parse_vallist i =
    let (vs, j) = vallist_from (left i) i in
    elim vs [ none ↦ (none, j) | some xs ↦ (some (list xs), j) ]

-- `>` and `<`, with `=` behind them or not.
unfoldable pub compare_op : ValOp → ValOp → ParseStat → ValOp × ParseStat
compare_op with_eq without i =
    let (n, j) = next i in if is_char b'=' n then (with_eq, done j) else (without, undo j)

-- Behind an `i`. With no `n` there the case falls through to the one of EOF.
unfoldable pub in_op : ParseStat → ValOp × ParseStat
in_op i =
    let (n, j) = next i in
    if is_char b'n' n || is_char b'N' n
    then (vo_in, done j)
    else (vo_none, parse_error eof_operator (done j))

unfoldable pub parse_valop : ParseStat → ValOp × ParseStat
parse_valop i =
    let (c, j) = parse_nonspace i in
    elim c [
      | none ↦ (vo_none, parse_error eof_operator (done j))
      | some b ↦
          if b == b'='
          then (vo_eq, done j)
          else if b == b'>'
          then compare_op vo_ge vo_gt (done j)
          else if b == b'<'
          then compare_op vo_le vo_lt (done j)
          else if b == b'~'
          then (vo_re, done j)
          else if b == b'i' || b == b'I'
          then in_op j
          else (vo_none, undo j)
    ]

-- The value behind an operator; the flag tells an operator that takes one.
unfoldable pub operand : ValOp → ParseStat → Option (Option Value × ParseStat)
operand vo_none i = none
operand vo_in i = some (parse_vallist i)
operand _ i = some (parse_value i)

-- The check of a test against the table.
unfoldable pub check_test : ValTest → ParseStat → Option ValTest × ParseStat
check_test t i =
    if is_valid t.field t.op (type_of t.val)
    then (some t, i)
    else (none, parse_error (invalid_match t.field t.op (type_of t.val)) i)

unfoldable pub parse_valtest : ParseStat → Option ValTest × ParseStat
parse_valtest i =
    let (name, j) = parse_name i in
    elim (field_of name) [
      | none ↦ (none, parse_error unknown_field j)
      | some f ↦
          let (o, k) = parse_valop j in
          elim (operand o k) [
            | none ↦ (none, parse_error invalid_value_operator k)
            | some r ↦ elim r.0 [
              | none ↦ (none, parse_error no_value r.1)
              | some v ↦ check_test (record { field = f; op = o; val = v }) r.1
            ]
          ]
    ]

unfoldable pub parse_operator : ParseStat → Operator × ParseStat
parse_operator i =
    let (c, j) = parse_nonspace i in
    elim c [
      | none ↦ (none_op, done j)
      | some b ↦
          if b == b'|'
          then (or_op, done j)
          else if b == b'&'
          then (and_op, done j)
          else (none_op, undo j)
    ]

-- The result of a call that recurs on fuel.
pub data Outcome : Type 0 where
  ran : Option Expr → ParseStat → Outcome
  out_of_fuel : Outcome

abbrev pub bind : Outcome → (Option Expr → ParseStat → Outcome) → Outcome
bind (ran e i) f = f e i
bind out_of_fuel f = out_of_fuel

-- A NULL adds a message to those that may stand already; an expression goes on to `f`.
abbrev pub expect : Message → Option Expr → ParseStat → (Expr → ParseStat → Outcome) → Outcome
expect m none i f = ran none (parse_error m i)
expect m (some e) i f = f e i

unfoldable pub parse_expr_val : ParseStat → Outcome
parse_expr_val i =
    let (t, j) = parse_valtest i in
    elim t [ none ↦ ran none j | some vt ↦ ran (some (op_self vt)) j ]

-- Behind the expression in brackets.
unfoldable pub close_brace : Expr → ParseStat → Outcome
close_brace e i =
    let (c, j) = parse_nonspace i in
    if is_char b')' c then ran (some e) (done j) else ran none (parse_error missing_close j)

-- The second operand of `&` or `|`, and the node of both.
unfoldable pub combine : (Expr → Expr → Expr) → Expr → Outcome → Outcome
combine node a b = bind b (λ e i. expect expecting_another e i (λ e' j. ran (some (node a e')) j))

-- parse_expr behind its first operand, where no `)` follows: `b` parses the second operand.
unfoldable pub second_operand : Expr → ParseStat → (ParseStat → Outcome) → Outcome
second_operand a i b =
    let (o, j) = parse_operator i in
    elim o [
      | none_op ↦
          if not (pi_str_eof j.input)
          then ran none (parse_error invalid_operator j)
          else ran (some a) j
      | and_op ↦ combine op_and a (b j)
      | or_op ↦ combine op_or a (b j)
    ]

-- parse_expr behind its first operand.
unfoldable pub rest_of_expr : Expr → ParseStat → (ParseStat → Outcome) → Outcome
rest_of_expr a i b =
    let (c, j) = parse_nonspace i in
    if is_char b')' c then ran (some a) (undo j) else second_operand a (undo j) b

-- Every call spends a unit of fuel.
unfoldable mutual
  pub parse_expr_not : ℕ → ParseStat → Outcome
  parse_expr_not zero i = out_of_fuel
  parse_expr_not (suc f) i =
      bind (parse_one_expr f i)
        (λ e j. expect expecting_expression e j (λ e' k. ran (some (op_not e')) k))

  pub parse_one_expr : ℕ → ParseStat → Outcome
  parse_one_expr zero i = out_of_fuel
  parse_one_expr (suc f) i =
      let (c, j) = parse_nonspace i in
      let inner =
        bind (parse_expr f (done j)) (λ e k. expect expecting_expression e k close_brace) in
      let negated = parse_expr_not f (done j) in
      if is_char b'(' c
      then inner
      else if is_char b')' c
      then ran none (done (parse_error unexpected_close j))
      else if is_char b'!' c
      then negated
      else parse_expr_val (undo j)

  pub parse_expr : ℕ → ParseStat → Outcome
  parse_expr zero i = out_of_fuel
  parse_expr (suc f) i =
      bind (parse_one_expr f i)
        (λ a j. elim a [ none ↦ ran none j | some e ↦ rest_of_expr e j (parse_one_expr f) ])

-- What expr_parse hands back: the expression, or the message and the column.
pub data Parsed : Type 0 where
  parsed : Expr → Parsed
  failed : Option Message → ℕ → Parsed
  gave_up : Parsed

-- The end of expr_parse.
unfoldable pub finish : Option Expr → ParseStat → Parsed
finish none i = failed i.msg (pi_str_col i.input)
finish (some e) i =
    let (c, j) = parse_nonspace i in
    elim c [ none ↦ parsed e | some b ↦ failed (some junk) (pi_str_col j.input) ]

-- Two units of fuel for each byte that is left, and three more.
unfoldable pub fuel_for : ParseStat → ℕ
fuel_for i = 2 * left i + 3

abbrev pub start : PiStr → ParseStat
start p = record { input = p; msg = none }

unfoldable pub expr_parse : PiStr → Parsed
expr_parse p = elim (parse_expr (fuel_for (start p)) (start p)) [
  | ran e i ↦ finish e i
  | out_of_fuel ↦ gave_up
]

unfoldable pub expr_parse_str : Bytes → Parsed
expr_parse_str s = expr_parse (pi_str_new s)
