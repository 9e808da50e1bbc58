-- ===== src/ParseExpr/Termination.antt =====
-- The recursive descent of commondb/parseexpr.c ends: the fuel of the model is never spent.
use dudld.Common.{
  ℕ, zero, suc, ◌+◌, ◌-◌, ◌*◌, ◌<◌, ◌≤◌, ◌≢◌, true, Option, none, some, Bytes, ◌≡◌, refl, subst,
  arith, length,
}
use dudld.Common.Char.{is_char}
use dudld.ParseBuf.{PiStr, pi_str_new}
use dudld.ParseExpr.Syntax.{
  Expr, op_and, op_or, Message, none_op, missing_close, invalid_operator, unexpected_close,
  expecting_expression,
}
use dudld.ParseExpr.Lexer.{ParseStat, done, undo, parse_nonspace}
use dudld.ParseExpr.Parser.{
  Outcome, ran, out_of_fuel, bind, expect, parse_expr_val, close_brace, combine, second_operand,
  rest_of_expr, parse_operator, parse_expr_not, parse_one_expr, parse_expr, gave_up, finish,
  fuel_for, start, expr_parse, expr_parse_str,
}
use dudld.ParseExpr.Progress.{
  Past, PastByte, undo-Past, done-Past, parse_error-Past, parse_nonspace-Past, parse_valtest-Past,
  parse_operator-Past, parse_nonspace-some, parse_operator-some,
}

-- The call ended, and did not go back behind the place `n` of the text `s`.
abbrev pub Ends : Bytes → ℕ → Outcome → Type 0
Ends s n (ran e i) = Past s n i
Ends s n out_of_fuel = ⊥

module _ (s : Bytes) (n : ℕ) where
  bind-Ends :
      (o : Outcome) (f : Option Expr → ParseStat → Outcome)
      → Ends s n o
      → ((e : Option Expr) (i : ParseStat) → Past s n i → Ends s n (f e i))
      → Ends s n (bind o f)
  bind-Ends (ran e i) f h k = k e i h
  bind-Ends out_of_fuel f h k = absurd h

  expect-Ends :
      (m : Message) (e : Option Expr) (i : ParseStat) (f : Expr → ParseStat → Outcome)
      → Past s n i
      → ((x : Expr) → Ends s n (f x i))
      → Ends s n (expect m e i f)
  expect-Ends m none i f h k = parse_error-Past m i h
  expect-Ends m (some x) i f h k = k x

  parse_expr_val-Ends : (i : ParseStat) → Past s n i → Ends s n (parse_expr_val i)
  unfolding parse_expr_val
  parse_expr_val-Ends i h = grind (arith, parse_valtest-Past i h)

  close_brace-Ends : (e : Expr) (i : ParseStat) → Past s n i → Ends s n (close_brace e i)
  unfolding close_brace
  close_brace-Ends e i h =
      let p = parse_nonspace-Past i h in
      ground (arith, p, parse_error-Past missing_close (parse_nonspace i).1 p)

  combine-Ends :
      (node : Expr → Expr → Expr) (a : Expr) (o : Outcome)
      → Ends s n o
      → Ends s n (combine node a o)
  unfolding combine
  combine-Ends node a o h = bind-Ends o _ h (λ e i k. expect-Ends _ e i _ k (λ x. k))

weaken-Ends : (s : Bytes) (n : ℕ) (o : Outcome) → Ends s (suc n) o → Ends s n o
weaken-Ends s n (ran e i) h = record {
  same = h.same;
  place = omega (arith, h.place);
  mark = omega (arith, h.mark);
}
weaken-Ends s n out_of_fuel h = absurd h

-- `b` parses what follows a byte behind `n`.
abbrev Continues : Bytes → ℕ → (ParseStat → Outcome) → Type 0
Continues s n b = (j : ParseStat) → n < length s → Past s (suc n) j → Ends s (suc n) (b j)

module _ (s : Bytes) (n : ℕ) where
  second_operand-Ends :
      (a : Expr) (i : ParseStat) (b : ParseStat → Outcome)
      → Past s n i
      → Continues s n b
      → Ends s n (second_operand a i b)
  unfolding second_operand
  second_operand-Ends a i b h k =
      let p = parse_operator-Past i h in
      let q = parse_error-Past invalid_operator (parse_operator i).1 p in
      let both : (node : Expr → Expr → Expr)
          → (parse_operator i).0 ≢ none_op
          → Ends s n (combine node a (b (parse_operator i).1)) =
        λ node ne.
          let (x, l) = parse_operator-some i h ne in
          combine-Ends s n node a _ (weaken-Ends s n _ (k (parse_operator i).1 l x)) in
      ground (arith, p, q, both op_and, both op_or)

  rest_of_expr-Ends :
      (a : Expr) (i : ParseStat) (b : ParseStat → Outcome)
      → Past s n i
      → Continues s n b
      → Ends s n (rest_of_expr a i b)
  unfolding rest_of_expr
  rest_of_expr-Ends a i b h k =
      let u = undo-Past (parse_nonspace i).1 (parse_nonspace-Past i h) in
      grind (arith, u, second_operand-Ends a (undo (parse_nonspace i).1) b u k)

first_operand-Ends :
    (s : Bytes) (n : ℕ) (e : Option Expr) (i : ParseStat) (b : ParseStat → Outcome)
    → Past s n i
    → Continues s n b
    → Ends s n (elim e [ none ↦ ran none i | some a ↦ rest_of_expr a i b ])
first_operand-Ends s n none i b h k = h
first_operand-Ends s n (some a) i b h k = rest_of_expr-Ends s n a i b h k

is_char-some : (b : ℕ) (c : Option ℕ) → is_char b c ≡ true → (x : ℕ) × (c ≡ some x)
is_char-some b none h = cc
is_char-some b (some x) h = (x, refl)

read_byte :
    (s : Bytes) (n b : ℕ) (i : ParseStat)
    → Past s n i
    → is_char b (parse_nonspace i).0 ≡ true
    → PastByte s n (parse_nonspace i).1
read_byte s n b i h e =
    let (x, k) = is_char-some b (parse_nonspace i).0 e in parse_nonspace-some i x h k

-- A call that starts behind a byte.
abbrev Nested : Bytes → ℕ → ParseStat → (ParseStat → Outcome) → Type 0
Nested s n j f = n < length s → Past s (suc n) (done j) → Ends s (suc n) (f (done j))

one_expr_step :
    (s : Bytes) (n f : ℕ) (i : ParseStat)
    → Past s n i
    → Nested s n (parse_nonspace i).1 (parse_expr f)
    → Nested s n (parse_nonspace i).1 (parse_expr_not f)
    → Ends s n (parse_one_expr (suc f) i)
unfolding parse_one_expr
one_expr_step s n f i h inner negated =
    let j : ParseStat = (parse_nonspace i).1 in
    let p = parse_nonspace-Past i h in
    let braced : is_char 40 (parse_nonspace i).0 ≡ true
        → Ends s n
            (bind (parse_expr f (done j)) (λ e k. expect expecting_expression e k close_brace)) =
      λ e.
        let r = read_byte s n 40 i h e in
        weaken-Ends s n _ (
          bind-Ends s (suc n) (parse_expr f (done j)) _ (inner r.inside r.ahead) (λ x k w.
            expect-Ends s (suc n) _ x k close_brace w (λ y. close_brace-Ends s (suc n) y k w))) in
    let bang : is_char 33 (parse_nonspace i).0 ≡ true → Ends s n (parse_expr_not f (done j)) =
      λ e. let r = read_byte s n 33 i h e in weaken-Ends s n _ (negated r.inside r.ahead) in
    let closing = done-Past _ (parse_error-Past unexpected_close j p) in
    let test = parse_expr_val-Ends s n (undo j) (undo-Past j p) in
    ground (arith, braced, bang, closing, test)

-- The three calls end, on two units of fuel for each byte behind `n`, and one or two more.
mutual
  unfolding parse_expr_not parse_expr

  parse_expr_not-Ends :
      (s : Bytes) (n f : ℕ) (i : ParseStat)
      → Past s n i
      → 2 * (length s - n) + 2 ≤ f
      → Ends s n (parse_expr_not f i)
  parse_expr_not-Ends s n zero i h le = absurd (omega (arith, le))
  parse_expr_not-Ends s n (suc f) i h le =
      bind-Ends s n (parse_one_expr f i) _ (parse_one_expr-Ends s n f i h (omega (arith, le)))
        (λ e j k. expect-Ends s n _ e j _ k (λ x. k))

  parse_one_expr-Ends :
      (s : Bytes) (n f : ℕ) (i : ParseStat)
      → Past s n i
      → 2 * (length s - n) + 1 ≤ f
      → Ends s n (parse_one_expr f i)
  parse_one_expr-Ends s n zero i h le = absurd (omega (arith, le))
  parse_one_expr-Ends s n (suc f) i h le =
      one_expr_step s n f i h
        (λ lt k. parse_expr-Ends s (suc n) f (done (parse_nonspace i).1) k (omega (arith, le, lt)))
        (λ lt k.
          parse_expr_not-Ends s (suc n) f (done (parse_nonspace i).1) k (omega (arith, le, lt)))

  parse_expr-Ends :
      (s : Bytes) (n f : ℕ) (i : ParseStat)
      → Past s n i
      → 2 * (length s - n) + 2 ≤ f
      → Ends s n (parse_expr f i)
  parse_expr-Ends s n zero i h le = absurd (omega (arith, le))
  parse_expr-Ends s n (suc f) i h le =
      bind-Ends s n (parse_one_expr f i) _ (parse_one_expr-Ends s n f i h (omega (arith, le)))
        (λ e j k.
          first_operand-Ends s n e j (parse_one_expr f) k
            (λ l lt m. parse_one_expr-Ends s (suc n) f l m (omega (arith, le, lt))))

expr_parse-ran :
    (p : PiStr) (o : Outcome)
    → parse_expr (fuel_for (start p)) (start p) ≡ o
    → o ≢ out_of_fuel
    → expr_parse p ≢ gave_up
unfolding expr_parse finish
expr_parse-ran p o e ne = ground arith

-- expr_parse_str ends on every text: it returns an expression or reports a failure.
pub expr_parse_str-ends : (s : Bytes) → expr_parse_str s ≢ gave_up
unfolding expr_parse_str pi_str_new fuel_for
expr_parse_str-ends s =
    let p = pi_str_new s in
    let w =
      parse_expr-Ends s 0 (fuel_for (start p)) (start p)
        (record { same = refl; place = omega arith; mark = omega arith }) (omega arith) in
    expr_parse-ran p _ refl (λ e. subst (Ends s 0) e w)
