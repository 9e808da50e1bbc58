-- ===== src/ParseExpr/RoundTrip/Exprs.antt =====
-- expr_parse of commondb/parseexpr.c on printed expressions.
use dudld.Common.{
  ℕ, zero, suc, ◌+◌, ◌*◌, ◌≤◌, true, false, Option, none, some, Bytes, [], ◌∷◌, ◌++◌, ◌≡◌, ◌≢◌,
  refl, sym, ◌∙◌, arith, length, length-append, get_or_nil, inl, inr, append_assoc, append-nil,
  codes,
}
use dudld.Common.Char.{isspace, isdigit}
use dudld.ParseBuf.{PiStr, pi_str_eof, pi_str_new}
use dudld.ParseExpr.Syntax.{Message, ValTest, Expr, op_self, op_not, op_and, op_or}
use dudld.ParseExpr.Text.{valtest_text, expr_text}
use dudld.ParseExpr.Lexer.{ParseStat, done, undo, parse_nonspace}
use dudld.ParseExpr.Lexer.Steps.{At}
use dudld.ParseExpr.Lexer.Tokens.{IsSolid}
use dudld.ParseExpr.Lexer.Numbers.{Over, Over-Sees, Over-SeesEnd, Trims, Trims-Over}
use dudld.ParseExpr.Parser.{
  Outcome, ran, parse_expr_val, close_brace, combine, second_operand, rest_of_expr, parse_operator,
  parse_valtest, parse_expr_not, parse_one_expr, parse_expr, parsed, finish, fuel_for, start,
  expr_parse, expr_parse_str,
}
use dudld.ParseExpr.RoundTrip.Values.{EndsValue}
use dudld.ParseExpr.RoundTrip.Tests.{IsPrintable, parse_valtest-text, valtest_text-head}

-- Every test of the expression is printable.
abbrev pub ArePrintable : Expr → Type 0
ArePrintable (op_self t) = IsPrintable t
ArePrintable (op_not e) = ArePrintable e
ArePrintable (op_and a b) = ArePrintable a × ArePrintable b
ArePrintable (op_or a b) = ArePrintable a × ArePrintable b

-- The call returned `e` and left `rest`, with at most one space in front.
pub record Gives (o : Outcome) (e : Expr) (rest : Bytes) (m : Option Message) : Type 0 where
  pub state : ParseStat
  pub returns : o ≡ ran (some e) state
  pub over : Over state rest
  pub quiet : state.msg ≡ m

-- The same, with nothing in front.
record GivesAt (o : Outcome) (e : Expr) (rest : Bytes) (m : Option Message) : Type 0 where
  state : ParseStat
  returns : o ≡ ran (some e) state
  at : At state rest
  quiet : state.msg ≡ m

trimmed :
    {o : Outcome} {e : Expr} (tail rest : Bytes) {m : Option Message}
    → GivesAt o e tail m
    → Trims tail rest
    → Gives o e rest m
trimmed tail rest g t = record {
  state = g.state;
  returns = g.returns;
  over = Trims-Over g.state g.at t;
  quiet = g.quiet;
}

-- How deep the calls for an expression go.
abbrev pub depth : Expr → ℕ
depth (op_self t) = 2
depth (op_not e) = 4 + depth e
depth (op_and a b) = 3 + (depth a + depth b)
depth (op_or a b) = 3 + (depth a + depth b)

-- In brackets an expression is parsed by parse_expr.
parse_one_expr-open :
    (f : ℕ) (i : ParseStat) {r r' : Bytes} {e : Expr}
    → Over i (40 ∷ r)
    → ((j : ParseStat) → At j r → j.msg ≡ i.msg → Gives (parse_expr f j) e (41 ∷ r') i.msg)
    → GivesAt (parse_one_expr (suc f) i) e r' i.msg
unfolding parse_one_expr isspace
parse_one_expr-open f i {r' = r'} {e = e} h inner =
    let s = Over-Sees i h ((omega arith, omega arith), refl) in
    let g = inner (done (parse_nonspace i).1) s.after s.quiet in
    let z = Over-Sees g.state g.over ((omega arith, omega arith), refl) in
    let back = g.returns in
    record {
      state = done (parse_nonspace g.state).1;
      returns = unfold close_brace in ground (arith, s.value, z.value);
      at = z.after;
      quiet = z.quiet ∙ g.quiet;
    }

-- What follows an expression: the end of the text, or a closing bracket.
abbrev EndsExpr : Bytes → Type 0
EndsExpr [] = Unit
EndsExpr (b ∷ r) = b ≡ 41

close-IsSolid : IsSolid 41 × (isdigit 41 ≡ false) × (◌≢◌ {A = ℕ} 41 44)
unfolding isspace isdigit
close-IsSolid = (((omega arith, omega arith), refl), refl, omega arith)

EndsExpr-EndsValue : (rest : Bytes) → EndsExpr rest → EndsValue rest
EndsExpr-EndsValue [] e = tt
EndsExpr-EndsValue (b ∷ r) e = rw e close-IsSolid

eof_At : (j : ParseStat) → At j [] → pi_str_eof j.input ≡ true
unfolding pi_str_eof
eof_At j h = rw (get_or_nil j.input.cur j.input.str 0 h)

closing : (j : ParseStat) (r : Bytes) (x : ℕ) → x ≡ 41 → Over j (x ∷ r) → Over j (41 ∷ r)
closing j r x e h = rw e at h

-- With nothing or a closing bracket behind it the first operand is the whole expression.
rest_of_expr-end :
    (a : Expr) (j : ParseStat) (b : ParseStat → Outcome) (rest : Bytes)
    → Over j rest
    → EndsExpr rest
    → Gives (rest_of_expr a j b) a rest j.msg
unfolding rest_of_expr
rest_of_expr-end a j b [] h e =
    let s = Over-SeesEnd j h in
    let s' = Over-SeesEnd (undo (parse_nonspace j).1) (inl s.back) in
    record {
      state = done (parse_nonspace (undo (parse_nonspace j).1)).1;
      returns =
          unfold second_operand parse_operator in
          ground (
            arith,
            s.value,
            s'.value,
            eof_At (done (parse_nonspace (undo (parse_nonspace j).1)).1) s'.after,
          );
      over = inl s'.after;
      quiet = s'.quiet ∙ s.quiet;
    }
rest_of_expr-end a j b (x ∷ r) h e =
    let s = Over-Sees j (closing j r x e h) close-IsSolid.0 in
    record {
      state = undo (parse_nonspace j).1;
      returns = ground (arith, s.value);
      over = inl (rw e s.back);
      quiet = s.quiet;
    }

-- parse_expr behind an operand that nothing follows.
parse_expr-end :
    (f : ℕ) (i : ParseStat) (e : Expr) (rest : Bytes) {m : Option Message}
    → Gives (parse_one_expr f i) e rest m
    → EndsExpr rest
    → Gives (parse_expr (suc f) i) e rest m
unfolding parse_expr
parse_expr-end f i e rest g ends =
    let h = rest_of_expr-end e g.state (parse_one_expr f) rest g.over ends in
    let first = g.returns in
    let second = h.returns in
    record { state = h.state; returns = ground arith; over = h.over; quiet = h.quiet ∙ g.quiet }

parse_one_expr-test :
    (f : ℕ) (i : ParseStat) (t : ValTest) (tail rest : Bytes)
    → IsPrintable t
    → Over i (valtest_text t ++ tail)
    → Trims tail rest
    → EndsExpr rest
    → Gives (parse_one_expr (suc f) i) (op_self t) rest i.msg
unfolding parse_one_expr parse_expr_val
parse_one_expr-test f i t tail rest p h trim e =
    let (b, r, head, (solid, n1, n2, n3)) = valtest_text-head t p in
    let s = Over-Sees i (rw head at h) solid in
    let v =
      parse_valtest-text t (undo (parse_nonspace i).1) tail rest p (rw head s.back) trim
        (EndsExpr-EndsValue rest e) in
    record {
      state = (parse_valtest (undo (parse_nonspace i).1)).1;
      returns = ground (arith, s.value, v.value);
      over = v.over;
      quiet = v.quiet ∙ s.quiet;
    }

-- parse_expr reads an expression off the front of a text.
abbrev ReadsExpr : Expr → Type 0
ReadsExpr e =
    (f : ℕ) (i : ParseStat) (tail rest : Bytes)
    → depth e ≤ f
    → Over i (expr_text e ++ tail)
    → Trims tail rest
    → EndsExpr rest
    → Gives (parse_expr f i) e rest i.msg

-- An expression in brackets, by parse_one_expr.
bracketed :
    (e : Expr) (f : ℕ) (i : ParseStat) (tail : Bytes)
    → ReadsExpr e
    → depth e ≤ f
    → Over i (codes "( " ++ (expr_text e ++ (32 ∷ 41 ∷ tail)))
    → GivesAt (parse_one_expr (suc f) i) e tail i.msg
bracketed e f i tail reads le h = parse_one_expr-open f i h λ j at q.
    let g = reads f j (32 ∷ 41 ∷ tail) (41 ∷ tail) le (inr at) (inr refl) refl in
    record { state = g.state; returns = g.returns; over = g.over; quiet = g.quiet ∙ q }

parse_one_expr-not :
    (e : Expr) (f : ℕ) (i : ParseStat) (tail : Bytes)
    → ReadsExpr e
    → depth e ≤ f
    → Over i (codes "!( " ++ (expr_text e ++ (32 ∷ 41 ∷ tail)))
    → GivesAt (parse_one_expr (suc (suc (suc f))) i) (op_not e) tail i.msg
unfolding parse_one_expr parse_expr_not isspace
parse_one_expr-not e f i tail reads le h =
    let s = Over-Sees i h ((omega arith, omega arith), refl) in
    let g = bracketed e f (done (parse_nonspace i).1) tail reads le (inl s.after) in
    let inner = g.returns in
    record {
      state = g.state;
      returns = ground (arith, s.value);
      at = g.at;
      quiet = g.quiet ∙ s.quiet;
    }

-- The second of two bracketed operands, behind the operator's character.
second_operand-text :
    (node : Expr → Expr → Expr) (c : ℕ) (a b : Expr) (f : ℕ) (j : ParseStat) (tail rest : Bytes)
    → ReadsExpr b
    → depth b ≤ f
    → IsSolid c
    → c ≢ 41
    → ((k : ParseStat) (p : ParseStat → Outcome)
        → (parse_nonspace k).0 ≡ some c
        → second_operand a k p ≡ combine node a (p (done (parse_nonspace k).1)))
    → Over j (c ∷ 40 ∷ 32 ∷ (expr_text b ++ (32 ∷ 41 ∷ tail)))
    → Trims tail rest
    → Gives (rest_of_expr a j (parse_one_expr (suc f))) (node a b) rest j.msg
unfolding rest_of_expr combine
second_operand-text node c a b f j tail rest reads le solid ne goes h trim =
    let s = Over-Sees j h solid in
    let k = undo (parse_nonspace j).1 in
    let s' = Over-Sees k (inl s.back) solid in
    let g = bracketed b f (done (parse_nonspace k).1) tail reads le (inl s'.after) in
    let inner = g.returns in
    record {
      state = g.state;
      returns = ground (arith, s.value, goes k (parse_one_expr (suc f)) s'.value);
      over = Trims-Over g.state g.at trim;
      quiet = g.quiet ∙ s'.quiet ∙ s.quiet;
    }

-- Two bracketed operands.
binary_text :
    (node : Expr → Expr → Expr) (c : ℕ) (a b : Expr) (f : ℕ) (i : ParseStat) (tail rest : Bytes)
    → ReadsExpr a
    → ReadsExpr b
    → depth a ≤ f
    → depth b ≤ f
    → IsSolid c
    → c ≢ 41
    → ((k : ParseStat) (p : ParseStat → Outcome)
        → (parse_nonspace k).0 ≡ some c
        → second_operand a k p ≡ combine node a (p (done (parse_nonspace k).1)))
    → Over i
        (40 ∷ 32 ∷ (expr_text a ++ (32 ∷ 41 ∷ c ∷ 40 ∷ 32 ∷ (expr_text b ++ (32 ∷ 41 ∷ tail)))))
    → Trims tail rest
    → Gives (parse_expr (suc (suc f)) i) (node a b) rest i.msg
unfolding parse_expr
binary_text node c a b f i tail rest ra rb la lb solid ne goes h trim =
    let g = bracketed a f i _ ra la h in
    let first = g.returns in
    let w =
      second_operand-text node c a b f g.state tail rest rb lb solid ne goes (inl g.at) trim in
    let second = w.returns in
    record { state = w.state; returns = ground arith; over = w.over; quiet = w.quiet ∙ g.quiet }

and-IsSolid : IsSolid 38
unfolding isspace
and-IsSolid = ((omega arith, omega arith), refl)

or-IsSolid : IsSolid 124
unfolding isspace
or-IsSolid = ((omega arith, omega arith), refl)

-- Every printable expression is read off the front of a text.
parse_expr-text : (e : Expr) → ArePrintable e → ReadsExpr e
unfolding expr_text second_operand parse_operator
parse_expr-text (op_self t) p zero i tail rest le h trim ends = absurd (omega arith)
parse_expr-text (op_self t) p (suc zero) i tail rest le h trim ends = absurd (omega arith)
parse_expr-text (op_self t) p (suc (suc f)) i tail rest le h trim ends =
    parse_expr-end (suc f) i (op_self t) rest (parse_one_expr-test f i t tail rest p h trim ends)
      ends
parse_expr-text (op_not e) p (suc (suc (suc (suc f)))) i tail rest le h trim ends =
    parse_expr-end (suc (suc (suc f))) i (op_not e) rest
      (trimmed tail rest
        (parse_one_expr-not e f i tail (parse_expr-text e p) (omega arith)
          (rw (append_assoc (expr_text e) (codes " )") tail) at h))
        trim)
      ends
parse_expr-text (op_not e) p f i tail rest le h trim ends = absurd (omega arith)
parse_expr-text (op_and a b) p (suc (suc f)) i tail rest le h trim ends =
    binary_text op_and 38 a b f i tail rest (parse_expr-text a p.0) (parse_expr-text b p.1)
      (omega arith) (omega arith) and-IsSolid (omega arith) (λ k q e. ground arith)
      (rw
        (
          append_assoc (expr_text a) (codes " )&( " ++ (expr_text b ++ codes " )")) tail,
          append_assoc (expr_text b) (codes " )") tail,
        )
        at h)
      trim
parse_expr-text (op_or a b) p (suc (suc f)) i tail rest le h trim ends =
    binary_text op_or 124 a b f i tail rest (parse_expr-text a p.0) (parse_expr-text b p.1)
      (omega arith) (omega arith) or-IsSolid (omega arith) (λ k q e. ground arith)
      (rw
        (
          append_assoc (expr_text a) (codes " )|( " ++ (expr_text b ++ codes " )")) tail,
          append_assoc (expr_text b) (codes " )") tail,
        )
        at h)
      trim
parse_expr-text e p f i tail rest le h trim ends = absurd (omega arith)

-- The fuel of expr_parse reaches every printed expression.
depth-le-length : (e : Expr) → depth e ≤ 2 * length (expr_text e) + 3
unfolding expr_text
depth-le-length (op_self t) = omega arith
depth-le-length (op_not e) =
    omega (arith, depth-le-length e, length-append (expr_text e) (codes " )"))
depth-le-length (op_and a b) = omega (
  arith,
  depth-le-length a,
  depth-le-length b,
  length-append (expr_text a) (codes " )&( " ++ (expr_text b ++ codes " )")),
  length-append (expr_text b) (codes " )"),
)
depth-le-length (op_or a b) = omega (
  arith,
  depth-le-length a,
  depth-le-length b,
  length-append (expr_text a) (codes " )|( " ++ (expr_text b ++ codes " )")),
  length-append (expr_text b) (codes " )"),
)

expr_parse-ran :
    (p : PiStr) (e : Expr) (i : ParseStat)
    → parse_expr (fuel_for (start p)) (start p) ≡ ran (some e) i
    → (parse_nonspace i).0 ≡ none
    → expr_parse p ≡ parsed e
unfolding expr_parse finish
expr_parse-ran p e i h g = ground arith

-- An expression each of whose tests the table allows, on numbers below 2^31, strings of characters that
-- are neither quoted, 0, 255 nor changed by tolower, and lists of these that are not empty, is what
-- expr_parse_str makes of its printed text.
pub expr_parse_str-text : (e : Expr) → ArePrintable e → expr_parse_str (expr_text e) ≡ parsed e
unfolding expr_parse_str pi_str_new
expr_parse_str-text e p =
    let i = start (pi_str_new (expr_text e)) in
    let g =
      parse_expr-text e p (fuel_for i) i [] [] (unfold fuel_for in omega (arith, depth-le-length e))
        (inl (sym (append-nil (expr_text e)))) (inl refl) tt in
    expr_parse-ran (pi_str_new (expr_text e)) e g.state g.returns
      (Over-SeesEnd g.state g.over).value
