-- ===== src/ParseExpr/Print.antt =====
-- commondb/parseexpr.c: the printer, into an array of bounded size.
use dudld.Common.{
  ℕ, suc, ◌≤◌, ◌<◌, ◌≡◌, ◌∙◌, subst, arith, true, false, Bytes, [], ◌∷◌, ◌++◌, append_assoc, codes,
  length, take, Bool-cases, inl, inr, ltb, ltb→lt,
}
use dudld.Common.Memory.{Memory, IsIntact, Begins-IsIntact, IsIntact-Begins}
use dudld.Common.Writer.{
  Writer, emit, skip, ◌▸◌, Prints, Prints-emit, Prints-skip, Prints-started, Prints-then,
}
use dudld.ParseExpr.Syntax.{
  Value, Values, num, string, list, nil, cons, ValTest, Expr, op_self, op_not, op_and, op_or,
}
use dudld.ParseExpr.Tables.{valfield_name, valop_name}
use dudld.ParseExpr.Text.{print_int, value_text, values_text, valtest_text, expr_text}

unfoldable mutual
  pub value_fmt : Value → Writer
  value_fmt (num n) = emit (print_int n)
  value_fmt (string s) = emit (b'"' ∷ (s ++ b'"' ∷ []))
  value_fmt (list nil) = skip
  value_fmt (list (cons v vs)) = value_fmt v ▸ values_fmt vs

  -- The rest of the loop over a list.
  pub values_fmt : Values → Writer
  values_fmt nil = skip
  values_fmt (cons v vs) = emit (codes ", ") ▸ (value_fmt v ▸ values_fmt vs)

unfoldable pub valtest_fmt : ValTest → Writer
valtest_fmt t =
    emit (valfield_name t.field ++ (b' ' ∷ (valop_name t.op ++ b' ' ∷ []))) ▸ value_fmt t.val

unfoldable pub expr_fmt : Expr → Writer
expr_fmt (op_self t) = valtest_fmt t
expr_fmt (op_not e) = emit (codes "!( ") ▸ (expr_fmt e ▸ emit (codes " )"))
expr_fmt (op_and a b) =
    emit (codes "( ") ▸ (expr_fmt a ▸ (emit (codes " )&( ") ▸ (expr_fmt b ▸ emit (codes " )"))))
expr_fmt (op_or a b) =
    emit (codes "( ") ▸ (expr_fmt a ▸ (emit (codes " )|( ") ▸ (expr_fmt b ▸ emit (codes " )"))))

mutual
  unfolding value_fmt values_fmt value_text values_text

  Prints-value_fmt : (v : Value) → Prints true (value_fmt v) (value_text v)
  Prints-value_fmt (num n) = Prints-emit true (print_int n)
  Prints-value_fmt (string s) = Prints-emit true (b'"' ∷ (s ++ b'"' ∷ []))
  Prints-value_fmt (list nil) = Prints-skip
  Prints-value_fmt (list (cons v vs)) =
      Prints-then true _ _ _ _ (Prints-value_fmt v) (Prints-values_fmt vs)

  Prints-values_fmt : (vs : Values) → Prints true (values_fmt vs) (values_text vs)
  Prints-values_fmt nil = Prints-skip
  Prints-values_fmt (cons v vs) =
      Prints-then true _ _ (codes ", ") _ (Prints-emit true (codes ", "))
        (Prints-then true _ _ _ _ (Prints-value_fmt v) (Prints-values_fmt vs))

Prints-valtest_fmt : (t : ValTest) → Prints false (valtest_fmt t) (valtest_text t)
unfolding valtest_fmt valtest_text
Prints-valtest_fmt t =
    let name = valfield_name t.field in
    let op = valop_name t.op in
    let e : name ++ (b' ' ∷ (op ++ b' ' ∷ [])) ++ value_text t.val
        ≡ name ++ (b' ' ∷ (op ++ (b' ' ∷ value_text t.val))) =
      simp append_assoc in
    subst (Prints false (valtest_fmt t)) e (
      unfold valtest_fmt in
      Prints-then false _ _ _ _ (Prints-emit false (name ++ (b' ' ∷ (op ++ b' ' ∷ []))))
        (Prints-value_fmt t.val))

-- An expression between two texts.
around :
    (a b : Bytes) (p : Writer) (s : Bytes)
    → Prints false p s
    → Prints false (emit a ▸ (p ▸ emit b)) (a ++ (s ++ b))
around a b p s h =
    Prints-then false _ _ _ _ (Prints-emit false a)
      (Prints-then true _ _ _ _ (Prints-started p s h) (Prints-emit true b))

-- Two expressions with a text between them.
between :
    (a b c : Bytes) (p q : Writer) (s t : Bytes)
    → Prints false p s
    → Prints false q t
    → Prints false (emit a ▸ (p ▸ (emit b ▸ (q ▸ emit c)))) (a ++ (s ++ (b ++ (t ++ c))))
between a b c p q s t h k = Prints-then false _ _ _ _ (Prints-emit false a) (
    Prints-then true _ _ _ _ (Prints-started p s h)
      (Prints-started (emit b ▸ (q ▸ emit c)) _ (around b c q t k)))

pub Prints-expr_fmt : (e : Expr) → Prints false (expr_fmt e) (expr_text e)
unfolding expr_fmt expr_text
Prints-expr_fmt (op_self t) = Prints-valtest_fmt t
Prints-expr_fmt (op_not e) = around (codes "!( ") (codes " )") _ _ (Prints-expr_fmt e)
Prints-expr_fmt (op_and a b) =
    between (codes "( ") (codes " )&( ") (codes " )") _ _ _ _ (Prints-expr_fmt a)
      (Prints-expr_fmt b)
Prints-expr_fmt (op_or a b) =
    between (codes "( ") (codes " )|( ") (codes " )") _ _ _ _ (Prints-expr_fmt a)
      (Prints-expr_fmt b)

counted :
    (len u t : ℕ)
    → (u ≤ len → u ≡ t)
    → (len < u → len < t)
    → (t ≤ len → u ≡ t) × (len < t → len < u)
counted len u t f g = elim (Bool-cases (ltb len u)) [
  | inl e ↦ let lt = ltb→lt len u e in (λ x. absurd (omega (arith, x, g lt)), λ x. lt)
  | inr e ↦
      let le : u ≤ len = ground (arith, e) in (λ x. f le, λ x. absurd (omega (arith, x, f le, le)))
]

-- Into the first bytes of an array, at least one, expr_fmt prints what fits of the text of the
-- expression in front of a 0, and stores nothing outside of the array. Its answer is the length of the
-- text where that is at most the number of bytes, and more than that number where it is not.
pub expr_fmt-prefix :
    (e : Expr) (n k : ℕ) (m : Memory)
    → IsIntact n m
    → k < n
    → IsIntact n (expr_fmt e m 0 (suc k)).0
      × ((rest : Bytes) × ((expr_fmt e m 0 (suc k)).0.bytes ≡ take k (expr_text e) ++ 0 ∷ rest))
      × (length (expr_text e) ≤ suc k → (expr_fmt e m 0 (suc k)).1 ≡ length (expr_text e))
      × (suc k < length (expr_text e) → suc k < (expr_fmt e m 0 (suc k)).1)
expr_fmt-prefix e n k m h lt =
    let p = Prints-expr_fmt e [] n m (suc k) (IsIntact-Begins h) (omega arith) in
    let r = p.begins.rest in
    let (f, g) = counted (suc k) _ _ p.exact p.more in
    (
      Begins-IsIntact p.begins,
      (r, p.begins.bytes ∙ append_assoc (take k (expr_text e)) (0 ∷ []) r),
      f,
      g,
    )
