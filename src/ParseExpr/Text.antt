-- ===== src/ParseExpr/Text.antt =====
-- What the printer of commondb/parseexpr.c writes where the buffer is large enough: the text of a
-- value, a test and an expression.
use dudld.Common.{
  ℕ, zero, suc, ◌+◌, ◌-◌, ◌/◌, ◌%◌, ◌^◌, Bytes, [], ◌∷◌, ◌++◌, codes, ltb, if◌then◌else◌,
}
use dudld.ParseExpr.Syntax.{
  Value, Values, num, string, list, nil, cons, ValTest, Expr, op_self, op_not, op_and, op_or,
}
use dudld.ParseExpr.Tables.{valfield_name, valop_name}

-- The decimal digits of a number with at most `k` + 1 of them.
unfoldable pub digits : ℕ → ℕ → Bytes
digits zero n = (b'0' + n % 10) ∷ []
digits (suc k) n =
    let more = digits k (n / 10) ++ (b'0' + n % 10) ∷ [] in
    if ltb n 10 then (b'0' + n) ∷ [] else more

-- "%d" of an `int`, held as its 32-bit pattern.
unfoldable pub print_int : ℕ → Bytes
print_int n = if ltb n (2 ^ 31) then digits 9 n else b'-' ∷ digits 9 (2 ^ 32 - n)

unfoldable mutual
  pub value_text : Value → Bytes
  value_text (num n) = print_int n
  value_text (string s) = b'"' ∷ (s ++ b'"' ∷ [])
  value_text (list nil) = []
  value_text (list (cons v vs)) = value_text v ++ values_text vs

  pub values_text : Values → Bytes
  values_text nil = []
  values_text (cons v vs) = b',' ∷ b' ' ∷ (value_text v ++ values_text vs)

unfoldable pub valtest_text : ValTest → Bytes
valtest_text t = valfield_name t.field ++ (b' ' ∷ (valop_name t.op ++ (b' ' ∷ value_text t.val)))

unfoldable pub expr_text : Expr → Bytes
expr_text (op_self t) = valtest_text t
expr_text (op_not e) = codes "!( " ++ (expr_text e ++ codes " )")
expr_text (op_and a b) =
    codes "( " ++ (expr_text a ++ (codes " )&( " ++ (expr_text b ++ codes " )")))
expr_text (op_or a b) =
    codes "( " ++ (expr_text a ++ (codes " )|( " ++ (expr_text b ++ codes " )")))
