-- ===== src/Format/Digits.antt =====
-- The decimal digits of a number.
use dudld.Common.{
  ℕ, zero, suc, ◌^◌, ◌≤◌, ◌<◌, arith, ltb, inl, inr, Bool-cases, [], ◌∷◌, length, length-append,
  All, All-append,
}
use dudld.ParseExpr.Text.{digits, print_int}

-- The bytes of a printed number and of an address: digits, '-' and '.'.
abbrev pub IsPlain : ℕ → Type 0
IsPlain c = (b'-' ≤ c) × (c ≤ b'9')

pub digits-IsPlain : (d n : ℕ) → All IsPlain (digits d n)
unfolding digits
digits-IsPlain zero n = (ground arith, tt)
digits-IsPlain (suc d) n = elim (Bool-cases (ltb n 10)) [
  | inl e ↦ rw e (ground arith, tt)
  | inr e ↦ rw e (All-append IsPlain (digits d _) _ (digits-IsPlain d _) (ground arith, tt))
]

pub print_int-IsPlain : (n : ℕ) → All IsPlain (print_int n)
unfolding print_int
print_int-IsPlain n = elim (Bool-cases (ltb n (2 ^ 31))) [
  | inl e ↦ rw e (digits-IsPlain 9 n)
  | inr e ↦ rw e ((omega arith, omega arith), digits-IsPlain 9 _)
]

length-digits_pos : (d n : ℕ) → 0 < length (digits d n)
unfolding digits
length-digits_pos zero n = omega arith
length-digits_pos (suc d) n = elim (Bool-cases (ltb n 10)) [
  | inl e ↦ rw e (omega arith)
  | inr e ↦ rw e (omega (arith, length-append (digits d _) (_ ∷ [])))
]

pub length-print_int_pos : (n : ℕ) → 0 < length (print_int n)
unfolding print_int
length-print_int_pos n = elim (Bool-cases (ltb n (2 ^ 31))) [
  | inl e ↦ rw e (length-digits_pos 9 n)
  | inr e ↦ rw e (omega arith)
]
