-- ===== src/ParseExpr/RoundTrip/Values.antt =====
-- parse_value and parse_vallist of commondb/parseexpr.c on printed values.
use dudld.Common.{
  ℕ, zero, suc, ◌+◌, ◌/◌, ◌%◌, ◌^◌, ◌<◌, ◌≤◌, true, false, Option, some, Bytes, [], ◌∷◌, ◌++◌, ltb,
  ◌≡◌, ◌≢◌, refl, ap, ◌∙◌, arith, length, length-append, Bool-cases, inl, inr, append_assoc, All,
  ==_ne, lt→ltb,
}
use dudld.Common.Char.{isspace, isdigit, is_char}
use dudld.ParseExpr.Syntax.{Message, Value, Values, num, string, list, nil, cons}
use dudld.ParseExpr.Text.{digits, print_int, value_text, values_text}
use dudld.ParseExpr.Lexer.{ParseStat, undo, left, parse_nonspace, parse_num, parse_string}
use dudld.ParseExpr.Lexer.Steps.{left-At}
use dudld.ParseExpr.Lexer.Tokens.{IsSolid, IsStringChar, parse_string-word}
use dudld.ParseExpr.Lexer.Numbers.{
  Over, Over-Sees, Over-SeesEnd, EndsNum, Trims, Trims-Over, parse_num-digits,
}
use dudld.ParseExpr.Parser.{parse_value, vallist_from, parse_vallist}

-- A number or string that reads back: a number that is not negative, a string of characters that
-- are neither quoted nor changed to lower case.
abbrev pub IsScalar : Value → Type 0
IsScalar (num n) = n < 2 ^ 31
IsScalar (string s) = All IsStringChar s
IsScalar (list vs) = ⊥

abbrev pub AreScalars : Values → Type 0
AreScalars nil = Unit
AreScalars (cons v vs) = IsScalar v × AreScalars vs

-- Like `Reads`, with at most one space in front of what is left.
pub record ReadsOver {ℓ} {A : Type ℓ} (r : A × ParseStat) (a : A) (rest : Bytes)
    (m : Option Message) : Type ℓ where
  pub value : r.0 ≡ a
  pub over : Over r.1 rest
  pub quiet : r.1.msg ≡ m

digits-head :
    (d n : ℕ) → (b : ℕ) × (r : Bytes) × (digits d n ≡ b ∷ r) × IsSolid b × (isdigit b ≡ true)
unfolding digits isspace isdigit
digits-head zero n = (48 + n % 10, [], refl, ground arith, ground arith)
digits-head (suc d) n = elim (Bool-cases (ltb n 10)) [
  | inl small ↦ (48 + n, [], rw small, ground arith, ground arith)
  | inr large ↦
      let (b, r, e, s, t) = digits-head d (n / 10) in
      (b, r ++ (48 + n % 10) ∷ [], rw (large, e), s, t)
]

parse_value-num :
    (i : ParseStat) {b : ℕ}
    → (parse_nonspace i).0 ≡ some b
    → isdigit b ≡ true
    → parse_value i ≡ (
      some (num (parse_num (undo (parse_nonspace i).1)).0),
      (parse_num (undo (parse_nonspace i).1)).1,
    )
unfolding parse_value isdigit
parse_value-num i e d = ground arith

parse_value-string :
    (i : ParseStat) {s : Bytes}
    → (parse_nonspace i).0 ≡ some 34
    → (parse_string (undo (parse_nonspace i).1)).0 ≡ some s
    → parse_value i ≡ (some (string s), (parse_string (undo (parse_nonspace i).1)).1)
unfolding parse_value
parse_value-string i e d = ground arith

-- A printed number or string is read back.
pub parse_value-text :
    (v : Value) (i : ParseStat) (tail rest : Bytes)
    → IsScalar v
    → Over i (value_text v ++ tail)
    → Trims tail rest
    → EndsNum rest
    → ReadsOver (parse_value i) (some v) rest i.msg
unfolding value_text isspace
parse_value-text (list vs) i tail rest p h t e = absurd p
parse_value-text (string s) i tail rest p h t e =
    let h' : Over i (34 ∷ (s ++ 34 ∷ tail)) = rw append_assoc at h in
    let seen = Over-Sees i h' ((omega arith, omega arith), refl) in
    let w = parse_string-word s (undo (parse_nonspace i).1) p seen.back in
    rw (parse_value-string i seen.value w.value) (record {
      value = refl;
      over = Trims-Over (parse_string (undo (parse_nonspace i).1)).1 w.at t;
      quiet = w.quiet ∙ seen.quiet;
    })
parse_value-text (num n) i tail rest p h t e =
    let (b, r, f, s, d) = digits-head 9 n in
    let g : print_int n ≡ b ∷ r = unfold print_int in rw (lt→ltb n (2 ^ 31) p) f in
    let seen = Over-Sees i (rw g at h) s in
    let w = parse_num-digits n (undo (parse_nonspace i).1) tail rest p (rw g seen.back) t e in
    rw (parse_value-num i seen.value d) (record {
      value = ap (λ x. some (num x)) w.value;
      over = inl w.at;
      quiet = w.quiet ∙ seen.quiet;
    })

module _ (n : ℕ) (i : ParseStat) {x : Value} (read : (parse_value i).0 ≡ some x) where
  vallist_from-more :
      {xs : Values}
      → (parse_nonspace (parse_value i).1).0 ≡ some 44
      → (vallist_from n (parse_nonspace (parse_value i).1).1).0 ≡ some xs
      → vallist_from (suc n) i
        ≡ (some (cons x xs), (vallist_from n (parse_nonspace (parse_value i).1).1).1)
  unfolding vallist_from
  vallist_from-more e f = ground arith

  vallist_from-last :
      is_char 44 (parse_nonspace (parse_value i).1).0 ≡ false
      → vallist_from (suc n) i ≡ (some (cons x nil), undo (parse_nonspace (parse_value i).1).1)
  unfolding vallist_from
  vallist_from-last e = ground arith

-- What follows a value in a printed text is its end or a solid byte that no value goes on with.
abbrev pub EndsValue : Bytes → Type 0
EndsValue [] = Unit
EndsValue (b ∷ r) = IsSolid b × (isdigit b ≡ false) × (b ≢ 44)

pub EndsValue-EndsNum : (rest : Bytes) → EndsValue rest → EndsNum rest
EndsValue-EndsNum [] e = tt
EndsValue-EndsNum (b ∷ r) e = (e.0, e.1)

left-Over : (i : ParseStat) {l : Bytes} → Over i l → length l ≤ left i
left-Over i (inl h) = omega (arith, left-At i h)
left-Over i (inr h) = omega (arith, left-At i h)

end_of_list :
    (n : ℕ) (i : ParseStat) (x : Value) (rest : Bytes) {m : Option Message}
    → ReadsOver (parse_value i) (some x) rest m
    → EndsValue rest
    → ReadsOver (vallist_from (suc n) i) (some (cons x nil)) rest m
end_of_list n i x [] v e =
    let s = Over-SeesEnd (parse_value i).1 v.over in
    rw (vallist_from-last n i v.value (rw s.value))
      (record { value = refl; over = inl s.back; quiet = s.quiet ∙ v.quiet })
end_of_list n i x (b ∷ r) v e =
    let s = Over-Sees (parse_value i).1 v.over e.0 in
    rw (vallist_from-last n i v.value (rw s.value (==_ne b 44 e.2)))
      (record { value = refl; over = inl s.back; quiet = s.quiet ∙ v.quiet })

comma-IsSolid : IsSolid 44 × (isdigit 44 ≡ false)
unfolding isspace isdigit
comma-IsSolid = (((omega arith, omega arith), refl), refl)

length-value_text_pos : (v : Value) → IsScalar v → 0 < length (value_text v)
unfolding value_text print_int
length-value_text_pos (num n) p =
    let (b, r, f, s, d) = digits-head 9 n in rw (lt→ltb n (2 ^ 31) p) (rw f (omega arith))
length-value_text_pos (string s) p = omega arith
length-value_text_pos (list vs) p = absurd p

vallist_from-text :
    (v : Value) (vs : Values) (n : ℕ) (i : ParseStat) (tail rest : Bytes)
    → IsScalar v
    → AreScalars vs
    → Over i (value_text v ++ (values_text vs ++ tail))
    → Trims tail rest
    → EndsValue rest
    → left i ≤ n
    → ReadsOver (vallist_from n i) (some (cons v vs)) rest i.msg
unfolding value_text
vallist_from-text v nil zero i tail rest p ps h t e le =
    absurd
      (omega (arith, left-Over i h, length-append (value_text v) tail, length-value_text_pos v p))
vallist_from-text v (cons w ws) zero i tail rest p ps h t e le =
    absurd
      (omega (arith, left-Over i h, length-append (value_text v) (values_text (cons w ws) ++ tail)))
vallist_from-text v nil (suc n) i tail rest p ps h t e le =
    end_of_list n i v rest (parse_value-text v i tail rest p h t (EndsValue-EndsNum rest e)) e
vallist_from-text v (cons w ws) (suc n) i tail rest p ps h t e le =
    let more = value_text w ++ (values_text ws ++ tail) in
    let first =
      parse_value-text v i (44 ∷ 32 ∷ more) (44 ∷ 32 ∷ more) p (rw append_assoc at h) (inl refl)
        comma-IsSolid in
    let s = Over-Sees (parse_value i).1 first.over comma-IsSolid.0 in
    let k = (parse_nonspace (parse_value i).1).1 in
    let others = vallist_from-text w ws n k tail rest ps.0 ps.1 (inr s.after) t e (
      omega (
        arith,
        left-Over i h,
        left-At k s.after,
        length-append (value_text v) (values_text (cons w ws) ++ tail),
        ap length (append_assoc (value_text w) (values_text ws) tail),
      )) in
    rw (vallist_from-more n i first.value s.value others.value)
      (record { value = refl; over = others.over; quiet = others.quiet ∙ s.quiet ∙ first.quiet })

parse_vallist-list :
    (i : ParseStat) {xs : Values}
    → (vallist_from (left i) i).0 ≡ some xs
    → parse_vallist i ≡ (some (list xs), (vallist_from (left i) i).1)
unfolding parse_vallist
parse_vallist-list i e = ground arith

-- A printed list is read back.
pub parse_vallist-text :
    (v : Value) (vs : Values) (i : ParseStat) (tail rest : Bytes)
    → IsScalar v
    → AreScalars vs
    → Over i (value_text v ++ (values_text vs ++ tail))
    → Trims tail rest
    → EndsValue rest
    → ReadsOver (parse_vallist i) (some (list (cons v vs))) rest i.msg
parse_vallist-text v vs i tail rest p ps h t e =
    let w = vallist_from-text v vs (left i) i tail rest p ps h t e (omega arith) in
    rw (parse_vallist-list i w.value) (record { value = refl; over = w.over; quiet = w.quiet })
