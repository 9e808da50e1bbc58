-- ===== src/ParseExpr/RoundTrip/Tests.antt =====
-- parse_valtest of commondb/parseexpr.c on printed tests.
use dudld.Common.{
  ℕ, ◌^◌, ◌<◌, Bool, true, false, ◌&&◌, Option, some, Bytes, [], ◌∷◌, ◌++◌, ◌==◌, leb, ◌≡◌, ◌≢◌,
  refl, ap, ◌∙◌, arith, inr, append_assoc, codes, All,
}
use dudld.Common.Char.{isspace, isalnum, tolower}
use dudld.ParseExpr.Syntax.{
  Message, Value, num, string, list, nil, cons, ValType, vt_list, type_of, ValOp, vo_none, vo_eq,
  vo_lt, vo_le, vo_gt, vo_ge, vo_in, vo_re, ValField, vf_none, vf_dur, vf_lplay, vf_tag, vf_artist,
  vf_title, vf_album, vf_year, vf_pos, ValTest,
}
use dudld.ParseExpr.Text.{value_text, values_text, valtest_text}
use dudld.ParseExpr.Tables.{valfield_name, valop_name, field_of, is_valid}
use dudld.ParseExpr.Lexer.{ParseStat, done, undo, parse_nonspace, parse_name}
use dudld.ParseExpr.Lexer.Steps.{At, Marked, ahead, next-At, ahead-At}
use dudld.ParseExpr.Lexer.Tokens.{Reads, IsSolid, IsNameChar, parse_name-word}
use dudld.ParseExpr.Lexer.Numbers.{Over, Sees, Over-Sees, Trims}
use dudld.ParseExpr.Parser.{
  parse_value, parse_vallist, parse_valop, compare_op, in_op, operand, check_test, parse_valtest,
}
use dudld.ParseExpr.RoundTrip.Values.{
  IsScalar, AreScalars, ReadsOver, parse_value-text, parse_vallist-text, EndsValue,
  EndsValue-EndsNum,
}

-- A value that is written as an operand: a number, a string, or a list that is not empty.
abbrev pub IsOperand : Value → Type 0
IsOperand (num n) = n < 2 ^ 31
IsOperand (string s) = IsScalar (string s)
IsOperand (list nil) = ⊥
IsOperand (list (cons v vs)) = IsScalar v × AreScalars vs

-- A test that the table allows, on an operand that reads back.
pub record IsPrintable (t : ValTest) : Type 0 where
  pub valid : is_valid t.field t.op (type_of t.val) ≡ true
  pub value : IsOperand t.val

names_ok : Bytes → Bool
unfolding isalnum tolower
names_ok [] = true
names_ok (c ∷ w) = (isalnum c && tolower c == c) && names_ok w

names_ok-All : (w : Bytes) → names_ok w ≡ true → All IsNameChar w
unfolding names_ok
names_ok-All [] h = tt
names_ok-All (c ∷ w) h = (ground arith, names_ok-All w (ground arith))

space_ends_name : isalnum 32 ≡ false
unfolding isalnum
space_ends_name = refl

read_name :
    (c : ℕ) (w : Bytes) (i : ParseStat) {r : Bytes}
    → names_ok (c ∷ w) ≡ true
    → At i (c ∷ (w ++ 32 ∷ r))
    → Reads (parse_name i) (c ∷ w) (32 ∷ r) i.msg
read_name c w i k h =
    parse_name-word c w i (names_ok-All (c ∷ w) k) h (omega arith, omega arith) space_ends_name

-- A field's name is read and found.
read_field :
    (f : ValField) (i : ParseStat) {r : Bytes}
    → f ≢ vf_none
    → At i (valfield_name f ++ 32 ∷ r)
    → Reads (parse_name i) (valfield_name f) (32 ∷ r) i.msg × (field_of (valfield_name f) ≡ some f)
unfolding valfield_name names_ok field_of
read_field vf_none i ne h = absurd (ne refl)
read_field vf_dur i ne h = (read_name _ (codes "uration") i refl h, refl)
read_field vf_lplay i ne h = (read_name _ (codes "astplay") i refl h, refl)
read_field vf_tag i ne h = (read_name _ (codes "ag") i refl h, refl)
read_field vf_artist i ne h = (read_name _ (codes "rtist") i refl h, refl)
read_field vf_title i ne h = (read_name _ (codes "itle") i refl h, refl)
read_field vf_album i ne h = (read_name _ (codes "lbum") i refl h, refl)
read_field vf_year i ne h = (read_name _ (codes "ear") i refl h, refl)
read_field vf_pos i ne h = (read_name _ (codes "os") i refl h, refl)

-- An operator of one character, and one of two.
module _ (i : ParseStat) {r : Bytes} (m : Option Message) where
  one_char :
      (c : ℕ) (o : ValOp)
      → Sees (parse_nonspace i) c (32 ∷ r) m
      → parse_valop i ≡ (o, done (parse_nonspace i).1)
      → Reads (parse_valop i) o (32 ∷ r) m
  one_char c o s e = rw e (record { value = refl; at = s.after; quiet = s.quiet })

  compare_op-space :
      (o o' : ValOp) (j : ParseStat)
      → At j (32 ∷ r)
      → Marked j (32 ∷ r)
      → j.msg ≡ m
      → Reads (compare_op o o' j) o' (32 ∷ r) m
  unfolding compare_op
  compare_op-space o o' j h k q =
      let e : compare_op o o' j ≡ (o', undo (ahead j)) =
        ground (arith, next-At j h (omega arith, omega arith)) in
      rw e (record { value = refl; at = k; quiet = q })

  compare_op-eq :
      (o o' : ValOp) (j : ParseStat)
      → At j (61 ∷ 32 ∷ r)
      → j.msg ≡ m
      → Reads (compare_op o o' j) o (32 ∷ r) m
  unfolding compare_op
  compare_op-eq o o' j h q =
      let e : compare_op o o' j ≡ (o, done (ahead j)) =
        ground (arith, next-At j h (omega arith, omega arith)) in
      rw e (record { value = refl; at = ahead-At j h; quiet = q })

  in_op-n : (j : ParseStat) → At j (78 ∷ 32 ∷ r) → j.msg ≡ m → Reads (in_op j) vo_in (32 ∷ r) m
  unfolding in_op
  in_op-n j h q =
      let e : in_op j ≡ (vo_in, done (ahead j)) =
        ground (arith, next-At j h (omega arith, omega arith)) in
      rw e (record { value = refl; at = ahead-At j h; quiet = q })

-- An operator's name is read back, behind one space.
read_op :
    (o : ValOp) (i : ParseStat) {r : Bytes}
    → o ≢ vo_none
    → At i (32 ∷ (valop_name o ++ 32 ∷ r))
    → Reads (parse_valop i) o (32 ∷ r) i.msg
unfolding valop_name isspace parse_valop
read_op vo_none i ne h = absurd (ne refl)
read_op vo_eq i ne h =
    let s = Over-Sees i (inr h) ((omega arith, omega arith), refl) in
    one_char i i.msg 61 vo_eq s (ground (arith, s.value))
read_op vo_re i ne h =
    let s = Over-Sees i (inr h) ((omega arith, omega arith), refl) in
    one_char i i.msg 126 vo_re s (ground (arith, s.value))
read_op vo_lt i ne h =
    let s = Over-Sees i (inr h) ((omega arith, omega arith), refl) in
    let e : parse_valop i ≡ compare_op vo_le vo_lt (done (parse_nonspace i).1) =
      ground (arith, s.value) in
    rw e (compare_op-space i i.msg vo_le vo_lt (done (parse_nonspace i).1) s.after s.after s.quiet)
read_op vo_gt i ne h =
    let s = Over-Sees i (inr h) ((omega arith, omega arith), refl) in
    let e : parse_valop i ≡ compare_op vo_ge vo_gt (done (parse_nonspace i).1) =
      ground (arith, s.value) in
    rw e (compare_op-space i i.msg vo_ge vo_gt (done (parse_nonspace i).1) s.after s.after s.quiet)
read_op vo_le i ne h =
    let s = Over-Sees i (inr h) ((omega arith, omega arith), refl) in
    let e : parse_valop i ≡ compare_op vo_le vo_lt (done (parse_nonspace i).1) =
      ground (arith, s.value) in
    rw e (compare_op-eq i i.msg vo_le vo_lt (done (parse_nonspace i).1) s.after s.quiet)
read_op vo_ge i ne h =
    let s = Over-Sees i (inr h) ((omega arith, omega arith), refl) in
    let e : parse_valop i ≡ compare_op vo_ge vo_gt (done (parse_nonspace i).1) =
      ground (arith, s.value) in
    rw e (compare_op-eq i i.msg vo_ge vo_gt (done (parse_nonspace i).1) s.after s.quiet)
read_op vo_in i ne h =
    let s = Over-Sees i (inr h) ((omega arith, omega arith), refl) in
    let e : parse_valop i ≡ in_op (parse_nonspace i).1 = ground (arith, s.value) in
    rw e (in_op-n i i.msg (parse_nonspace i).1 s.after s.quiet)

-- No field is compared with a list but by IN, and IN takes nothing else.
in_wants_list :
    (f : ValField) (v : Value) → is_valid f vo_in (type_of v) ≡ true → type_of v ≡ vt_list
unfolding is_valid type_of
in_wants_list vf_none (num n) h = cc
in_wants_list _ (num n) h = cc
in_wants_list vf_none (string s) h = cc
in_wants_list _ (string s) h = cc
in_wants_list f (list vs) h = refl

list_wants_in : (f : ValField) (o : ValOp) → is_valid f o vt_list ≡ true → o ≡ vo_in
unfolding is_valid
list_wants_in vf_none vo_none h = cc
list_wants_in _ vo_in h = refl
list_wants_in _ _ h = cc

no_field : (o : ValOp) (t : ValType) → is_valid vf_none o t ≢ true
unfolding is_valid
no_field o t h = cc

no_op : (f : ValField) (t : ValType) → is_valid f vo_none t ≢ true
unfolding is_valid
no_op vf_none t h = cc
no_op _ t h = cc

-- The operand of a test is read back.
record ReadsOperand (o : ValOp) (i : ParseStat) (v : Value) (rest : Bytes) : Type 0 where
  result : Option Value × ParseStat
  called : operand o i ≡ some result
  read : ReadsOver result (some v) rest i.msg

scalar_operand :
    (f : ValField) (o : ValOp) (v : Value) (i : ParseStat) {rest : Bytes}
    → is_valid f o (type_of v) ≡ true
    → type_of v ≢ vt_list
    → ReadsOver (parse_value i) (some v) rest i.msg
    → ReadsOperand o i v rest
unfolding operand
scalar_operand f vo_none v i h ne r = absurd (no_op f (type_of v) h)
scalar_operand f vo_in v i h ne r = absurd (ne (in_wants_list f v h))
scalar_operand f _ v i h ne r = record { result = parse_value i; called = refl; read = r }

read_operand :
    (f : ValField) (o : ValOp) (v : Value) (i : ParseStat) (tail rest : Bytes)
    → is_valid f o (type_of v) ≡ true
    → IsOperand v
    → At i (32 ∷ (value_text v ++ tail))
    → Trims tail rest
    → EndsValue rest
    → ReadsOperand o i v rest
unfolding type_of value_text
read_operand f o (num n) i tail rest k p h t e =
    scalar_operand f o (num n) i k (cc)
      (parse_value-text (num n) i tail rest p (inr h) t (EndsValue-EndsNum rest e))
read_operand f o (string s) i tail rest k p h t e =
    scalar_operand f o (string s) i k (cc)
      (parse_value-text (string s) i tail rest p (inr h) t (EndsValue-EndsNum rest e))
read_operand f o (list nil) i tail rest k p h t e = absurd p
read_operand f o (list (cons v vs)) i tail rest k p h t e =
    let h' : Over i (value_text v ++ (values_text vs ++ tail)) =
      inr (rw (append_assoc (value_text v) (values_text vs) tail) at h) in
    record {
      result = parse_vallist i;
      called = unfold operand in rw (list_wants_in f o k);
      read = parse_vallist-text v vs i tail rest p.0 p.1 h' t e;
    }

parse_valtest-parts :
    (i : ParseStat) (t : ValTest) (r : Option Value × ParseStat)
    → field_of (parse_name i).0 ≡ some t.field
    → (parse_valop (parse_name i).1).0 ≡ t.op
    → operand t.op (parse_valop (parse_name i).1).1 ≡ some r
    → r.0 ≡ some t.val
    → is_valid t.field t.op (type_of t.val) ≡ true
    → parse_valtest i ≡ (some t, r.1)
unfolding parse_valtest check_test
parse_valtest-parts i t r e f g h k = ground arith

-- A printed test is read back.
pub parse_valtest-text :
    (t : ValTest) (i : ParseStat) (tail rest : Bytes)
    → IsPrintable t
    → At i (valtest_text t ++ tail)
    → Trims tail rest
    → EndsValue rest
    → ReadsOver (parse_valtest i) (some t) rest i.msg
unfolding valtest_text
parse_valtest-text t i tail rest p h trim e =
    let h' : At i
        (valfield_name t.field ++ 32 ∷ (valop_name t.op ++ 32 ∷ (value_text t.val ++ tail))) =
      rw
        (
          append_assoc (valfield_name t.field) (32 ∷ (valop_name t.op ++ 32 ∷ value_text t.val))
              tail,
          append_assoc (valop_name t.op) (32 ∷ value_text t.val) tail,
        )
        at h in
    let (name, found) =
      read_field t.field i (λ x. no_field t.op (type_of t.val) (rw x at p.valid)) h' in
    let op =
      read_op t.op (parse_name i).1 (λ x. no_op t.field (type_of t.val) (rw x at p.valid))
        name.at in
    let arg =
      read_operand t.field t.op t.val (parse_valop (parse_name i).1).1 tail rest p.valid p.value
        op.at trim e in
    rw
      (parse_valtest-parts i t arg.result (rw name.value found) op.value arg.called arg.read.value
        p.valid)
      (record {
        value = refl;
        over = arg.read.over;
        quiet = arg.read.quiet ∙ op.quiet ∙ name.quiet;
      })

-- A byte that no bracket, quote or negation is.
abbrev pub IsLetter : ℕ → Type 0
IsLetter b = IsSolid b × (b ≢ 40) × (b ≢ 41) × (b ≢ 33)

letters_ok : Bytes → Bool
unfolding isspace
letters_ok [] = false
letters_ok (c ∷ w) = leb 97 c && leb c 122

letters_ok-IsLetter :
    (w : Bytes) → letters_ok w ≡ true → (b : ℕ) × (r : Bytes) × (w ≡ b ∷ r) × IsLetter b
unfolding letters_ok isspace
letters_ok-IsLetter [] h = cc
letters_ok-IsLetter (c ∷ w) h = (c, w, refl, ground arith)

name_letters : (f : ValField) → f ≢ vf_none → letters_ok (valfield_name f) ≡ true
unfolding valfield_name letters_ok
name_letters vf_none ne = absurd (ne refl)
name_letters _ ne = refl

-- The first byte of a printed test is a letter.
pub valtest_text-head :
    (t : ValTest) → IsPrintable t → (b : ℕ) × (r : Bytes) × (valtest_text t ≡ b ∷ r) × IsLetter b
unfolding valtest_text
valtest_text-head t p =
    let (b, r, e, l) =
      letters_ok-IsLetter (valfield_name t.field)
        (name_letters t.field (λ x. no_field t.op (type_of t.val) (rw x at p.valid))) in
    let more = 32 ∷ (valop_name t.op ++ (32 ∷ value_text t.val)) in
    (b, r ++ more, ap (λ w. w ++ more) e, l)
