-- ===== src/ParseExpr/Lexer/Numbers.antt =====
-- parse_num of commondb/parseexpr.c on the digits that the printer writes, and what parse_nonspace
-- returns with at most one space in front.
use dudld.Common.{
  ℕ, zero, suc, ◌+◌, ◌*◌, ◌/◌, ◌%◌, ◌^◌, ◌<◌, ◌≤◌, true, false, Option, none, some, Bytes, [], ◌∷◌,
  ◌++◌, ltb, ◌≡◌, ◌⊎◌, refl, ap, ◌∙◌, arith, Bool-cases, inl, inr, append_assoc, ltb→lt, lt→ltb,
}
use dudld.Common.Char.{isspace, isdigit, holds}
use dudld.ParseExpr.Syntax.{Message}
use dudld.ParseExpr.Text.{digits, print_int}
use dudld.ParseExpr.Lexer.{
  ParseStat, done, undo, left, nonspace_from, parse_nonspace, num_from, parse_num, add_digit,
}
use dudld.ParseExpr.Lexer.Steps.{At, ahead, next-At, ahead-At, next_eof, left-At}
use dudld.ParseExpr.Lexer.Tokens.{
  Reads, IsSolid, parse_nonspace-solid, parse_nonspace-space, parse_nonspace_eof,
}

-- `rest` is next, behind at most one space.
abbrev pub Over : ParseStat → Bytes → Type 0
Over i rest = At i rest ⊎ At i (32 ∷ rest)

-- What parse_nonspace returns where `b` is the next solid byte, and where the text is at its end.
pub record Sees (p : Option ℕ × ParseStat) (b : ℕ) (r : Bytes) (m : Option Message) : Type 0 where
  pub value : p.0 ≡ some b
  pub after : At p.1 r
  pub back : At (undo p.1) (b ∷ r)
  pub quiet : p.1.msg ≡ m

pub record SeesEnd (p : Option ℕ × ParseStat) (m : Option Message) : Type 0 where
  pub value : p.0 ≡ none
  pub after : At p.1 []
  pub back : At (undo p.1) []
  pub quiet : p.1.msg ≡ m

pub Over-Sees :
    (i : ParseStat) {b : ℕ} {r : Bytes}
    → Over i (b ∷ r)
    → IsSolid b
    → Sees (parse_nonspace i) b r i.msg
Over-Sees i (inl h) t =
    rw (parse_nonspace-solid i h t)
      (record { value = refl; after = ahead-At i h; back = h; quiet = refl })
Over-Sees i (inr h) t = rw (parse_nonspace-space i h t) (record {
  value = refl;
  after = ahead-At (ahead i) (ahead-At i h);
  back = ahead-At i h;
  quiet = refl;
})

nonspace_from-last :
    (n : ℕ) (i : ParseStat)
    → At i (32 ∷ [])
    → left i ≡ suc n
    → nonspace_from (suc n) i ≡ nonspace_from n (ahead (done i))
unfolding nonspace_from isspace
nonspace_from-last n i h e = ground (arith, next-At (done i) h)

nonspace_from_eof : (n : ℕ) (i : ParseStat) → At i [] → nonspace_from n i ≡ (none, done i)
unfolding nonspace_from
nonspace_from_eof zero i h = next_eof (done i) h
nonspace_from_eof (suc n) i h = ground (arith, next_eof (done i) h)

pub Over-SeesEnd : (i : ParseStat) → Over i [] → SeesEnd (parse_nonspace i) i.msg
Over-SeesEnd i (inl h) =
    rw (parse_nonspace_eof i h) (record { value = refl; after = h; back = h; quiet = refl })
Over-SeesEnd i (inr h) =
    let e : left i ≡ 1 = left-At i h in
    let at_end : parse_nonspace i ≡ (none, done (ahead (done i))) =
      unfold parse_nonspace in
      rw e (nonspace_from-last 0 i h e ∙ nonspace_from_eof 0 (ahead (done i)) (ahead-At i h)) in
    rw at_end (record { value = refl; after = ahead-At i h; back = ahead-At i h; quiet = refl })

num_from-stop :
    (k n : ℕ) (i : ParseStat)
    → holds isdigit (parse_nonspace i).0 ≡ false
    → num_from k n i ≡ (n, undo (parse_nonspace i).1)
unfolding num_from
num_from-stop zero n i h = refl
num_from-stop (suc k) n i h = ground arith

num_from-digit :
    (k n : ℕ) (i : ParseStat) {b : ℕ} {r : Bytes}
    → At i (b ∷ r)
    → IsSolid b
    → isdigit b ≡ true
    → num_from (suc k) n i ≡ num_from k (add_digit n b) (done (ahead (done i)))
unfolding num_from
num_from-digit k n i h t d = ground (arith, parse_nonspace-solid i h t)

-- `n` has been read: what is left to do from `i` is what is left to do from `j`.
record Scanned (k n : ℕ) (i : ParseStat) (tail : Bytes) : Type 0 where
  rounds : ℕ
  j : ParseStat
  step : num_from k 0 i ≡ num_from rounds n j
  at : At j tail
  enough : left j ≤ rounds
  quiet : j.msg ≡ i.msg

abbrev bound : ℕ → ℕ
bound zero = 10
bound (suc d) = 10 * bound d

digit-IsSolid : (c : ℕ) → c < 10 → IsSolid (48 + c) × (isdigit (48 + c) ≡ true)
unfolding isspace isdigit
digit-IsSolid c h = (((omega arith, omega arith), ground arith), ground arith)

-- One more digit.
scan_digit :
    (k m n c : ℕ) (i : ParseStat) {tail : Bytes}
    → c < 10
    → n ≡ m * 10 + c
    → n < 2 ^ 32
    → Scanned k m i ((48 + c) ∷ tail)
    → Scanned k n i tail
scan_digit k m n c i {tail} hc e hn s = go s.rounds s.step s.enough
  where
    open s use {j}

    go : (rounds : ℕ) → num_from k 0 i ≡ num_from rounds m j → left j ≤ rounds → Scanned k n i tail
    go zero step enough = absurd (omega (arith, left-At j s.at))
    go (suc r) step enough = record {
      rounds = r;
      j = done (ahead (done j));
      step =
          step
          ∙ num_from-digit r m j s.at (digit-IsSolid c hc).0 (digit-IsSolid c hc).1
          ∙ ap (λ x. num_from r x (done (ahead (done j)))) (omega arith);
      at = ahead-At j s.at;
      enough = omega (arith, left-At j s.at, left-At (ahead j) (ahead-At j s.at));
      quiet = s.quiet;
    }

begin : (k : ℕ) (i : ParseStat) {tail : Bytes} → At i tail → left i ≤ k → Scanned k 0 i tail
begin k i h le = record { rounds = k; j = i; step = refl; at = h; enough = le; quiet = refl }

scan :
    (d n k : ℕ) (i : ParseStat) (tail : Bytes)
    → n < bound d
    → n < 2 ^ 32
    → At i (digits d n ++ tail)
    → left i ≤ k
    → Scanned k n i tail
unfolding digits
scan zero n k i tail b w h le =
    scan_digit k 0 n (n % 10) i (omega arith) (omega arith) w (begin k i h le)
scan (suc d) n k i tail b w h le = elim (Bool-cases (ltb n 10)) [
  | inl small ↦
      scan_digit k 0 n n i (ltb→lt n 10 small) (omega arith) w (begin k i (rw small at h) le)
  | inr large ↦
      let h' : At i ((digits d (n / 10) ++ (48 + n % 10) ∷ []) ++ tail) = rw large at h in
      scan_digit k (n / 10) n (n % 10) i (omega arith) (omega arith) w (
        scan d (n / 10) k i ((48 + n % 10) ∷ tail) (omega arith) (omega arith)
          (rw append_assoc at h') le)
]

-- What follows a number in a printed text does not begin with a digit.
abbrev pub EndsNum : Bytes → Type 0
EndsNum [] = Unit
EndsNum (b ∷ r) = IsSolid b × (isdigit b ≡ false)

number_end :
    (k n : ℕ) (i : ParseStat) (rest : Bytes)
    → Over i rest
    → EndsNum rest
    → Reads (num_from k n i) n rest i.msg
number_end k n i [] h e =
    let s = Over-SeesEnd i h in
    rw (num_from-stop k n i (rw s.value)) (record { value = refl; at = s.back; quiet = s.quiet })
number_end k n i (b ∷ r) h e =
    let s = Over-Sees i h e.0 in
    rw (num_from-stop k n i (rw s.value e.1))
      (record { value = refl; at = s.back; quiet = s.quiet })

-- At most one space stands in front of `rest`.
abbrev pub Trims : Bytes → Bytes → Type 0
Trims tail rest = (tail ≡ rest) ⊎ (tail ≡ 32 ∷ rest)

pub Trims-Over : (i : ParseStat) {tail rest : Bytes} → At i tail → Trims tail rest → Over i rest
Trims-Over i h (inl e) = inl (h ∙ e)
Trims-Over i h (inr e) = inr (h ∙ e)

Scanned-Reads :
    {k n : ℕ} {i : ParseStat} {tail : Bytes} (rest : Bytes)
    → Scanned k n i tail
    → Trims tail rest
    → EndsNum rest
    → Reads (num_from k 0 i) n rest i.msg
Scanned-Reads {n = n} rest s follow ends =
    let e = number_end s.rounds n s.j rest (Trims-Over s.j s.at follow) ends in
    rw s.step (record { value = e.value; at = e.at; quiet = e.quiet ∙ s.quiet })

-- parse_num reads back a printed number.
pub parse_num-digits :
    (n : ℕ) (i : ParseStat) (tail rest : Bytes)
    → n < 2 ^ 31
    → At i (print_int n ++ tail)
    → Trims tail rest
    → EndsNum rest
    → Reads (parse_num i) n rest i.msg
unfolding parse_num print_int
parse_num-digits n i tail rest w h = Scanned-Reads rest (
    scan 9 n (left i) i tail (omega arith) (omega arith) (rw (lt→ltb n (2 ^ 31) w) at h)
      (omega arith))
