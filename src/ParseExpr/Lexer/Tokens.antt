-- ===== src/ParseExpr/Lexer/Tokens.antt =====
-- What the token readers of commondb/parseexpr.c return where the bytes ahead are a token.
use dudld.Common.{
  ℕ, zero, suc, ◌≤◌, true, false, Option, none, some, Bytes, [], ◌∷◌, ◌++◌, ◌≡◌, ◌≢◌, refl, arith,
  append_assoc, append-nil, All,
}
use dudld.Common.Char.{isspace, isalnum, tolower}
use dudld.ParseExpr.Syntax.{Message}
use dudld.ParseExpr.Lexer.{
  ParseStat, done, undo, left, nonspace_from, parse_nonspace, alloc_from, parse_alloc, filter_name,
  parse_name, filter_string, parse_string,
}
use dudld.ParseExpr.Lexer.Steps.{At, Marked, IsText, ahead, next-At, ahead-At, next_eof, left-At}

-- A call returned `a`, left `rest` to read, and added no message.
pub record Reads {ℓ} {A : Type ℓ} (r : A × ParseStat) (a : A) (rest : Bytes) (m : Option Message)
    : Type ℓ where
  pub value : r.0 ≡ a
  pub at : At r.1 rest
  pub quiet : r.1.msg ≡ m

-- A text byte that is no white space.
abbrev pub IsSolid : ℕ → Type 0
IsSolid b = IsText b × (isspace b ≡ false)

nonspace_from-solid :
    (n : ℕ) (i : ParseStat) {b : ℕ} {r : Bytes}
    → At i (b ∷ r)
    → IsSolid b
    → nonspace_from n i ≡ (some b, ahead (done i))
unfolding nonspace_from isspace
nonspace_from-solid zero i h t = next-At (done i) h t.0
nonspace_from-solid (suc n) i h t = rw (next-At (done i) h t.0) (rw t.1)

pub parse_nonspace-solid :
    (i : ParseStat) {b : ℕ} {r : Bytes}
    → At i (b ∷ r)
    → IsSolid b
    → parse_nonspace i ≡ (some b, ahead (done i))
unfolding parse_nonspace
parse_nonspace-solid i h t = nonspace_from-solid (left i) i h t

nonspace_from-space :
    (n : ℕ) (i : ParseStat) {b : ℕ} {r : Bytes}
    → At i (32 ∷ b ∷ r)
    → IsSolid b
    → left i ≤ n
    → nonspace_from n i ≡ (some b, ahead (done (ahead (done i))))
unfolding nonspace_from isspace
nonspace_from-space zero i h t le = absurd (omega (arith, left-At i h))
nonspace_from-space (suc n) i h t le =
    rw (next-At (done i) h (omega arith))
      (nonspace_from-solid n (ahead (done i)) (ahead-At (done i) h) t)

pub parse_nonspace-space :
    (i : ParseStat) {b : ℕ} {r : Bytes}
    → At i (32 ∷ b ∷ r)
    → IsSolid b
    → parse_nonspace i ≡ (some b, ahead (done (ahead (done i))))
unfolding parse_nonspace
parse_nonspace-space i h t = nonspace_from-space (left i) i h t (omega arith)

pub parse_nonspace_eof : (i : ParseStat) → At i [] → parse_nonspace i ≡ (none, done i)
unfolding parse_nonspace nonspace_from
parse_nonspace_eof i h = elim (left i) as (λ n. nonspace_from n i ≡ (none, done i)) [
  | zero ↦ next_eof (done i) h
  | suc n ↦ rw (next_eof (done i) h)
]

-- A character of a name that the reader keeps as it is.
abbrev pub IsNameChar : ℕ → Type 0
IsNameChar b = IsText b × (isalnum b ≡ true) × (tolower b ≡ b)

filter_name-keep :
    (i : ParseStat) {b : ℕ} {r : Bytes}
    → At i (b ∷ r)
    → IsText b
    → isalnum b ≡ true
    → filter_name i ≡ (some b, done (ahead i))
unfolding filter_name
filter_name-keep i h t k = ground (arith, next-At i h t)

filter_name-stop :
    (i : ParseStat) {b : ℕ} {r : Bytes}
    → At i (b ∷ r)
    → IsText b
    → isalnum b ≡ false
    → filter_name i ≡ (none, undo (ahead i))
unfolding filter_name
filter_name-stop i h t k = ground (arith, next-At i h t)

-- One round of the loop of _parse_alloc.
module _ (filter : ParseStat → Option ℕ × ParseStat) (n : ℕ) (s : Bytes) (i j : ParseStat) where
  alloc_from-some :
      {b : ℕ}
      → filter i ≡ (some b, j)
      → alloc_from filter (suc n) s i ≡ alloc_from filter n (s ++ tolower b ∷ []) j
  unfolding alloc_from
  alloc_from-some e = ground (arith, e)

  alloc_from-none : filter i ≡ (none, j) → alloc_from filter (suc n) s i ≡ (s, j)
  unfolding alloc_from
  alloc_from-none e = ground (arith, e)

-- A filter that keeps the bytes of `Keeps` and stops at those of `Stops` reads a word, and leaves the
-- byte behind it to be read.
module _ {Keeps Stops : ℕ → Type 0} (filter : ParseStat → Option ℕ × ParseStat)
    (keep : (i : ParseStat) (b : ℕ) (r : Bytes)
      → At i (b ∷ r)
      → Keeps b
      → filter i ≡ (some b, done (ahead i)))
    (stop : (i : ParseStat) (b : ℕ) (r : Bytes)
      → At i (b ∷ r)
      → Stops b
      → filter i ≡ (none, undo (ahead i)))
    (same : (b : ℕ) → Keeps b → tolower b ≡ b) where
  alloc_from-word :
      (w : Bytes) (n : ℕ) (s : Bytes) (i : ParseStat) {b : ℕ} {r : Bytes}
      → All Keeps w
      → At i (w ++ b ∷ r)
      → Marked i (w ++ b ∷ r)
      → Stops b
      → left i ≤ n
      → Reads (alloc_from filter n s i) (s ++ w) (b ∷ r) i.msg
  alloc_from-word [] zero s i a h m t le = absurd (omega (arith, left-At i h))
  alloc_from-word (c ∷ w) zero s i a h m t le = absurd (omega (arith, left-At i h))
  alloc_from-word [] (suc n) s i a h m t le =
      rw (alloc_from-none _ n s i _ (stop i _ _ h t))
        (record { value = rw append-nil; at = m; quiet = refl })
  alloc_from-word (c ∷ w) (suc n) s i a h m t le =
      let later =
        alloc_from-word w n (s ++ c ∷ []) (done (ahead i)) a.1 (ahead-At i h) (ahead-At i h) t
          (omega (arith, left-At i h, left-At (ahead i) (ahead-At i h))) in
      rw (alloc_from-some _ n s i _ (keep i _ _ h a.0)) (rw (same c a.0) (rw append_assoc at later))

  parse_alloc-word :
      (w : Bytes) (i : ParseStat) {b : ℕ} {r : Bytes}
      → All Keeps w
      → At i (w ++ b ∷ r)
      → Marked i (w ++ b ∷ r)
      → Stops b
      → Reads (parse_alloc filter i) w (b ∷ r) i.msg
  unfolding parse_alloc
  parse_alloc-word w i a h m t = alloc_from-word w (left i) [] i a h m t (omega arith)

abbrev EndsName : ℕ → Type 0
EndsName b = IsText b × (isalnum b ≡ false)

isalnum-IsSolid : (b : ℕ) → IsNameChar b → IsSolid b
unfolding isalnum isspace
isalnum-IsSolid b h = (h.0, ground arith)

-- parse_name reads a name that nothing stands in front of.
pub parse_name-word :
    (c : ℕ) (w : Bytes) (i : ParseStat) {b : ℕ} {r : Bytes}
    → All IsNameChar (c ∷ w)
    → At i (c ∷ (w ++ b ∷ r))
    → IsText b
    → isalnum b ≡ false
    → Reads (parse_name i) (c ∷ w) (b ∷ r) i.msg
unfolding parse_name
parse_name-word c w i a h t e = rw (parse_nonspace-solid i h (isalnum-IsSolid c a.0)) (
    parse_alloc-word {Keeps = IsNameChar} {Stops = EndsName} filter_name
      (λ j b r k q. filter_name-keep j k q.0 q.1) (λ j b r k q. filter_name-stop j k q.0 q.1)
      (λ b q. q.2) (c ∷ w) (undo (ahead (done i))) a h h (t, e))

-- A character of a string that is printed as it is and that the reader keeps.
abbrev pub IsStringChar : ℕ → Type 0
IsStringChar b = IsText b × (b ≢ 34) × (b ≢ 92) × (tolower b ≡ b)

filter_string-keep :
    (i : ParseStat) {b : ℕ} {r : Bytes}
    → At i (b ∷ r)
    → IsStringChar b
    → filter_string i ≡ (some b, done (ahead i))
unfolding filter_string
filter_string-keep i h t = ground (arith, next-At i h t.0)

filter_string-stop :
    (i : ParseStat) (b : ℕ) {r : Bytes}
    → At i (b ∷ r)
    → b ≡ 34
    → filter_string i ≡ (none, undo (ahead i))
unfolding filter_string
filter_string-stop i b h e = ground (arith, next-At i h)

-- parse_string reads a string whose opening quote is next.
parse_string-quotes :
    (i j : ParseStat) {r : Bytes} (s : Bytes) (m : Option Message)
    → parse_nonspace i ≡ (some 34, j)
    → Reads (parse_alloc filter_string (done j)) s (34 ∷ r) m
    → parse_string i ≡ (some s, ahead (parse_alloc filter_string (done j)).1)
unfolding parse_string
parse_string-quotes i j s m e w =
    ground (arith, next-At (parse_alloc filter_string (done j)).1 w.at)

pub parse_string-word :
    (s : Bytes) (i : ParseStat) {r : Bytes}
    → All IsStringChar s
    → At i (34 ∷ (s ++ 34 ∷ r))
    → Reads (parse_string i) (some s) r i.msg
unfolding isspace
parse_string-word s i {r} a h =
    let inside =
      parse_alloc-word {Keeps = IsStringChar} {Stops = λ b. b ≡ 34} filter_string
        (λ j b r k q. filter_string-keep j k q) (λ j b r k q. filter_string-stop j b k q)
        (λ b q. q.3) s (done (ahead (done i))) a (ahead-At (done i) h) (ahead-At (done i) h) refl in
    rw
      (parse_string-quotes i (ahead (done i)) s i.msg
        (parse_nonspace-solid i h ((omega arith, omega arith), refl)) inside)
      (record {
        value = refl;
        at = ahead-At (parse_alloc filter_string (done (ahead (done i)))).1 inside.at;
        quiet = inside.quiet;
      })
