-- ===== src/Sql/Escape.antt =====
-- pgdb/dudldb.c: db_escape, and how PostgreSQL reads a quoted text.
use dudld.Common.{
  Bool, true, not, ◌&&◌, ◌||◌, ◌⊎◌, All, ℕ, ◌==◌, ==_ne, ==_iff, sym, subst, if◌then◌else◌, ◌≡◌,
  ◌≢◌, refl, arith, false, Bool-cases, inl, inr, Bytes, [], ◌∷◌, ◌++◌, Option, none, some,
}

-- The loop that copies; where there is nothing to escape it makes the copy that strdup makes.
unfoldable pub db_escape : Bytes → Bytes
db_escape [] = []
db_escape (c ∷ s) = let more = db_escape s in if c == b'\'' then c ∷ b'\'' ∷ more else c ∷ more

-- A quoted text behind its first quote: two quotes are a quote of the text, one ends it. The text and what
-- is behind it. Where standard_conforming_strings is off, as before PostgreSQL 9.1, a backslash in front
-- of a quote or a backslash stands for that; its other uses are left out.
unfoldable pub literal : Bool → Bytes → Option (Bytes × Bytes)
literal std [] = none
literal std (c ∷ []) = if c == b'\'' then some ([], []) else none
literal std (c ∷ e ∷ s) =
    let plain : Option (Bytes × Bytes) = elim (literal std (e ∷ s)) [
      | none ↦ none
      | some (t, r) ↦ some (c ∷ t, r)
    ] in
    let quoted : Option (Bytes × Bytes) = elim (literal std s) [
      | none ↦ none
      | some (t, r) ↦ some (e ∷ t, r)
    ] in
    if not std && c == b'\\'
    then (if e == b'\'' || e == b'\\' then quoted else none)
    else if c == b'\''
    then (if e == b'\'' then quoted else some ([], e ∷ s))
    else plain

-- The text behind a quoted text does not begin with a quote.
abbrev pub IsBehind : Bytes → Type 0
IsBehind [] = Unit
IsBehind (c ∷ s) = c ≢ b'\''

-- No byte of a text is a backslash that stands for something else.
abbrev IsPlain : Bool → ℕ → Type 0
IsPlain std c = (not std && c == b'\\') ≡ false

quote-IsPlain : (std : Bool) → IsPlain std b'\''
quote-IsPlain true = refl
quote-IsPlain false = refl

literal-end :
    (std : Bool) (rest : Bytes) → IsBehind rest → literal std (b'\'' ∷ rest) ≡ some ([], rest)
unfolding literal
literal-end std [] h = refl
literal-end std (c ∷ s) h = rw (quote-IsPlain std, ==_ne c b'\'' h) refl

literal-plain :
    (std : Bool) (c : ℕ) (s : Bytes) {t r : Bytes}
    → (c == b'\'') ≡ false
    → IsPlain std c
    → literal std s ≡ some (t, r)
    → literal std (c ∷ s) ≡ some (c ∷ t, r)
unfolding literal
literal-plain std c [] n k h = cc h
literal-plain std c (e ∷ s) n k h = ground (arith, n, k, h)

literal-quoted :
    (std : Bool) (s : Bytes) {t r : Bytes}
    → literal std s ≡ some (t, r)
    → literal std (b'\'' ∷ b'\'' ∷ s) ≡ some (b'\'' ∷ t, r)
unfolding literal
literal-quoted std s h = ground (arith, h, quote-IsPlain std)

reads_back :
    (std : Bool) (s rest : Bytes)
    → All (IsPlain std) s
    → IsBehind rest
    → literal std (db_escape s ++ b'\'' ∷ rest) ≡ some (s, rest)
unfolding db_escape
reads_back std [] rest k h = literal-end std rest h
reads_back std (c ∷ s) rest (p, k) h =
    let more = reads_back std s rest k h in
    elim (Bool-cases (c == b'\'')) [
      | inl e ↦ rw e (
          subst (λ x. literal std (x ∷ b'\'' ∷ (db_escape s ++ b'\'' ∷ rest)) ≡ some (x ∷ s, rest))
            (sym ((==_iff c b'\'').0 e)) (literal-quoted std _ more))
      | inr e ↦ rw e (literal-plain std c _ e p more)
    ]

All-IsPlain : (std : Bool) (s : Bytes) → (std ≡ true) ⊎ All (λ c. c ≢ b'\\') s → All (IsPlain std) s
All-IsPlain std [] h = tt
All-IsPlain std (c ∷ s) (inl e) = (rw e refl, All-IsPlain std s (inl e))
All-IsPlain std (c ∷ s) (inr (n, h)) = (no_slash std, All-IsPlain std s (inr h))
  where
    no_slash : (std : Bool) → IsPlain std c
    no_slash true = refl
    no_slash false = ==_ne c b'\\' n

-- With standard_conforming_strings on, or for a text without a backslash, PostgreSQL reads the text,
-- and nothing more, in what db_escape makes of it between two quotes, where what follows does not begin
-- with a quote.
pub literal-db_escape :
    (std : Bool) (s rest : Bytes)
    → (std ≡ true) ⊎ All (λ c. c ≢ b'\\') s
    → IsBehind rest
    → literal std (db_escape s ++ b'\'' ∷ rest) ≡ some (s, rest)
literal-db_escape std s rest h k = reads_back std s rest (All-IsPlain std s h) k

-- With standard_conforming_strings off, a text that begins with a backslash and a quote, and goes on
-- with another character than a quote, gets out of its quotes: PostgreSQL reads a quote as the whole
-- literal, and what db_escape makes of the rest of the text as SQL.
pub literal-leaves :
    (c : ℕ) (s rest : Bytes)
    → c ≢ b'\''
    → literal false (db_escape (b'\\' ∷ b'\'' ∷ c ∷ s) ++ b'\'' ∷ rest)
      ≡ some (b'\'' ∷ [], c ∷ (db_escape s ++ b'\'' ∷ rest))
unfolding literal db_escape
literal-leaves c s rest n = ground (arith, n)
