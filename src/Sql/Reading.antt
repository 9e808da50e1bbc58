-- ===== src/Sql/Reading.antt =====
-- How PostgreSQL reads the text of a query, with standard_conforming_strings: the texts between quotes, and
-- what is outside of them.
use dudld.Common.{
  ℕ, zero, suc, ◌≡◌, ◌≤◌, ◌<◌, ◌+◌, ◌%◌, ◌^◌, ltb, refl, sym, ◌∙◌, arith, ◌==◌, ==_iff, subst, Bool,
  ◌||◌, Bool-cases, inl, inr, Bytes, [], ◌∷◌, ◌++◌, Option, none, some, if◌then◌else◌, take,
}
use dudld.ParseExpr.Text.{print_int, digits}
use dudld.Sql.Escape.{db_escape}

-- Where the reading stands: outside of quotes, there behind a '-', or inside of quotes. A quote that is
-- doubled inside of quotes leaves them and enters them again.
pub data Place : Type 0 where
  outside dash inside : Place

-- What begins another statement or may begin a comment, an escape or a quoted text of another kind.
abbrev pub is_special : ℕ → Bool
is_special c = c == b';' || c == b'\\' || c == b'$' || c == b'/' || c == b'"'

-- The place behind a byte. Outside of quotes neither a special byte nor "--" is allowed.
unfoldable pub read_byte : Place → ℕ → Option Place
read_byte inside c = some (if c == b'\'' then outside else inside)
read_byte outside c =
    if c == b'\''
    then some inside
    else if is_special c
    then none
    else some (if c == b'-' then dash else outside)
read_byte dash c =
    if c == b'\'' then some inside else if is_special c || c == b'-' then none else some outside

unfoldable pub read_text : Place → Bytes → Option Place
read_text p [] = some p
read_text p (c ∷ s) = elim (read_byte p c) [ none ↦ none | some q ↦ read_text q s ]

-- A text that is read as one statement, with all quotes closed.
abbrev pub IsStatement : Bytes → Type 0
IsStatement s = read_text outside s ≡ some outside

append_step :
    (o : Option Place) (q : Place) (a b : Bytes)
    → ((r : Place) → read_text r a ≡ some q → read_text r (a ++ b) ≡ read_text q b)
    → elim o [ none ↦ none | some r ↦ read_text r a ] ≡ some q
    → elim o [ none ↦ none | some r ↦ read_text r (a ++ b) ] ≡ read_text q b
append_step none q a b f h = absurd (cc h)
append_step (some r) q a b f h = f r h

pub read_text-append :
    (p q : Place) (a b : Bytes) → read_text p a ≡ some q → read_text p (a ++ b) ≡ read_text q b
unfolding read_text
read_text-append p q [] b h = ground (arith, h)
read_text-append p q (c ∷ a) b h =
    append_step (read_byte p c) q a b (λ r. read_text-append r q a b) h

-- An escaped text does not leave the quotes that it stands in.
pub read_text-db_escape : (s : Bytes) → read_text inside (db_escape s) ≡ some inside
unfolding read_text read_byte db_escape
read_text-db_escape [] = refl
read_text-db_escape (c ∷ s) = elim (Bool-cases (c == b'\'')) [
  | inl e ↦ rw e (
      subst (λ x. read_text inside (x ∷ b'\'' ∷ db_escape s) ≡ some inside)
        (sym ((==_iff c b'\'').0 e)) (read_text-db_escape s))
  | inr e ↦ rw e (rw e (read_text-db_escape s))
]

-- A digit at a place that is not inside of quotes, and one that is.
read_digit : (d : ℕ) → d < 10 → read_text outside ((b'0' + d) ∷ []) ≡ some outside
unfolding read_text read_byte
read_digit d h = ground arith

dash_digit : (d : ℕ) → d < 10 → read_text dash ((b'0' + d) ∷ []) ≡ some outside
unfolding read_text read_byte
dash_digit d h = ground arith

inside_byte : (c : ℕ) → b'-' ≤ c → read_text inside (c ∷ []) ≡ some inside
unfolding read_text read_byte
inside_byte c h = ground arith

-- A digit at a place leads to `q`, and behind digits too.
read_digits :
    (p q : Place)
    → ((d : ℕ) → d < 10 → read_text p ((b'0' + d) ∷ []) ≡ some q)
    → ((d : ℕ) → d < 10 → read_text q ((b'0' + d) ∷ []) ≡ some q)
    → (k n : ℕ) → read_text p (digits k n) ≡ some q
unfolding digits
read_digits p q h g zero n = h (n % 10) (omega arith)
read_digits p q h g (suc k) n = elim (Bool-cases (ltb n 10)) [
  | inl e ↦ rw e (h n (ground arith))
  | inr e ↦
      rw e
        (read_text-append p q (digits k _) _ (read_digits p q h g k _) ∙ g (n % 10) (omega arith))
]

-- A printed number leaves the place as it is, where that is not behind a '-'.
pub outside-print_int : (n : ℕ) → read_text outside (print_int n) ≡ some outside
unfolding print_int
outside-print_int n = elim (Bool-cases (ltb n (2 ^ 31))) [
  | inl e ↦ rw e (read_digits outside outside read_digit read_digit 9 n)
  | inr e ↦ rw e (unfold read_text read_byte in read_digits dash outside dash_digit read_digit 9 _)
]

inside_digit : (d : ℕ) → d < 10 → read_text inside ((b'0' + d) ∷ []) ≡ some inside
inside_digit d h = inside_byte _ (omega arith)

pub inside-print_int : (n : ℕ) → read_text inside (print_int n) ≡ some inside
unfolding print_int
inside-print_int n = elim (Bool-cases (ltb n (2 ^ 31))) [
  | inl e ↦ rw e (read_digits inside inside inside_digit inside_digit 9 n)
  | inr e ↦
      rw e (unfold read_text read_byte in read_digits inside inside inside_digit inside_digit 9 _)
]

pub read_both :
    (p q : Place) (a b : Bytes) {r : Place}
    → read_text p a ≡ some q
    → read_text q b ≡ some r
    → read_text p (a ++ b) ≡ some r
read_both p q a b h g = read_text-append p q a b h ∙ g

-- What can be read up to some place: a statement, or the front of one.
abbrev pub Reads : Place → Bytes → Type 0
Reads p s = (q : Place) × (read_text p s ≡ some q)

take_step :
    (o : Option Place) (n : ℕ) (s : Bytes) {q : Place}
    → ((r : Place) → read_text r s ≡ some q → Reads r (take n s))
    → elim o [ none ↦ none | some r ↦ read_text r s ] ≡ some q
    → (t : Place) × (elim o [ none ↦ none | some r ↦ read_text r (take n s) ] ≡ some t)
take_step none n s f h = absurd (cc h)
take_step (some r) n s f h = f r h

-- The front of what can be read.
pub Reads-take : (p q : Place) (n : ℕ) (s : Bytes) → read_text p s ≡ some q → Reads p (take n s)
unfolding read_text
Reads-take p q zero s h = (p, refl)
Reads-take p q (suc n) [] h = (p, refl)
Reads-take p q (suc n) (c ∷ s) h = take_step (read_byte p c) n s (λ r. Reads-take r q n s) h
