-- ===== src/Sql/Texts.antt =====
-- The texts that pgdb/filter.c prints, as PostgreSQL reads them.
use dudld.Common.{
  ℕ, zero, suc, ◌-◌, ◌<◌, ◌^◌, ◌≡◌, refl, arith, ltb, ◌==◌, Bool, true, false, Bool-cases, inl, inr,
  Bytes, List, [], ◌∷◌, ◌++◌, Option, none, some, All, All-append, All-map, append_assoc, codes,
  length, take, replicate, map,
}
use dudld.Common.Memory.{Memory, store, c_string, IsIntact, IsIntact-Begins, store-next}
use dudld.Common.Writer.{Writer, emit, Prints, Prints-emit, Prints-skip, Prints-then}
use dudld.ParseExpr.Syntax.{ValOp, vo_none, vo_eq, vo_lt, vo_le, vo_gt, vo_ge, vo_in, vo_re}
use dudld.ParseExpr.Text.{print_int, digits}
use dudld.Format.Digits.{IsPlain, digits-IsPlain, print_int-IsPlain}
use dudld.Sql.Escape.{db_escape}
use dudld.Sql.Filter.{oper_names, print_year, quote, comma_fmt, into_array, sql_len, sql_idlist}
use dudld.Sql.Reading.{
  Place, outside, dash, inside, read_byte, read_text, read_both, IsStatement, Reads, Reads-take,
  read_text-db_escape, outside-print_int,
}

pub oper_names-IsStatement : (o : ValOp) → IsStatement (oper_names o)
unfolding oper_names read_text read_byte
oper_names-IsStatement vo_none = refl
oper_names-IsStatement vo_eq = refl
oper_names-IsStatement vo_lt = refl
oper_names-IsStatement vo_le = refl
oper_names-IsStatement vo_gt = refl
oper_names-IsStatement vo_ge = refl
oper_names-IsStatement vo_in = refl
oper_names-IsStatement vo_re = refl

inside-All : (s : Bytes) → All IsPlain s → read_text inside s ≡ some inside
unfolding read_text read_byte
inside-All [] h = refl
inside-All (c ∷ s) (h, hs) =
    let e : (c == b'\'') ≡ false = ground (arith, h) in rw e (inside-All s hs)

replicate-IsPlain : (n : ℕ) → All IsPlain (replicate n b'0')
replicate-IsPlain zero = tt
replicate-IsPlain (suc n) = (ground arith, replicate-IsPlain n)

-- The year stands in quotes.
pub print_year-inside : (n : ℕ) → read_text inside (print_year n) ≡ some inside
unfolding print_year
print_year-inside n = elim (Bool-cases (ltb n (2 ^ 31))) [
  | inl e ↦ rw e (
      inside-All _ (
        All-append IsPlain (replicate (4 - length (digits 9 n)) b'0') (digits 9 n)
          (replicate-IsPlain _) (digits-IsPlain 9 n)))
  | inr e ↦ rw e (
      inside-All _ (
        (ground arith),
        All-append IsPlain (replicate (3 - length (digits 9 (2 ^ 32 - n))) b'0')
            (digits 9 (2 ^ 32 - n)) (replicate-IsPlain _) (digits-IsPlain 9 _),
      ))
]

pub quote-IsStatement : (s : Bytes) → IsStatement (quote s)
unfolding read_text read_byte
quote-IsStatement s =
    read_both inside inside (db_escape s) (b'\'' ∷ []) (read_text-db_escape s) refl

unquoted : (n : ℕ) → All (λ c. b'\'' < c) (print_int n)
unquoted n = All-map _ (λ c h. omega (arith, h.0)) (print_int-IsPlain n)

-- The pieces of a list with commas between them.
abbrev pub comma_text : List Bytes → Bytes
comma_text [] = []
comma_text (s ∷ []) = s
comma_text (s ∷ t ∷ ss) = s ++ (codes "," ++ comma_text (t ∷ ss))

comma_fmt-Prints : (ss : List Bytes) → Prints true (comma_fmt ss) (comma_text ss)
unfolding comma_fmt
comma_fmt-Prints [] = Prints-skip
comma_fmt-Prints (s ∷ []) = Prints-emit true s
comma_fmt-Prints (s ∷ t ∷ ss) = Prints-then true (emit s) _ s _ (Prints-emit true s) (
    Prints-then true (emit (codes ",")) _ (codes ",") _ (Prints-emit true (codes ","))
      (comma_fmt-Prints (t ∷ ss)))

comma_text-IsStatement : (ss : List Bytes) → All IsStatement ss → IsStatement (comma_text ss)
unfolding read_text read_byte
comma_text-IsStatement [] h = refl
comma_text-IsStatement (s ∷ []) (h, hs) = h
comma_text-IsStatement (s ∷ t ∷ ss) (h, hs) =
    read_both outside outside s _ h (comma_text-IsStatement (t ∷ ss) hs)

-- What a string is of bytes that a 0 follows.
pub c_string-take : (x r : Bytes) → (n : ℕ) × (c_string (x ++ 0 ∷ r) ≡ take n x)
unfolding c_string
c_string-take [] r = (0, refl)
c_string-take (c ∷ x) r =
    let (n, e) = c_string-take x r in
    elim (Bool-cases (c == 0)) [ inl z ↦ (0, rw z refl) | inr z ↦ (suc n, rw (z, e) refl) ]

-- The front of a text that can be read.
pub take_front : (n k : ℕ) (t x : Bytes) → x ≡ take k (take n t) → IsStatement t → Reads outside x
take_front n k t x e h =
    let (q, f) = Reads-take outside outside n t h in
    let (r, g) = Reads-take outside q k (take n t) f in (r, rw e g)

-- What a function leaves in an array of sql_len bytes: the front of what it prints.
into_array-take :
    (m : Memory) (p : Writer) (t x : Bytes)
    → IsIntact sql_len m
    → Prints true p t
    → into_array m p ≡ some x
    → (k : ℕ) × (x ≡ take k (take (sql_len - 1) t))
unfolding into_array
into_array-take m p t x i h e = elim (Bool-cases (ltb sql_len (p (store 0 0 m) 0 sql_len).1)) [
  | inl b ↦ absurd (cc (rw b at e))
  | inr b ↦
      let start = store-next 0 (IsIntact-Begins i) (omega arith) in
      let r = h [] sql_len (store 0 0 m) sql_len start (omega arith) in
      let (k, c) = c_string-take (take (sql_len - 1) t) r.begins.rest in
      let f : some (c_string (p (store 0 0 m) 0 sql_len).0.bytes) ≡ some x = rw b at e in
      let g = append_assoc (take (sql_len - 1) t) (0 ∷ []) r.begins.rest in
      (k, cc (f, r.begins.bytes, g, c))
]

-- No quote.
abbrev IsUnquoted : Bytes → Type 0
IsUnquoted = All (λ c. b'\'' < c)

All-take : (n : ℕ) (s : Bytes) → IsUnquoted s → IsUnquoted (take n s)
All-take zero s h = tt
All-take (suc n) [] h = tt
All-take (suc n) (c ∷ s) (h, hs) = (h, All-take n s hs)

abbrev pub is_out : Place → Bool
is_out inside = false
is_out _ = true

-- A text with no quote does not lead inside of quotes.
out_byte :
    (p : Place) (c : ℕ) (q : Place)
    → is_out p ≡ true
    → b'\'' < c
    → read_byte p c ≡ some q
    → is_out q ≡ true
unfolding read_byte
out_byte inside c q o h e = absurd (cc o)
out_byte outside c q o h e = ground (arith, e, h)
out_byte dash c q o h e = ground (arith, e, h)

out_step :
    (o : Option Place) (s : Bytes) (q : Place)
    → ((r : Place) → o ≡ some r → read_text r s ≡ some q → is_out q ≡ true)
    → elim o [ none ↦ none | some r ↦ read_text r s ] ≡ some q
    → is_out q ≡ true
out_step none s q f h = absurd (cc h)
out_step (some r) s q f h = f r refl h

out_text :
    (p q : Place) (s : Bytes)
    → is_out p ≡ true
    → IsUnquoted s
    → read_text p s ≡ some q
    → is_out q ≡ true
unfolding read_text
out_text p q [] o h e = cc (o, e)
out_text p q (c ∷ s) o (h, hs) e =
    out_step (read_byte p c) s q (λ r g. out_text r q s (out_byte p c r o h g) hs) e

print_ints : (ids : List ℕ) → All IsStatement (map print_int ids)
print_ints [] = tt
print_ints (n ∷ ids) = (outside-print_int n, print_ints ids)

comma_ints-IsUnquoted : (ids : List ℕ) → IsUnquoted (comma_text (map print_int ids))
comma_ints-IsUnquoted [] = tt
comma_ints-IsUnquoted (n ∷ []) = unquoted n
comma_ints-IsUnquoted (n ∷ k ∷ ids) =
    All-append _ (print_int n) _ (unquoted n) (omega arith, comma_ints-IsUnquoted (k ∷ ids))

-- The numbers of tags can be read up to a place outside of quotes.
pub sql_idlist-Reads :
    (sbuf : Memory) (ids : List ℕ) (x : Bytes)
    → IsIntact sql_len sbuf
    → sql_idlist sbuf ids ≡ some x
    → (q : Place) × (read_text outside x ≡ some q) × (is_out q ≡ true)
unfolding sql_idlist
sql_idlist-Reads sbuf ids x i e =
    let t = comma_text (map print_int ids) in
    let (k, f) = into_array-take sbuf _ t x i (comma_fmt-Prints (map print_int ids)) e in
    let (q, r) = take_front (sql_len - 1) k t x f (comma_text-IsStatement _ (print_ints ids)) in
    let n : IsUnquoted x =
      rw f (
        All-take k (take (sql_len - 1) t) (All-take (sql_len - 1) t (comma_ints-IsUnquoted ids))) in
    (q, r, out_text outside q x refl n r)

quotes : (ss : List Bytes) → All IsStatement (map quote ss)
quotes [] = tt
quotes (s ∷ ss) = (quote-IsStatement s, quotes ss)

-- The names in the query for tags.
pub names-Reads :
    (sbuf : Memory) (ss : List Bytes) (x : Bytes)
    → IsIntact sql_len sbuf
    → into_array sbuf (comma_fmt (map quote ss)) ≡ some x
    → Reads outside x
names-Reads sbuf ss x i e =
    let t = comma_text (map quote ss) in
    let (k, f) = into_array-take sbuf _ t x i (comma_fmt-Prints (map quote ss)) e in
    take_front (sql_len - 1) k t x f (comma_text-IsStatement _ (quotes ss))
