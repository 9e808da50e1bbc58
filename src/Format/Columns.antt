-- ===== src/Format/Columns.antt =====
-- How a client reads a line of proto_fmt.c: its columns stand between tabs, and a backslash stands for
-- itself behind another one, and for a tab in front of 't'.
use dudld.Common.{
  All-append, All-map, ℕ, ◌≡◌, ◌≢◌, refl, sym, ap, subst, ◌∙◌, arith, append-nil, ◌==◌, ==_ne,
  ==_iff, false, if◌then◌else◌, inl, inr, Bool-cases, Bytes, List, [], ◌∷◌, ◌++◌, All, map,
  map-append,
}
use dudld.ParseExpr.Text.{print_int}
use dudld.Format.Digits.{IsPlain, print_int-IsPlain}
use dudld.Format.Table.{Field, str, text, char, int, invalid}
use dudld.Format.Fits.{hide, escape, field_text, more_text}

-- A byte in front of the first column.
unfoldable onto : ℕ → List Bytes → List Bytes
onto c [] = (c ∷ []) ∷ []
onto c (s ∷ ss) = (c ∷ s) ∷ ss

unfoldable split : Bytes → List Bytes
split [] = [] ∷ []
split (c ∷ s) = let more = split s in if c == b'\t' then [] ∷ more else onto c more

unfoldable unescape : Bytes → Bytes
unescape [] = []
unescape (c ∷ []) = c ∷ []
unescape (c ∷ d ∷ s) =
    let plain = unescape (d ∷ s) in
    let behind = unescape s in
    if c == b'\\' then (if d == b't' then b'\t' else d) ∷ behind else c ∷ plain

unfoldable pub columns : Bytes → List Bytes
unfolding unescape split onto
columns row = map unescape (split row)

-- No byte of a text is a tab.
abbrev LacksTab : Bytes → Type 0
LacksTab s = All (λ c. c ≢ b'\t') s

split-cons : (s : Bytes) → (x : Bytes) × (xs : List Bytes) × (split s ≡ x ∷ xs)
unfolding split onto
split-cons [] = ([], [], refl)
split-cons (c ∷ s) = elim (Bool-cases (c == b'\t')) [
  | inl e ↦ ([], split s, rw e refl)
  | inr e ↦ let (x, xs, h) = split-cons s in (c ∷ x, xs, rw (e, h) refl)
]

split-tab : (a b : Bytes) → split (a ++ b'\t' ∷ b) ≡ split a ++ split b
unfolding split onto
split-tab [] b = refl
split-tab (c ∷ a) b = elim (Bool-cases (c == b'\t')) [
  | inl e ↦ rw (e, split-tab a b) refl
  | inr e ↦ let (x, xs, h) = split-cons a in rw (e, split-tab a b, h) refl
]

split-LacksTab : (s : Bytes) → LacksTab s → split s ≡ s ∷ []
unfolding split onto
split-LacksTab [] h = refl
split-LacksTab (c ∷ s) (h, hs) = rw (==_ne c _ h, split-LacksTab s hs) refl

escape-LacksTab : (s : Bytes) → LacksTab (escape s)
unfolding escape hide
escape-LacksTab [] = tt
escape-LacksTab (c ∷ s) = All-append _ (hide c) (escape s) (ground arith) (escape-LacksTab s)

unescape-other : (c : ℕ) (s : Bytes) → (c == b'\\') ≡ false → unescape (c ∷ s) ≡ c ∷ unescape s
unfolding unescape
unescape-other c [] h = refl
unescape-other c (d ∷ s) h = rw h refl

unescape-hide : (c : ℕ) (s : Bytes) → unescape (hide c ++ s) ≡ c ∷ unescape s
unfolding hide unescape
unescape-hide c s = elim (Bool-cases (c == b'\t')) [
  | inl e ↦ rw e (ap (λ x. x ∷ unescape s) (sym ((==_iff c b'\t').0 e)))
  | inr e ↦ elim (Bool-cases (c == b'\\')) [
    | inl f ↦ rw (e, f) (ap (λ x. x ∷ unescape s) (sym ((==_iff c b'\\').0 f)))
    | inr f ↦ rw (e, f) (unescape-other c s f)
  ]
]

unescape-escape : (s : Bytes) → unescape (escape s) ≡ s
unfolding escape
unescape-escape [] = unfold unescape in refl
unescape-escape (c ∷ s) = rw (unescape-hide c (escape s), unescape-escape s) refl

unescape-plain : (s : Bytes) → All IsPlain s → unescape s ≡ s
unescape-plain [] h = unfold unescape in refl
unescape-plain (c ∷ s) ((l, u), hs) =
    rw (unescape-other c s (==_ne c _ (λ e. omega (arith, e, u))), unescape-plain s hs) refl

columns-tab : (a b : Bytes) → columns (a ++ b'\t' ∷ b) ≡ columns a ++ columns b
unfolding columns
columns-tab a b = rw (split-tab a b, map-append unescape (split a) (split b)) refl

columns-escape : (s : Bytes) → columns (escape s) ≡ s ∷ []
unfolding columns
columns-escape s = rw (split-LacksTab (escape s) (escape-LacksTab s), unescape-escape s) refl

columns-plain : (s : Bytes) → All IsPlain s → columns s ≡ s ∷ []
unfolding columns
columns-plain s h =
    rw (split-LacksTab s (All-map s (λ c k e. omega (arith, e, k.0)) h), unescape-plain s h) refl

-- The columns of a field.
unfoldable pub field_columns : Field → List Bytes
unfolding columns
field_columns (str s) = s ∷ []
field_columns (text s) = columns s
field_columns (char c) = (c ∷ []) ∷ []
field_columns (int n) = print_int n ∷ []
field_columns invalid = (b'?' ∷ []) ∷ []

unfoldable pub more_columns : List Field → List Bytes
more_columns [] = []
more_columns (f ∷ fs) = field_columns f ++ more_columns fs

columns-field_text : (f : Field) → columns (field_text f) ≡ field_columns f
unfolding field_text field_columns
columns-field_text (str s) = columns-escape s
columns-field_text (text s) = refl
columns-field_text (char c) =
    subst (λ x. columns x ≡ (c ∷ []) ∷ []) (append-nil (hide c))
      (unfold escape in columns-escape (c ∷ []))
columns-field_text (int n) = columns-plain (print_int n) (print_int-IsPlain n)
columns-field_text invalid = unfold columns unescape split onto in refl

columns-more_text :
    (s : Bytes) (fs : List Field) → columns (s ++ more_text fs) ≡ columns s ++ more_columns fs
unfolding more_text more_columns
columns-more_text s [] = rw (append-nil s, append-nil (columns s)) refl
columns-more_text s (f ∷ fs) =
    columns-tab s (field_text f ++ more_text fs)
    ∙ ap (λ r. columns s ++ r)
        (columns-more_text (field_text f) fs
          ∙ ap (λ r. r ++ more_columns fs) (columns-field_text f))

-- A row that begins with a number is read as the columns of its fields.
pub columns-row :
    (n : ℕ) (fs : List Field)
    → columns (print_int n ++ more_text fs) ≡ print_int n ∷ more_columns fs
columns-row n fs =
    columns-more_text (print_int n) fs
    ∙ ap (λ r. r ++ more_columns fs) (columns-plain (print_int n) (print_int-IsPlain n))
