-- ===== src/Format/Fits.antt =====
-- What mkvtab of proto_fmt.c writes where the buffer is large enough.
use dudld.Common.{
  ℕ, ◌+◌, ◌-◌, ◌≤◌, ◌<◌, ◌==◌, ltb, leb, lt→ltb, ==_ne, if◌then◌else◌, ◌≡◌, ◌≢◌, refl, sym, ◌∙◌,
  subst, subst₂, arith, true, false, Bool-cases, inl, inr, Bytes, List, [], ◌∷◌, ◌++◌, Option,
  length, length-append, append_assoc, append-nil, All,
}
use dudld.Common.Memory.{
  Memory, store, stores, c_string, Begins, store-behind, store-next, stores-next, Begins-front,
  snprintf-next, c_string-Begins, IsIntact, Begins-IsIntact, IsIntact-Begins,
}
use dudld.ParseExpr.Text.{print_int}
use dudld.Format.Digits.{length-print_int_pos}
use dudld.Format.Table.{
  blen, Cursor, eaddc, eadd, eadds, ecpy, Field, str, text, char, int, invalid, room, put_field,
  put_fields, mktab,
}

-- The bytes that stand for a byte of a text, and those that stand for the text.
unfoldable pub hide : ℕ → Bytes
hide c = if c == b'\t' then b'\\' ∷ b't' ∷ [] else if c == b'\\' then b'\\' ∷ b'\\' ∷ [] else c ∷ []

unfoldable pub escape : Bytes → Bytes
escape [] = []
escape (c ∷ s) = hide c ++ escape s

-- The text of a field.
unfoldable pub field_text : Field → Bytes
field_text (str s) = escape s
field_text (text s) = s
field_text (char c) = hide c
field_text (int n) = print_int n
field_text invalid = b'?' ∷ []

-- The texts of more fields, each behind a tab.
unfoldable pub more_text : List Field → Bytes
more_text [] = []
more_text (f ∷ fs) = b'\t' ∷ (field_text f ++ more_text fs)

-- The static buffer, nothing stored outside of it.
abbrev pub IsBuffer : Memory → Type 0
IsBuffer m = IsIntact blen m

-- No byte of a text is 0.
abbrev pub IsText : Bytes → Type 0
IsText s = All (λ c. c ≢ 0) s

-- A cursor in the buffer, behind a text, with a number of bytes that count as asked for.
record At (w : Bytes) (u : ℕ) (k : Cursor) : Type 0 where
  begins : Begins w blen k.mem
  buffer : k.buffer ≡ length w
  used : k.used ≡ u

At-used : {w : Bytes} {u v : ℕ} {k : Cursor} → At w u k → u ≡ v → At w v k
At-used h e = record { begins = h.begins; buffer = h.buffer; used = h.used ∙ e }

eaddc-At :
    (len c : ℕ) {w : Bytes} {u : ℕ} {k : Cursor}
    → At w u k
    → u < len
    → length w < blen
    → At (w ++ c ∷ []) (u + 1) (eaddc len c k)
unfolding eaddc
eaddc-At len c {w = w} {k = k} h lt le =
    rw (lt→ltb k.used len (subst (λ i. i < len) (sym h.used) lt)) (record {
      begins =
          subst (λ i. Begins (w ++ c ∷ []) blen (store i c k.mem)) (sym h.buffer)
            (store-next c h.begins le);
      buffer = omega (arith, h.buffer, length-append w (c ∷ []));
      used = omega (arith, h.used);
    })

eaddc-eaddc :
    (len c d : ℕ) {w : Bytes} {u : ℕ} {k : Cursor}
    → At w u k
    → u + 2 ≤ len
    → length w + 2 ≤ blen
    → At (w ++ c ∷ d ∷ []) (u + 2) (eaddc len d (eaddc len c k))
eaddc-eaddc len c d {w = w} {u = u} {k = k} h lt le =
    let one = eaddc-At len c h (omega arith) (omega arith) in
    let two = eaddc-At len d one (omega arith) (omega (arith, length-append w (c ∷ []))) in
    subst₂ (λ v n. At v n (eaddc len d (eaddc len c k))) (append_assoc w (c ∷ []) (d ∷ []))
      (omega arith) two

eadd-At :
    (len c : ℕ) {w : Bytes} {u : ℕ} {k : Cursor}
    → At w u k
    → u + length (hide c) ≤ len
    → length w + length (hide c) ≤ blen
    → At (w ++ hide c) (u + length (hide c)) (eadd len c k)
unfolding eadd hide
eadd-At len c {w = w} {u = u} {k = k} h lt le = elim (Bool-cases (c == b'\t')) [
  | inl e ↦ rw e (eaddc-eaddc len b'\\' b't' h (rw e at lt) (rw e at le))
  | inr e ↦ elim (Bool-cases (c == b'\\')) [
    | inl f ↦ rw (e, f) (eaddc-eaddc len b'\\' b'\\' h (rw (e, f) at lt) (rw (e, f) at le))
    | inr f ↦
        let lt1 : u + 1 ≤ len = rw (e, f) at lt in
        let le1 : length w + 1 ≤ blen = rw (e, f) at le in
        rw (e, f) (eaddc-At len c h (omega arith) (omega arith))
  ]
]

eadds-At :
    (len : ℕ) (s : Bytes) {w : Bytes} {u : ℕ} {k : Cursor}
    → At w u k
    → u + length (escape s) ≤ len
    → length w + length (escape s) ≤ blen
    → At (w ++ escape s) (u + length (escape s)) (eadds len s k)
unfolding eadds escape
eadds-At len [] {w = w} h lt le = rw append-nil (At-used h (omega arith))
eadds-At len (c ∷ s) {w = w} {u = u} {k = k} h lt le =
    let l = length-append (hide c) (escape s) in
    let one = eadd-At len c h (omega (arith, l)) (omega (arith, l)) in
    let more = eadds-At len s one (omega (arith, l)) (omega (arith, l, length-append w (hide c))) in
    subst₂ (λ v n. At v n (eadds len s (eadd len c k))) (append_assoc w (hide c) (escape s))
      (omega (arith, l)) more

-- A cursor behind a text, all of which was asked for.
abbrev Sits : Bytes → Cursor → Type 0
Sits w k = At w (length w) k

store-At :
    (c : ℕ) {w : Bytes} {u : ℕ} {k : Cursor}
    → At w u k
    → length w < blen
    → Begins (w ++ c ∷ []) blen (store k.buffer c k.mem)
store-At c {w = w} {k = k} h lt =
    subst (λ i. Begins (w ++ c ∷ []) blen (store i c k.mem)) (sym h.buffer)
      (store-next c h.begins lt)

-- The 0 at the end of ecpy, where there is room for it.
end-Begins :
    (len : ℕ) {w : Bytes} {u : ℕ} {k : Cursor}
    → At w u k
    → length w < blen
    → Begins w blen (if ltb k.used len then store k.buffer 0 k.mem else k.mem)
end-Begins len {k = k} h lt = elim (Bool-cases (ltb k.used len)) [
  | inl e ↦ rw e (Begins-front (0 ∷ []) (store-At 0 h lt))
  | inr e ↦ rw e h.begins
]

ecpy-Sits :
    (s : Bytes) {w : Bytes} {k : Cursor}
    → Sits w k
    → length w + length (escape s) < blen
    → Sits (w ++ escape s) (put_field (str s) k)
unfolding put_field ecpy
ecpy-Sits s {w = w} {k = k} h lt =
    let len = blen - length w - 1 in
    let e : length w + blen - length w - 1 ≡ length w + (blen - length w - 1) = omega arith in
    let l = length-append w (escape s) in
    let start : At w 0 (record {
      mem = store (length w + (blen - length w - 1)) 0 k.mem;
      buffer = length w;
      used = 0;
    }) =
      record { begins = store-behind len 0 h.begins (omega arith); buffer = refl; used = refl } in
    let loop = eadds-At len s start (omega arith) (omega arith) in
    let back : ltb (length w) (length w + blen) ≡ true = lt→ltb _ _ (omega arith) in
    rw (h.buffer, h.used, back, e)
      (record {
        begins = end-Begins len loop (omega (arith, l));
        buffer = omega (arith, l, loop.used);
        used = omega (arith, l, loop.used);
      })

text-Sits :
    (s : Bytes) {w : Bytes} {k : Cursor}
    → Sits w k
    → length w + length s < blen
    → Sits (w ++ s) (put_field (text s) k)
unfolding put_field
text-Sits s {w = w} {k = k} h lt =
    let l = length-append w s in
    let e : ltb (length s) (blen - length w) ≡ true = lt→ltb _ _ (omega arith) in
    let all = store-next 0 (stores-next s h.begins (omega arith)) (omega (arith, l)) in
    rw (h.buffer, h.used, e)
      (record {
        begins =
            subst (λ i. Begins (w ++ s) blen (store i 0 (stores (length w) s k.mem))) l
              (Begins-front (0 ∷ []) all);
        buffer = omega (arith, l);
        used = omega (arith, l);
      })

int-Sits :
    (n : ℕ) {w : Bytes} {k : Cursor}
    → Sits w k
    → length w + length (print_int n) < blen
    → Sits (w ++ print_int n) (put_field (int n) k)
unfolding put_field room
int-Sits n {w = w} {k = k} h lt =
    let l = length-append w (print_int n) in
    let e : leb (length w) blen ≡ true = ground arith in
    let all = snprintf-next (print_int n) (blen - length w) h.begins (omega arith) (omega arith) in
    rw (h.buffer, h.used, e)
      (record {
        begins = Begins-front (0 ∷ []) all;
        buffer = omega (arith, l);
        used = omega (arith, l);
      })

put_field-Sits :
    (f : Field) {w : Bytes} {k : Cursor}
    → Sits w k
    → length w + length (field_text f) < blen
    → Sits (w ++ field_text f) (put_field f k)
unfolding field_text
put_field-Sits (str s) h lt = ecpy-Sits s h lt
put_field-Sits (text s) h lt = text-Sits s h lt
put_field-Sits (int n) h lt = int-Sits n h lt
put_field-Sits (char c) {w = w} h lt =
    unfold put_field in
    At-used (eadd-At blen c h (omega arith) (omega arith)) (omega (arith, length-append w (hide c)))
put_field-Sits invalid {w = w} h lt =
    unfold put_field in
    At-used (eaddc-At blen b'?' h (omega arith) (omega arith))
      (omega (arith, length-append w (b'?' ∷ [])))

put_fields-Sits :
    (fs : List Field) {w : Bytes} {k : Cursor}
    → Sits w k
    → 0 < length w
    → length w + length (more_text fs) < blen
    → Sits (w ++ more_text fs) (put_fields fs k)
unfolding put_fields more_text
put_fields-Sits [] {w = w} h pos lt = rw (append-nil w) h
put_fields-Sits (f ∷ fs) {w = w} {k = k} h pos lt =
    let l = length-append (field_text f) (more_text fs) in
    let m = length-append w (b'\t' ∷ []) in
    let e : (k.used == 0) ≡ false = ==_ne _ _ (λ p. (omega (arith, p, h.used))) in
    let tab = At-used (eaddc-At blen b'\t' h (omega arith) (omega arith)) (sym m) in
    let one = put_field-Sits f tab (omega (arith, l)) in
    let n = length-append (w ++ b'\t' ∷ []) (field_text f) in
    let more = put_fields-Sits fs one (omega arith) (omega (arith, l)) in
    rw e (
      subst (λ v. Sits v (put_fields fs (put_field f (eaddc blen b'\t' k))))
        (rw (append_assoc, append_assoc) refl) more)

-- What a function answers, and that it stored nothing outside of the buffer.
abbrev pub Gives : Option Bytes → Memory × Option Bytes → Type 0
Gives o r = (r.1 ≡ o) × IsBuffer r.0

-- What mkvtab does behind its loop.
mktab-ends :
    (strdup : Bytes → Option Bytes) {w : Bytes} {k : Cursor}
    → Sits w k
    → length w < blen
    → IsText w
    → let r = if ltb k.used blen then store k.buffer 0 k.mem else k.mem in
      Gives (strdup w) (r, strdup (c_string r.bytes))
mktab-ends strdup {w = w} {k = k} h lt nz =
    let e : ltb k.used blen ≡ true = lt→ltb k.used blen (omega (arith, h.used)) in
    let b = store-At 0 h lt in
    let c : c_string (store k.buffer 0 k.mem).bytes ≡ w =
      rw (b.bytes, append_assoc) (c_string-Begins w b.rest nz) in
    (rw (e, c) refl, rw e (Begins-IsIntact b))

-- A first field that is a number, and more: where the texts with a tab between any two of them are
-- shorter than the buffer, mktab copies just them.
pub mktab-fits :
    (strdup : Bytes → Option Bytes) (buf : Memory) (n : ℕ) (fs : List Field)
    → IsBuffer buf
    → length (print_int n ++ more_text fs) < blen
    → IsText (print_int n ++ more_text fs)
    → Gives (strdup (print_int n ++ more_text fs)) (mktab strdup buf (int n ∷ fs))
unfolding mktab put_fields
mktab-fits strdup buf n fs h lt nz =
    let all = IsIntact-Begins h in
    let start : Sits [] (record { mem = store 0 0 buf; buffer = 0; used = 0 }) = record {
      begins = store-behind 0 0 all (omega arith);
      buffer = refl;
      used = refl;
    } in
    let l = length-append (print_int n) (more_text fs) in
    let one = int-Sits n start (omega (arith, l)) in
    let k = put_fields-Sits fs one (length-print_int_pos n) (omega (arith, l)) in
    mktab-ends strdup k lt nz
