-- ===== src/Client/Lines.antt =====
-- What client_getline of client.c leaves of a buffer that holds a line in front of a 0.
use dudld.Common.{
  ℕ, zero, suc, ◌+◌, ◌-◌, ◌≤◌, ◌≡◌, refl, sym, ap, ◌∙◌, arith, false, Bytes, [], ◌∷◌, ◌++◌, length,
  take, drop, replicate, length-append, length-take, length-drop, length-replicate, append_assoc,
  take-append, drop-length,
}
use dudld.Client.Line.{c_string, client_buflen, Buffer, line, count_breaks, move_down, take_line}
use dudld.Client.FirstLine.{
  Breaks, IsLine, StartsPlain, cleared, filled, memory, front, inside, behind, take_line-eq,
  count_all, c_string-append,
}
use dudld.Client.Bounds.{held, IsBuffer, take_front}

drop_before : (k : ℕ) (xs ys : Bytes) → k ≤ length xs → drop k (xs ++ ys) ≡ drop k xs ++ ys
drop_before zero xs ys le = refl
drop_before (suc k) [] ys le = absurd (omega (arith, le))
drop_before (suc k) (x ∷ xs) ys le = drop_before k xs ys (omega (arith, le))

pub starts_before : (r rest : Bytes) → StartsPlain (r ++ 0 ∷ rest) → StartsPlain r
starts_before [] rest h = tt
starts_before (c ∷ r) rest h = h

-- A buffer that holds linebreaks `p`, a line, linebreaks `c ∷ bs` and the rest `r`, in front of a 0, of
-- which the first `n` bytes are counted as input.
module _ (p l : Bytes) (c : ℕ) (bs r t : Bytes) (n : ℕ) where
  abbrev pub counted : Buffer
  counted = record { ibuf = (filled p l c bs r t).ibuf; ilen = n; del = false }

  abbrev pub upto : ℕ
  upto = length p + length l + suc (length bs)

  abbrev pub after : Buffer
  after = record {
    ibuf = move_down upto (n - upto) (cleared p l c bs r t);
    ilen = n - upto;
    del = false;
  }

  unfoldable pub lines_of : Bytes
  lines_of = p ++ (l ++ (c ∷ bs))

  pub length-lines_of : length lines_of ≡ upto
  unfolding lines_of
  length-lines_of = omega (arith, length-append p (l ++ (c ∷ bs)), length-append l (c ∷ bs))

  pub counted-lines : counted.ibuf ≡ lines_of ++ (r ++ 0 ∷ t)
  unfolding lines_of
  counted-lines = sym (
      append_assoc p (l ++ (c ∷ bs)) (r ++ 0 ∷ t)
      ∙ ap (λ x. p ++ x) (append_assoc l (c ∷ bs) (r ++ 0 ∷ t)))

  blank : Bytes
  blank = p ++ (l ++ (0 ∷ replicate (length bs) 0))

  length-blank : length blank ≡ upto
  unfolding blank
  length-blank = omega (
    arith,
    length-append p (l ++ (0 ∷ replicate (length bs) 0)),
    length-append l (0 ∷ replicate (length bs) 0),
    length-replicate {A = ℕ} (length bs) 0,
  )

  cleared-blank : cleared p l c bs r t ≡ (blank ++ r) ++ 0 ∷ t
  unfolding blank
  cleared-blank = sym (
      append_assoc (p ++ (l ++ (0 ∷ replicate (length bs) 0))) r (0 ∷ t)
      ∙ append_assoc p (l ++ (0 ∷ replicate (length bs) 0)) (r ++ 0 ∷ t)
      ∙ ap (λ x. p ++ x) (append_assoc l (0 ∷ replicate (length bs) 0) (r ++ 0 ∷ t)))

  line_text : IsLine l → c_string (drop (length p) (cleared p l c bs r t)) ≡ l
  line_text hl =
      ap c_string (drop-length p (l ++ (0 ∷ (replicate (length bs) 0 ++ (r ++ 0 ∷ t)))))
      ∙ c_string-append l (replicate (length bs) 0 ++ (r ++ 0 ∷ t)) hl

  pub take_line-counted :
      IsLine l
      → Breaks bs
      → StartsPlain (r ++ 0 ∷ t)
      → upto ≤ n
      → take_line (length p) (length l) counted ≡ line l after
  take_line-counted hl hbs hr le =
      let plain = starts_before r t hr in
      take_line-eq (length p) (length l) counted (cleared p l c bs r t) (suc (length bs))
        (memory p l c bs r t hbs plain)
        (ap count_breaks (front p l c bs r t) ∙ count_all c bs r t hbs plain) le
        (inside p l c bs r t)
      ∙ ap (λ x. line x after) (line_text hl)

  -- What of the rest is counted.
  abbrev pub kept : Bytes
  kept = take (n - upto) (r ++ 0 ∷ t)

  after-kept : after.ibuf ≡ kept ++ drop (n - upto) (cleared p l c bs r t)
  unfolding move_down
  after-kept =
      ap (λ x. take (n - upto) x ++ drop (n - upto) (cleared p l c bs r t)) (behind p l c bs r t)

  module _ (lo : upto ≤ n) (hi : n ≤ upto + length r) where
    length-kept : n - upto ≡ length kept
    length-kept =
        omega (arith, lo, hi, length-take (n - upto) (r ++ 0 ∷ t), length-append r (0 ∷ t))

    held-after : held after ≡ kept
    held-after =
        ap (take (n - upto)) after-kept
        ∙ take_front _ kept (drop (n - upto) (cleared p l c bs r t)) length-kept

    pub held-counted : held counted ≡ lines_of ++ held after
    held-counted =
        let parts : n ≡ length lines_of + (n - upto) = omega (arith, lo, length-lines_of) in
        ap (take n) counted-lines
        ∙ ap (λ k. take k (lines_of ++ (r ++ 0 ∷ t))) parts
        ∙ take-append lines_of (r ++ 0 ∷ t) (n - upto)
        ∙ ap (λ x. lines_of ++ x) (sym held-after)

    after-ended : after.ibuf ≡ (kept ++ drop (n - upto) (blank ++ r)) ++ 0 ∷ t
    after-ended =
        after-kept
        ∙ ap (λ x. kept ++ drop (n - upto) x) cleared-blank
        ∙ ap (λ x. kept ++ x)
            (drop_before (n - upto) (blank ++ r) (0 ∷ t)
              (omega (arith, lo, hi, length-append blank r, length-blank)))
        ∙ sym (append_assoc kept (drop (n - upto) (blank ++ r)) (0 ∷ t))

    pub after-IsBuffer : length counted.ibuf ≡ client_buflen + 1 → IsBuffer after
    after-IsBuffer size = record {
      size = omega (
        arith,
        size,
        lo,
        hi,
        length-kept,
        ap length after-kept,
        length-append kept (drop (n - upto) (cleared p l c bs r t)),
        length-drop (n - upto) (cleared p l c bs r t),
        ap length cleared-blank,
        length-append (blank ++ r) (0 ∷ t),
        length-append blank r,
        length-blank,
        ap length counted-lines,
        length-append lines_of (r ++ 0 ∷ t),
        length-append r (0 ∷ t),
        length-lines_of,
      );
      front = kept ++ drop (n - upto) (blank ++ r);
      rest = t;
      ended = after-ended;
      room = omega (arith, length-kept, length-append kept (drop (n - upto) (blank ++ r)));
    }
