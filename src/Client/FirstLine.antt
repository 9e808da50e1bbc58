-- ===== src/Client/FirstLine.antt =====
-- What client_getline of client.c returns from a buffer that client_read has just ended with a 0.
use dudld.Common.{
  length-replicate, ℕ, suc, ◌+◌, ◌-◌, ◌≤◌, ◌<◌, true, false, none, some, Bytes, [], ◌∷◌, ◌++◌, leb,
  if◌then◌else◌, ◌≡◌, ◌≢◌, refl, sym, ap, ◌∙◌, arith, length, take, drop, drop-append, drop-length,
  length-append, take-length, take-append, replicate, append_assoc, All, ltb-false,
}
use dudld.Client.Line.{
  client_buflen, Buffer, is_break, skip_breaks, find_break, c_string, clear_breaks, count_breaks,
  line, no_line, too_long, is_ended, move_down, take_line, search_line, client_getline,
}

-- Linebreaks; the characters of a line; a text that does not begin with a linebreak.
abbrev pub Breaks : Bytes → Type 0
Breaks = All (λ c. is_break c ≡ true)

abbrev pub IsLine : Bytes → Type 0
IsLine = All (λ c. (c ≢ 0) × (is_break c ≡ false))

abbrev pub StartsPlain : Bytes → Type 0
StartsPlain [] = Unit
StartsPlain (c ∷ r) = is_break c ≡ false

pub skip_breaks-append : (p y : Bytes) → Breaks p → StartsPlain y → skip_breaks (p ++ y) ≡ length p
unfolding skip_breaks
skip_breaks-append [] [] h k = refl
skip_breaks-append [] (c ∷ y) h k = rw k
skip_breaks-append (c ∷ p) y h k = rw h.0 (ap suc (skip_breaks-append p y h.1 k))

pub find_break-append :
    (l : Bytes) (b : ℕ) (y : Bytes)
    → IsLine l
    → is_break b ≡ true
    → b ≢ 0
    → find_break (l ++ b ∷ y) ≡ some (length l)
unfolding find_break
find_break-append [] b y h k n = ground arith
find_break-append (c ∷ l) b y h k n = ground (arith, find_break-append l b y h.1 k n)

find_break-none : (l y : Bytes) → IsLine l → find_break (l ++ 0 ∷ y) ≡ none
unfolding find_break
find_break-none [] y h = refl
find_break-none (c ∷ l) y h = ground (arith, find_break-none l y h.1)

is_ended-append : (l y : Bytes) → is_ended (l ++ 0 ∷ y) ≡ true
unfolding is_ended
is_ended-append [] y = refl
is_ended-append (c ∷ l) y = ground (arith, is_ended-append l y)

pub c_string-append : (l y : Bytes) → IsLine l → c_string (l ++ 0 ∷ y) ≡ l
unfolding c_string
c_string-append [] y h = refl
c_string-append (c ∷ l) y h = ground (arith, c_string-append l y h.1)

clear_breaks-append :
    (b : ℕ) (bs : Bytes) (c : ℕ) (y : Bytes)
    → Breaks bs
    → is_break c ≡ false
    → clear_breaks (b ∷ (bs ++ c ∷ y)) ≡ 0 ∷ (replicate (length bs) 0 ++ c ∷ y)
unfolding clear_breaks
clear_breaks-append b [] c y h k = rw k
clear_breaks-append b (d ∷ bs) c y h k =
    rw h.0 (ap (λ z. 0 ∷ z) (clear_breaks-append d bs c y h.1 k))

pub break_ne_zero : (b : ℕ) → is_break b ≡ true → b ≢ 0
unfolding is_break
break_ne_zero b h = ground arith

-- What stands behind the first line: the rest of the input, and the terminating 0.
tail_plain :
    (r t : Bytes)
    → StartsPlain r
    → (c : ℕ) × (y : Bytes) × (r ++ 0 ∷ t ≡ c ∷ y) × (is_break c ≡ false)
unfolding is_break
tail_plain [] t h = (0, t, refl, refl)
tail_plain (c ∷ r) t h = (c, r ++ 0 ∷ t, refl, h)

pub leb-false : (a b : ℕ) → b < a → leb a b ≡ false
leb-false a b h = ground arith

pub take_line-eq :
    (s d : ℕ) (b : Buffer) (mem : Bytes) (k : ℕ)
    → take (s + d) b.ibuf ++ clear_breaks (drop (s + d) b.ibuf) ≡ mem
    → count_breaks (drop (s + d) b.ibuf) ≡ k
    → s + d + k ≤ b.ilen
    → s + d + k < length b.ibuf
    → take_line s d b
      ≡ line (c_string (drop s mem)) (record {
        ibuf = move_down (s + d + k) (b.ilen - (s + d + k)) mem;
        ilen = b.ilen - (s + d + k);
        del = b.del;
      })
unfolding take_line
take_line-eq s d b mem k e f h i =
    rw (e, f) (rw (leb-false (length b.ibuf) (s + d + k) i, ltb-false b.ilen (s + d + k) h))

client_getline-live :
    (b : Buffer) → b.del ≡ false → client_getline b ≡ search_line (skip_breaks b.ibuf) b
unfolding client_getline
client_getline-live b live =
    ap (λ z. if z then no_line b else search_line (skip_breaks b.ibuf) b) live

search_line-found :
    (b : Buffer) (s d : ℕ) → find_break (drop s b.ibuf) ≡ some d → search_line s b ≡ take_line s d b
unfolding search_line
search_line-found b s d f = rw (search_line, f) refl

search_line-lost :
    (b : Buffer) (s : ℕ)
    → find_break (drop s b.ibuf) ≡ none
    → is_ended (drop s b.ibuf) ≡ true
    → search_line s b ≡ (if leb client_buflen b.ilen then too_long b else no_line b)
unfolding search_line
search_line-lost b s f z = rw (search_line, f) (rw z refl)

pub client_getline-found :
    (b : Buffer) (s d : ℕ)
    → b.del ≡ false
    → skip_breaks b.ibuf ≡ s
    → find_break (drop s b.ibuf) ≡ some d
    → client_getline b ≡ take_line s d b
client_getline-found b s d live e f =
    client_getline-live b live ∙ ap (λ k. search_line k b) e ∙ search_line-found b s d f

pub client_getline-lost :
    (b : Buffer) (s : ℕ)
    → b.del ≡ false
    → skip_breaks b.ibuf ≡ s
    → find_break (drop s b.ibuf) ≡ none
    → is_ended (drop s b.ibuf) ≡ true
    → client_getline b ≡ (if leb client_buflen b.ilen then too_long b else no_line b)
client_getline-lost b s live e f z =
    client_getline-live b live ∙ ap (λ k. search_line k b) e ∙ search_line-lost b s f z

pub starts_of : (l y : Bytes) → IsLine l → l ≢ [] → StartsPlain (l ++ y)
starts_of [] y h ne = absurd (ne refl)
starts_of (c ∷ l) y h ne = h.0.1

zero_plain : is_break 0 ≡ false
unfolding is_break
zero_plain = refl

starts_zero : (l y : Bytes) → IsLine l → StartsPlain (l ++ 0 ∷ y)
starts_zero [] y h = zero_plain
starts_zero (c ∷ l) y h = h.0.1

clear_all :
    (b : ℕ) (bs r t : Bytes)
    → Breaks bs
    → StartsPlain r
    → clear_breaks (b ∷ (bs ++ (r ++ 0 ∷ t))) ≡ 0 ∷ (replicate (length bs) 0 ++ (r ++ 0 ∷ t))
clear_all b bs r t h k =
    let (c, y, e, n) = tail_plain r t k in rw e (clear_breaks-append b bs c y h n)

pub count_all :
    (b : ℕ) (bs r t : Bytes)
    → Breaks bs
    → StartsPlain r
    → count_breaks (b ∷ (bs ++ (r ++ 0 ∷ t))) ≡ suc (length bs)
unfolding count_breaks
count_all b bs r t h k =
    let (c, y, e, n) = tail_plain r t k in rw e (ap suc (skip_breaks-append bs (c ∷ y) h n))

-- A buffer that holds linebreaks `p`, a line, linebreaks `b ∷ bs` and the input `r`, in front of the
-- terminating 0.
module _ (p l : Bytes) (b : ℕ) (bs r t : Bytes) where
  abbrev pub filled : Buffer
  filled = record {
    ibuf = p ++ (l ++ (b ∷ (bs ++ (r ++ 0 ∷ t))));
    ilen = length p + (length l + (suc (length bs) + length r));
    del = false;
  }

  abbrev pub cleared : Bytes
  cleared = p ++ (l ++ (0 ∷ (replicate (length bs) 0 ++ (r ++ 0 ∷ t))))

  pub front : drop (length p + length l) filled.ibuf ≡ b ∷ (bs ++ (r ++ 0 ∷ t))
  front = drop-append p _ (length l) ∙ drop-length l _

  pub memory :
      Breaks bs
      → StartsPlain r
      → take (length p + length l) filled.ibuf
          ++ clear_breaks (drop (length p + length l) filled.ibuf)
        ≡ cleared
  memory hbs hr =
      rw (front, clear_all b bs r t hbs hr)
        (rw
          (
            take-append p (l ++ (b ∷ (bs ++ (r ++ 0 ∷ t)))) (length l),
            take-length l (b ∷ (bs ++ (r ++ 0 ∷ t))),
          )
          (append_assoc p l (0 ∷ (replicate (length bs) 0 ++ (r ++ 0 ∷ t)))))

  pub behind : drop (length p + length l + suc (length bs)) cleared ≡ r ++ 0 ∷ t
  behind =
      let n : length p + length l + suc (length bs) ≡ length p + (length l + suc (length bs)) =
        omega arith in
      rw n (
        drop-append p _ (length l + suc (length bs))
        ∙ drop-append l _ (suc (length bs))
        ∙ ap (λ k. drop k (replicate (length bs) 0 ++ (r ++ 0 ∷ t)))
            (sym (length-replicate (length bs) 0))
        ∙ drop-length (replicate (length bs) 0) (r ++ 0 ∷ t))

  room : length p + length l + suc (length bs) ≤ filled.ilen
  room = omega arith

  pub inside : length p + length l + suc (length bs) < length filled.ibuf
  inside = omega (
    arith,
    length-append p (l ++ (b ∷ (bs ++ (r ++ 0 ∷ t)))),
    length-append l (b ∷ (bs ++ (r ++ 0 ∷ t))),
    length-append bs (r ++ 0 ∷ t),
    length-append r (0 ∷ t),
  )

  left_over : filled.ilen - (length p + length l + suc (length bs)) ≡ length r
  left_over = omega arith

  take_line-filled :
      IsLine l
      → Breaks bs
      → StartsPlain r
      → take_line (length p) (length l) filled
        ≡ line l (record { ibuf = r ++ drop (length r) cleared; ilen = length r; del = false })
  unfolding move_down
  take_line-filled hl hbs hr =
      take_line-eq (length p) (length l) filled cleared (suc (length bs)) (memory hbs hr)
        (ap count_breaks front ∙ count_all b bs r t hbs hr) room inside
      ∙ rw
          (
            left_over,
            behind,
            take-length r (0 ∷ t),
            drop-length p (l ++ (0 ∷ (replicate (length bs) 0 ++ (r ++ 0 ∷ t)))),
          )
          (rw (c_string-append l (replicate (length bs) 0 ++ (r ++ 0 ∷ t)) hl))

  starts : IsLine l → l ≢ [] → StartsPlain (l ++ (b ∷ (bs ++ (r ++ 0 ∷ t))))
  starts = starts_of l _

  -- From a buffer that holds linebreaks, a line that is not empty, at least one linebreak, input that
  -- does not begin with a linebreak, and a 0, client_getline returns the line. Behind it the buffer
  -- begins with that input, and counts it.
  pub client_getline-filled :
      Breaks p
      → IsLine l
      → l ≢ []
      → is_break b ≡ true
      → Breaks bs
      → StartsPlain r
      → client_getline filled
        ≡ line l (record { ibuf = r ++ drop (length r) cleared; ilen = length r; del = false })
  client_getline-filled hp hl ne hb hbs hr =
      client_getline-found filled (length p) (length l) refl
        (skip_breaks-append p _ hp (starts hl ne))
        (ap find_break (drop-length p _) ∙ find_break-append l b _ hl hb (break_ne_zero b hb))
      ∙ take_line-filled hl hbs hr

client_getline-unfinished :
    (p l t : Bytes) (n : ℕ)
    → Breaks p
    → IsLine l
    → let b : Buffer = record { ibuf = p ++ (l ++ 0 ∷ t); ilen = n; del = false } in
      client_getline b ≡ (if leb client_buflen n then too_long b else no_line b)
client_getline-unfinished p l t n hp hl =
    client_getline-lost (record { ibuf = p ++ (l ++ 0 ∷ t); ilen = n; del = false }) (length p) refl
      (skip_breaks-append p (l ++ 0 ∷ t) hp (starts_zero l t hl))
      (ap find_break (drop-length p (l ++ 0 ∷ t)) ∙ find_break-none l t hl)
      (ap is_ended (drop-length p (l ++ 0 ∷ t)) ∙ is_ended-append l t)

-- Where the buffer holds linebreaks, one line that is not empty, at least one linebreak and a 0, the
-- first call of client_getline returns the line, and the next one finds nothing in a buffer that counts
-- no input.
pub one_line :
    (p l : Bytes) (b : ℕ) (bs t : Bytes)
    → Breaks p
    → IsLine l
    → l ≢ []
    → is_break b ≡ true
    → Breaks bs
    → (after : Buffer) × (client_getline (filled p l b bs [] t) ≡ line l after)
      × (after.ilen ≡ 0)
      × (client_getline after ≡ no_line after)
one_line p l b bs t hp hl ne hb hbs = (
  record { ibuf = cleared p l b bs [] t; ilen = 0; del = false },
  client_getline-filled p l b bs [] t hp hl ne hb hbs tt,
  refl,
  client_getline-unfinished p l (replicate (length bs) 0 ++ 0 ∷ t) 0 hp hl,
)
