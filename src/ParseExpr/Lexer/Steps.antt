-- ===== src/ParseExpr/Lexer/Steps.antt =====
-- One step of the lexer: what PI_NEXT and parse_nonspace return where the bytes ahead are known, and
-- the loop equations of the lexer, which do not name the number of rounds that bounds them.
use dudld.Common.{
  ℕ, zero, suc, ◌+◌, ◌<◌, ◌≤◌, none, some, Bytes, [], ◌∷◌, ◌≡◌, ◌≢◌, refl, arith, length, get_or,
  drop, length-drop, ap, drop-suc, get_or-drop, get_or_nil,
}
use dudld.ParseExpr.Lexer.{ParseStat, next, left}

-- The bytes from the cursor, and from the mark.
abbrev pub At : ParseStat → Bytes → Type 0
At i l = drop i.input.cur i.input.str ≡ l

abbrev pub Marked : ParseStat → Bytes → Type 0
Marked i l = drop i.input.done i.input.str ≡ l

-- A byte that is neither the end of a C string nor read as EOF.
abbrev pub IsText : ℕ → Type 0
IsText b = (b ≢ 0) × (b ≢ 255)

abbrev pub ahead : ParseStat → ParseStat
ahead i = record i {
  input = record { str = i.input.str; cur = i.input.cur + 1; done = i.input.done };
}

pub next-At :
    (i : ParseStat) {b : ℕ} {r : Bytes} → At i (b ∷ r) → IsText b → next i ≡ (some b, ahead i)
unfolding next
next-At i h t = ground (arith, get_or-drop i.input.cur i.input.str 0 h)

pub ahead-At : (i : ParseStat) {b : ℕ} {r : Bytes} → At i (b ∷ r) → At (ahead i) r
ahead-At i h = drop-suc i.input.cur i.input.str h

pub next_eof : (i : ParseStat) → At i [] → next i ≡ (none, i)
unfolding next
next_eof i h = ground (arith, get_or_nil i.input.cur i.input.str 0 h)

get_or-lt : (xs : Bytes) (n : ℕ) → get_or xs n 0 ≢ 0 → n < length xs
get_or-lt [] n h = absurd (h refl)
get_or-lt (x ∷ xs) zero h = omega arith
get_or-lt (x ∷ xs) (suc n) h = omega (arith, get_or-lt xs n h)

-- A read that is not EOF leaves one byte less.
pub left-next : (i : ParseStat) {b : ℕ} → (next i).0 ≡ some b → left (next i).1 + 1 ≡ left i
unfolding next
left-next i h = ground (arith, get_or-lt i.input.str i.input.cur)

-- No read takes the cursor back.
pub left-next_le : (i : ParseStat) → left (next i).1 ≤ left i
unfolding next
left-next_le i = ground arith

pub left-At : (i : ParseStat) {l : Bytes} → At i l → left i ≡ length l
left-At i h = omega (arith, length-drop i.input.cur i.input.str, ap length h)
