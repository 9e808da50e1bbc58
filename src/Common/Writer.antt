-- ===== src/Common/Writer.antt =====
-- Code that prints into an array piece by piece with snprintf, counts what it would have printed, and
-- returns as soon as that is more than the array holds.
use Prim.Native.Nat.{ℕ, zero, suc, ◌+◌, ◌-◌, ◌^◌, ◌≤◌, ◌<◌}
use mathlib.Core.Path.{◌≡◌, refl, sym, ◌∙◌, ap, subst, subst₂}
use mathlib.Core.Logic.{inl, inr}
use mathlib.Core.List.{[], ◌∷◌, ◌++◌, append_assoc, append-nil}
use mathlib.Core.Bool.{Bool, true, false}
use native.Mathlib.Omega.{arith}
use dudld.Common.Tests.{ltb, ltb→lt, if◌then◌else◌, Bool-cases}
use dudld.Common.Lists.{Bytes, length, take, length-append, length-take, take-append}
use dudld.Common.Memory.{Memory, snprintf, Begins, snprintf-take, Begins-front}

-- Printing into an array from a place on, into so many bytes. The answer is the array and the number of
-- bytes that were to be printed.
abbrev pub Writer : Type 0
Writer = Memory → ℕ → ℕ → Memory × ℕ

-- used += snprintf( buf +used, len -used, ... )
unfoldable pub emit : Bytes → Writer
emit s m at len = (snprintf at len s m, length s)

-- Nothing is printed.
unfoldable pub skip : Writer
skip m at len = (m, 0)

-- `len -used` as a size_t of 64 bits.
unfoldable pub size_sub : ℕ → ℕ → ℕ
size_sub len u = if ltb len u then len + 2 ^ 64 - u else len - u

pub size_sub-fits : (len u : ℕ) → ltb len u ≡ false → size_sub len u ≡ len - u
unfolding size_sub
size_sub-fits len u e = rw e refl

infixr 60 ◌▸◌
-- `if( used > len ) return used;` between two pieces
unfoldable pub ◌▸◌ : Writer → Writer → Writer
(a ▸ b) m at len =
    let (m1, u) = a m at len in
    let (m2, v) = b m1 (at + u) (size_sub len u) in if ltb len u then (m1, u) else (m2, u + v)

-- What an array of some bytes holds of a text: as much as fits in front of a 0.
abbrev pub shown : ℕ → Bytes → Bytes
shown zero s = []
shown (suc k) s = take k s ++ 0 ∷ []

-- The array holds what fits of the text, nothing is stored outside of the bytes that it was given, and the
-- count is the length of the text, or it tells that the text does not fit.
pub record Printed (s : Bytes) (w : Bytes) (n len : ℕ) (r : Memory × ℕ) : Type 0 where
  pub begins : Begins (w ++ shown len s) n r.0
  pub exact : r.1 ≤ len → r.1 ≡ length s
  pub more : len < r.1 → len < length s

-- What the array holds before: the 0 behind an empty text where something was printed before.
abbrev pub front : Bool → ℕ → Bytes
front false len = []
front true len = shown len []

-- A writer prints a text, where something was printed before or not.
abbrev pub Prints : Bool → Writer → Bytes → Type 0
Prints started p s =
    (w : Bytes) (n : ℕ) (m : Memory) (len : ℕ)
    → Begins (w ++ front started len) n m
    → length w + len ≤ n
    → Printed s w n len (p m (length w) len)

pub Prints-emit : (started : Bool) (s : Bytes) → Prints started (emit s) s
unfolding emit snprintf
Prints-emit started s w n m zero h le = record {
  begins = rw append-nil (Begins-front (front started 0) h);
  exact = λ x. refl;
  more = λ x. x;
}
Prints-emit started s w n m (suc k) h le = record {
  begins =
      rw (sym (append_assoc w (take k s) (0 ∷ [])))
        (snprintf-take s k (Begins-front (front started (suc k)) h) (omega arith));
  exact = λ x. refl;
  more = λ x. x;
}

pub Prints-skip : Prints true skip []
unfolding skip
Prints-skip w n m len h le = record {
  begins = h;
  exact = λ x. refl;
  more = λ x. absurd (omega (arith, x));
}

pub Prints-started : (p : Writer) (s : Bytes) → Prints false p s → Prints true p s
Prints-started p s h w n m len b le = h w n m len (rw append-nil (Begins-front (shown len []) b)) le

take-short : (k : ℕ) (s t : Bytes) → k ≤ length s → take k (s ++ t) ≡ take k s
take-short zero s t le = refl
take-short (suc k) [] t le = absurd (omega arith)
take-short (suc k) (x ∷ s) t le = rw (take-short k s t (omega arith)) refl

shown-long : (len : ℕ) (s t : Bytes) → len ≤ length s → shown len (s ++ t) ≡ shown len s
shown-long zero s t le = refl
shown-long (suc k) s t le = rw (take-short k s t (omega arith)) refl

shown-more :
    (s : Bytes) (k : ℕ) (t : Bytes) → shown (length s + suc k) (s ++ t) ≡ s ++ shown (suc k) t
shown-more s k t =
    let e : suc (length s + k) ≡ length s + suc k = omega arith in
    subst (λ i. shown i (s ++ t) ≡ s ++ shown (suc k) t) e
      (ap (λ r. r ++ 0 ∷ []) (take-append s t k) ∙ append_assoc s (take k t) (0 ∷ []))

length-shown : (len : ℕ) (s : Bytes) → len ≤ length s → length (shown len s) ≡ len
length-shown zero s le = refl
length-shown (suc k) s le = omega (arith, length-append (take k s) (0 ∷ []), length-take k s)

module _ (b : Writer) (t : Bytes) (q : Prints true b t) where
  -- What prints behind a text that fits.
  behind :
      (s w : Bytes) (n : ℕ) (m : Memory) (k : ℕ)
      → Begins (w ++ shown (length s + suc k) s) n m
      → length w + (length s + suc k) ≤ n
      → let r = b m (length w + length s) (suc k) in Printed t (w ++ s) n (suc k) r
  behind s w n m k h le =
      let e : shown (length s + suc k) s ≡ s ++ shown (suc k) [] =
        ap (shown (length s + suc k)) (sym (append-nil s)) ∙ shown-more s k [] in
      let start : Begins (w ++ s ++ shown (suc k) []) n m =
        subst (λ x. Begins x n m) (ap (λ x. w ++ x) e ∙ sym (append_assoc w s (shown (suc k) [])))
          h in
      let l = length-append w s in
      subst (λ i. Printed t (w ++ s) n (suc k) (b m i (suc k))) l
        (q (w ++ s) n m (suc k) start (omega (arith, l)))

  second :
      (s w : Bytes) (n : ℕ) (m : Memory) (d : ℕ)
      → Begins (w ++ shown (length s + d) s) n m
      → length w + (length s + d) ≤ n
      → let r = b m (length w + length s) d in
        Printed (s ++ t) w n (length s + d) (r.0, length s + r.1)
  second s w n m zero h le =
      let long = length-shown (length s + 0) s (omega arith) in
      let l = length-append w (shown (length s + 0) s) in
      let e : length (w ++ shown (length s + 0) s) ≡ length w + length s = omega (arith, l, long) in
      let m1 = (b m (length w + length s) 0).0 in
      let r =
        subst (λ i. Printed t (w ++ shown (length s + 0) s) n 0 (b m i 0)) e
          (q (w ++ shown (length s + 0) s) n m 0 (rw append-nil h) (omega (arith, l, long, le))) in
      let all = length-append s t in
      record {
        begins =
            subst (λ x. Begins (w ++ x) n m1) (sym (shown-long (length s + 0) s t (omega arith)))
              (rw append-nil at r.begins);
        exact = λ x. omega (arith, x, all, r.exact (omega (arith, x)));
        more = λ x. omega (arith, x, all, r.more (omega (arith, x)));
      }
  second s w n m (suc k) h le =
      let r = behind s w n m k h le in
      let m1 = (b m (length w + length s) (suc k)).0 in
      let all = length-append s t in
      record {
        begins =
            subst (λ x. Begins x n m1)
              (append_assoc w s (shown (suc k) t) ∙ ap (λ x. w ++ x) (sym (shown-more s k t)))
              r.begins;
        exact = λ x. omega (arith, x, all, r.exact (omega (arith, x)));
        more = λ x. omega (arith, x, all, r.more (omega (arith, x)));
      }

pub Prints-then :
    (started : Bool) (a b : Writer) (s t : Bytes)
    → Prints started a s
    → Prints true b t
    → Prints started (a ▸ b) (s ++ t)
unfolding ◌▸◌ size_sub
Prints-then started a b s t p q w n m len h le =
    let r = p w n m len h le in
    let l = length-append s t in
    let m1 = (a m (length w) len).0 in
    elim (Bool-cases (ltb len (a m (length w) len).1)) [
      | inl e ↦
          let long = r.more (ltb→lt len _ e) in
          rw e (record {
            begins =
                subst (λ x. Begins (w ++ x) n m1) (sym (shown-long len s t (omega (arith, long))))
                  r.begins;
            exact = λ x. absurd (omega (arith, x, ltb→lt len _ e));
            more = λ x. omega (arith, l, long);
          })
      | inr e ↦
          let le1 : (a m (length w) len).1 ≤ len = ground (arith, e) in
          let same = r.exact le1 in
          let d = len - (a m (length w) len).1 in
          let whole : length s + d ≡ len = omega (arith, same, le1) in
          let r2 =
            second b t q s w n m1 d (subst (λ i. Begins (w ++ shown i s) n m1) (sym whole) r.begins)
              (omega (arith, whole)) in
          rw e (
            subst₂
              (λ u i.
                Printed (s ++ t) w n i ((b m1 (length w + u) d).0, u + (b m1 (length w + u) d).1))
              (sym same) whole r2)
    ]
