-- ===== src/Sql/Asking.antt =====
-- Code that prints into an array piece by piece, as Common/Writer has it, and changes a state in between.
use dudld.Common.{
  ℕ, ◌+◌, ◌≤◌, ◌<◌, ◌≡◌, refl, sym, subst, ◌∙◌, ap, arith, ltb, ltb→lt, Bool, true, false, Bytes,
  ◌++◌, if◌then◌else◌,
}
use mathlib.Core.Path.{fun_ext}
use dudld.Common.Memory.{Memory}
use dudld.Common.Writer.{Writer, ◌▸◌, size_sub, size_sub-fits, Prints, Prints-then}

abbrev pub Asking : Type 0 → Type 0
Asking S = Memory → ℕ → ℕ → S → S × (Memory × ℕ)

module _ {S : Type 0} where
  -- What asks for nothing.
  abbrev pub just : Writer → Asking S
  just p m at len s = (s, p m at len)

  infixr 60 ◌▹◌
  -- `if( used > len ) return used;` between two pieces
  unfoldable pub ◌▹◌ : Asking S → Asking S → Asking S
  (a ▹ b) m at len s =
      let (s1, (m1, u)) = a m at len s in
      let (s2, (m2, v)) = b m1 (at + u) (size_sub len u) s1 in
      if ltb len u then (s1, (m1, u)) else (s2, (m2, u + v))

  -- What is printed from a state on.
  abbrev pub printed : Asking S → S → Writer
  printed a s m at len = (a m at len s).1

  -- From every state some text is printed, and where all of it fits, a state follows that does not depend
  -- on the array.
  pub record Does (a : Asking S) : Type 0 where
    pub text : S → Bytes
    pub end : S → S
    pub prints : (s : S) → Prints true (printed a s) (text s)
    pub ends :
        (m : Memory) (at len : ℕ) (s : S) → (a m at len s).1.1 ≤ len → (a m at len s).0 ≡ end s

  unfoldable pub Does-just : (p : Writer) (t : Bytes) → Prints true p t → Does (just p)
  Does-just p t h = record {
    text = λ s. t;
    end = λ s. s;
    prints = λ s. h;
    ends = λ m at len s le. refl;
  }

  pub by_branch :
      (e : Bool) (x y : S × (Memory × ℕ)) (z : Memory × ℕ)
      → (e ≡ false → y.1 ≡ z)
      → (if e then x else y).1 ≡ (if e then x.1 else z)
  by_branch true x y z h = refl
  by_branch false x y z h = h refl

  pub end_of_branch :
      (e : Bool) (x y : S × (Memory × ℕ)) (len : ℕ) (t : S)
      → (e ≡ true → len < x.1.1)
      → (e ≡ false → y.1.1 ≤ len → y.0 ≡ t)
      → (if e then x else y).1.1 ≤ len
      → (if e then x else y).0 ≡ t
  end_of_branch true x y len t h k le = absurd (omega (arith, h refl, le))
  end_of_branch false x y len t h k le = k refl le

  module _ (a b : Asking S) (da : Does a) where
    -- Where the first piece fits, the second is printed from the state behind it.
    pub behind :
        (m : Memory) (at len : ℕ) (s : S)
        → ltb len (a m at len s).1.1 ≡ false
        → (a m at len s).0 ≡ da.end s
    behind m at len s e = da.ends m at len s (ground (arith, e))

    pub same_writer : (s : S) → printed (a ▹ b) s ≡ (printed a s ▸ printed b (da.end s))
    unfolding ◌▹◌ ◌▸◌
    same_writer s = fun_ext λ m. fun_ext λ at. fun_ext λ len.
        by_branch (ltb len (a m at len s).1.1) _ _ _ λ e.
          ap
            (λ t.
              let r =
                (b (a m at len s).1.0 (at + (a m at len s).1.1) (size_sub len (a m at len s).1.1)
                  t).1 in
              (r.0, (a m at len s).1.1 + r.1))
            (behind m at len s e)

    pub then-ends :
        (db : Does b) (m : Memory) (at len : ℕ) (s : S)
        → ((a ▹ b) m at len s).1.1 ≤ len
        → ((a ▹ b) m at len s).0 ≡ db.end (da.end s)
    unfolding ◌▹◌
    then-ends db m at len s =
        end_of_branch (ltb len (a m at len s).1.1) _ _ len _ (ltb→lt _ _) λ e le.
          db.ends _ _ _ _ (omega (arith, le, size_sub-fits len (a m at len s).1.1 e))
          ∙ ap db.end (behind m at len s e)

    unfoldable pub Does-then : Does b → Does (a ▹ b)
    Does-then db = record {
      text = λ s. da.text s ++ db.text (da.end s);
      end = λ s. db.end (da.end s);
      prints = λ s.
          subst (λ p. Prints true p (da.text s ++ db.text (da.end s))) (sym (same_writer s))
            (Prints-then true _ _ _ _ (da.prints s) (db.prints (da.end s)));
      ends = then-ends db;
    }
