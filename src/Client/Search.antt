-- ===== src/Client/Search.antt =====
-- What client_getline of client.c passes and finds in a text that a 0 ends.
use dudld.Common.{
  ℕ, suc, ◌==◌, ◌≡◌, refl, ap, inl, inr, ◌⊎◌, Bool-cases, arith, true, none, some, Bytes, [], ◌∷◌,
  ◌++◌, length,
}
use dudld.Client.Line.{is_break, skip_breaks, find_break, is_ended}
use dudld.Client.FirstLine.{Breaks, IsLine, StartsPlain}

-- A text in front of a 0, after the linebreaks it begins with.
pub record Skipped (pre rest : Bytes) : Type 0 where
  pub breaks : Bytes
  pub more : Bytes
  pub parts : pre ≡ breaks ++ more
  pub are_breaks : Breaks breaks
  pub starts : StartsPlain (more ++ 0 ∷ rest)
  pub skips : skip_breaks (pre ++ 0 ∷ rest) ≡ length breaks

pub skipped : (pre rest : Bytes) → Skipped pre rest
unfolding skip_breaks is_break
skipped [] rest = record {
  breaks = [];
  more = [];
  parts = refl;
  are_breaks = tt;
  starts = refl;
  skips = refl;
}
skipped (c ∷ pre) rest = elim (Bool-cases (is_break c)) [
  | inl e ↦
      let s = skipped pre rest in
      record {
        breaks = c ∷ s.breaks;
        more = s.more;
        parts = ap (λ x. c ∷ x) s.parts;
        are_breaks = (e, s.are_breaks);
        starts = s.starts;
        skips = rw e (ap suc s.skips);
      }
  | inr e ↦ record {
    breaks = [];
    more = c ∷ pre;
    parts = refl;
    are_breaks = tt;
    starts = e;
    skips = rw e refl;
  }
]

-- The first line of a text in front of a 0.
pub record Found (pre rest : Bytes) : Type 0 where
  pub text : Bytes
  pub at : ℕ
  pub more : Bytes
  pub parts : pre ≡ text ++ at ∷ more
  pub plain : IsLine text
  pub breaks : is_break at ≡ true
  pub finds : find_break (pre ++ 0 ∷ rest) ≡ some (length text)

abbrev pub Lost : Bytes → Type 0
Lost s = (find_break s ≡ none) × (is_ended s ≡ true)

pub searched : (pre rest : Bytes) → Found pre rest ⊎ Lost (pre ++ 0 ∷ rest)
unfolding find_break is_break is_ended
searched [] rest = inr (refl, refl)
searched (c ∷ pre) rest = elim (Bool-cases (c == 0)) [
  | inl z ↦ inr (ground (arith, z), ground (arith, z))
  | inr z ↦ elim (Bool-cases (is_break c)) [
    | inl e ↦ inl (record {
      text = [];
      at = c;
      more = pre;
      parts = refl;
      plain = tt;
      breaks = e;
      finds = rw (z, e) refl;
    })
    | inr e ↦ elim (searched pre rest) [
      | inl f ↦ inl (record {
        text = c ∷ f.text;
        at = f.at;
        more = f.more;
        parts = ap (λ x. c ∷ x) f.parts;
        plain = ((ground (arith, z), e), f.plain);
        breaks = f.breaks;
        finds = rw (z, e, f.finds) refl;
      })
      | inr f ↦ inr (rw (z, e, f.0) refl, rw z f.1)
    ]
  ]
]
