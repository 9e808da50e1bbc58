-- ===== src/Proto/Lines.antt =====
-- The line that proto_fmtline of proto_helper.c makes.
use dudld.Common.{
  ◌+◌, ◌≤◌, ltb, ltb-false, ◌≡◌, ◌≢◌, ◌↔◌, inl, inr, refl, ap, subst, subst₂, arith, Bool, true,
  Bool-cases, Bytes, [], ◌∷◌, ◌++◌, append_assoc, length, length-append, take, Option, none, All,
  All-append,
}
use dudld.Common.Memory.{
  Memory, store, stores, snprintf, c_string, Begins, Begins-front, store-next, stores-next,
  snprintf-take, c_string-Begins, take_all, IsIntact, IsIntact-Begins, Begins-IsIntact,
  store-IsIntact, store-outside,
}
use dudld.Proto.Reply.{buflenline, print_code, separator, proto_fmtline}

module _ (strdup : Bytes → Option Bytes) (stack : Memory) (last : Bool) (code text : Bytes) where
  -- The buffer behind vsnprintf.
  printed : Memory
  printed = snprintf 4 4091 text (stores 0 (print_code code ++ (separator last ∷ 0 ∷ [])) stack)

  print_code-exact : length code ≡ 3 → print_code code ≡ code
  unfolding print_code
  print_code-exact e = rw (e, take_all 3 code (omega (arith, e)))

  printed-Begins :
      IsIntact buflenline stack
      → length code ≡ 3
      → Begins (code ++ separator last ∷ [] ++ take 4090 text ++ 0 ∷ []) buflenline printed
  unfolding printed
  printed-Begins h e =
      let w = code ++ separator last ∷ [] in
      let l = length-append code (separator last ∷ []) in
      let k = length-append code (separator last ∷ 0 ∷ []) in
      let all =
        stores-next (code ++ (separator last ∷ 0 ∷ [])) (IsIntact-Begins h) (omega (arith, k, e)) in
      let head : Begins w buflenline (stores 0 (code ++ (separator last ∷ 0 ∷ [])) stack) =
        Begins-front (0 ∷ []) (rw (append_assoc code (separator last ∷ []) (0 ∷ [])) all) in
      let len : length w ≡ 4 = omega (arith, l, e) in
      rw (print_code-exact e) (
        subst
          (λ i.
            Begins (w ++ take 4090 text ++ 0 ∷ []) buflenline
              (snprintf i 4091 text (stores 0 (code ++ (separator last ∷ 0 ∷ [])) stack)))
          len (snprintf-take text 4090 head (omega (arith, len))))

  -- The array at the end.
  ended : Memory
  unfolding printed
  ended = store (length text + 5) 0 (store (length text + 4) b'\n' printed)

  ended-Begins :
      IsIntact buflenline stack
      → length code ≡ 3
      → length text ≤ 4090
      → Begins (code ++ (separator last ∷ (text ++ b'\n' ∷ [])) ++ 0 ∷ []) buflenline ended
  unfolding ended
  ended-Begins h e le =
      let w = code ++ separator last ∷ [] in
      let b : Begins (w ++ text) buflenline printed =
        subst (λ t. Begins (w ++ t) buflenline printed) (take_all 4090 text le)
          (Begins-front (0 ∷ []) (printed-Begins h e)) in
      let l : length (w ++ text) ≡ length text + 4 =
        omega (arith, e, length-append w text, length-append code (separator last ∷ [])) in
      let n = length-append (w ++ text) (b'\n' ∷ []) in
      let one = store-next b'\n' b (omega (arith, l)) in
      let two = store-next 0 one (omega (arith, l, n)) in
      let i : length (w ++ text ++ b'\n' ∷ []) ≡ length text + 5 = omega (arith, l, n) in
      let same : w ++ text ++ b'\n' ∷ [] ≡ code ++ (separator last ∷ (text ++ b'\n' ∷ [])) =
        simp append_assoc in
      subst
        (λ x.
          Begins (x ++ 0 ∷ []) buflenline
            (store (length text + 5) 0 (store (length text + 4) b'\n' printed)))
        same
        (subst₂
          (λ x y.
            Begins (w ++ text ++ b'\n' ∷ [] ++ 0 ∷ []) buflenline
              (store x 0 (store y b'\n' printed)))
          i l two)

  proto_fmtline-printed :
      ltb 4091 (length text) ≡ true → proto_fmtline strdup stack last code text ≡ (printed, none)
  unfolding proto_fmtline printed
  proto_fmtline-printed e = rw e refl

  proto_fmtline-ended :
      length text ≤ 4091
      → proto_fmtline strdup stack last code text ≡ (ended, strdup (c_string ended.bytes))
  unfolding proto_fmtline ended printed
  proto_fmtline-ended le = rw (ltb-false 4091 (length text) le) refl

  separator-nonzero : separator last ≢ 0
  separator-nonzero z = elim (Bool-cases last) [
    | inl e ↦ absurd (omega (arith, rw e at z))
    | inr e ↦ absurd (omega (arith, rw e at z))
  ]

  -- A code of three bytes and a text of at most 4090, none of them 0, make the line of the code, a
  -- blank in the last line of an answer and a '-' in the others, the text and a linebreak, and nothing
  -- is stored outside of the array.
  pub proto_fmtline-line :
      IsIntact buflenline stack
      → length code ≡ 3
      → All (λ c. c ≢ 0) code
      → All (λ c. c ≢ 0) text
      → length text ≤ 4090
      → ((proto_fmtline strdup stack last code text).1
          ≡ strdup (code ++ (separator last ∷ (text ++ b'\n' ∷ []))))
        × IsIntact buflenline (proto_fmtline strdup stack last code text).0
  proto_fmtline-line h e nc nt le =
      let b = ended-Begins h e le in
      let line = code ++ (separator last ∷ (text ++ b'\n' ∷ [])) in
      let c : c_string ended.bytes ≡ line =
        rw (b.bytes, append_assoc)
          (c_string-Begins line b.rest (
            All-append _ code _ nc
              (separator-nonzero, All-append _ text _ nt ((λ e. omega (arith, e)), tt)))) in
      rw (proto_fmtline-ended (omega (arith, le))) (ap strdup c, Begins-IsIntact b)

  -- With a code of three bytes, proto_fmtline stores a byte outside of its array just where the text
  -- has 4091 bytes.
  pub proto_fmtline-outside :
      IsIntact buflenline stack
      → length code ≡ 3
      → ((proto_fmtline strdup stack last code text).0.outside ≡ true) ↔ (length text ≡ 4091)
  proto_fmtline-outside h e = elim (Bool-cases (ltb 4091 (length text))) [
    | inl long ↦
        let i = (Begins-IsIntact (printed-Begins h e)).inside in
        rw (proto_fmtline-printed long) (
          λ f. absurd (cc (f, i)),
          λ f. absurd (cc (long, ltb-false 4091 (length text) (omega (arith, f)))),
        )
    | inr short ↦
        let le : length text ≤ 4091 = ground (arith, short) in
        let m =
          store-IsIntact (length text + 4) b'\n' (Begins-IsIntact (printed-Begins h e))
            (omega arith) in
        let o : (ended.outside ≡ true) ↔ (buflenline ≤ length text + 5) =
          unfold ended in store-outside (length text + 5) 0 m in
        rw (proto_fmtline-ended le) (λ f. omega (arith, le, o.0 f), λ f. o.1 (omega (arith, f)))
  ]
