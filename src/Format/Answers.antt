-- ===== src/Format/Answers.antt =====
-- What a client gets for one command: the functions of proto_fmt.c that send records.
use dudld.Common.{
  Bool, true, false, ◌≡◌, inl, inr, refl, sym, ap, Bytes, List, [], ◌∷◌, ◌++◌, append-nil, Option,
  none, some, codes,
}
use dudld.Common.Memory.{Memory}
use dudld.Proto.Reply.{Host, Out, proto_rline, proto_rlast}
use dudld.Proto.Answers.{
  Answered, Continued, proto_rlast-Answered, proto_rline-Continued, Continued-last, lines-append,
}
use dudld.Format.Dump.{dump_one, dump_loop, dump_all}

module _ {X : Type 0} (h : Host)
    (mk : (Bytes → Option Bytes) → Memory → X → Memory × Option Bytes) where
  -- A record that was formatted or not.
  formatted-Answered :
      (code : Bytes) (o : Out) (m : Memory) (fmt : Option Bytes)
      → let p = record o { buf = m } in
        Answered o (elim fmt [
          | none ↦ (proto_rlast h (codes "501") (codes "failed to format") p).1
          | some s ↦ (proto_rlast h code s p).1
        ])
  formatted-Answered code o m none = proto_rlast-Answered h _ _ (record o { buf = m })
  formatted-Answered code o m (some s) = proto_rlast-Answered h _ _ (record o { buf = m })

  pub dump_one-Answered : (code : Bytes) (t : X) (o : Out) → Answered o (dump_one h mk code t o)
  unfolding dump_one
  dump_one-Answered code t o =
      formatted-Answered code o (mk h.strdup o.buf t).0 (mk h.strdup o.buf t).1

  -- One turn of the loop.
  abbrev turn : Bytes → Out → Option Bytes → Bool × Out
  turn code p none = (true, p)
  turn code p (some s) = proto_rline h code s p

  turn-Continued :
      (code : Bytes) (o : Out) (m : Memory) (fmt : Option Bytes)
      → Continued o (turn code (record o { buf = m }) fmt)
  turn-Continued code o m none = inr ([], refl, sym (append-nil o.sent))
  turn-Continued code o m (some s) = proto_rline-Continued h code s (record o { buf = m })

  dump_loop-stops :
      (code : Bytes) (t : X) (ts : List X) (o : Out)
      → let r = turn code (record o { buf = (mk h.strdup o.buf t).0 }) (mk h.strdup o.buf t).1 in
        r.0 ≡ false → dump_loop h mk code (t ∷ ts) o ≡ r
  unfolding dump_loop
  dump_loop-stops code t ts o e =
      let r = turn code (record o { buf = (mk h.strdup o.buf t).0 }) (mk h.strdup o.buf t).1 in
      rw e (ap (λ b. (b, r.1)) (sym e))

  dump_loop-goes_on :
      (code : Bytes) (t : X) (ts : List X) (o : Out)
      → let r = turn code (record o { buf = (mk h.strdup o.buf t).0 }) (mk h.strdup o.buf t).1 in
        r.0 ≡ true → dump_loop h mk code (t ∷ ts) o ≡ dump_loop h mk code ts r.1
  unfolding dump_loop
  dump_loop-goes_on code t ts o e = rw e refl

  dump_loop-Continued :
      (code : Bytes) (ts : List X) (o : Out) → Continued o (dump_loop h mk code ts o)
  dump_loop-Continued code [] o = unfold dump_loop in inr ([], refl, sym (append-nil o.sent))
  dump_loop-Continued code (t ∷ ts) o =
      let (m, fmt) = mk h.strdup o.buf t in
      let r = turn code (record o { buf = m }) fmt in
      elim (turn-Continued code o m fmt) [
        | inl (e, f) ↦ rw (dump_loop-stops code t ts o e) (inl (e, f))
        | inr (ls, e, s) ↦
            rw (dump_loop-goes_on code t ts o e) (elim (dump_loop-Continued code ts r.1) [
              | inl f ↦ inl f
              | inr (ks, k, u) ↦
                  inr (ls ++ ks, k, lines-append o r.1 (dump_loop h mk code ts r.1).1 ls ks s u)
            ])
      ]

  pub dump_all-Answered :
      (code : Bytes) (ts : List X) (o : Out) → Answered o (dump_all h mk code ts o)
  unfolding dump_all
  dump_all-Answered code ts o = elim (dump_loop-Continued code ts o) [
    | inl (r, f) ↦ rw r (inl f)
    | inr (ls, r, s) ↦ rw r (Continued-last h code [] o _ ls s)
  ]
