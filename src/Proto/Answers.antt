-- ===== src/Proto/Answers.antt =====
-- What a client gets for one command: the functions of proto_helper.c and proto_fmt.c.
use dudld.Common.{
  Bool, true, false, ◌≡◌, ◌⊎◌, inl, inr, sym, ◌∙◌, ap, arith, Bool-cases, Option-cases, Bytes, List,
  [], ◌∷◌, ◌++◌, append_assoc, map, map-append,
}
use dudld.Player.State.{PlayError, pe_ok, pe_nothing, pe_busy, pe_nosup, pe_sys, pe_fail}
use dudld.Proto.Reply.{
  Host, Out, proto_fmtline, proto_vline, proto_rline, proto_rlast, proto_player_reply,
}

-- The lines of a whole answer: any number that are not last ones, and a last one.
pub data IsAnswer : List (Bool × Bytes) → Type 0 where
  only : (l : Bytes) → IsAnswer ((true, l) ∷ [])
  behind : (l : Bytes) (ls : List (Bool × Bytes)) → IsAnswer ls → IsAnswer ((false, l) ∷ ls)

-- The client got a whole answer, or a line of it could not be made or sent.
abbrev pub Answered : Out → Out → Type 0
Answered o p =
    (p.failed ≡ true) ⊎ ((ls : List (Bool × Bytes)) × IsAnswer ls × (p.sent ≡ o.sent ++ ls))

-- The client got lines to which others are to follow.
abbrev pub Continued : Out → Bool × Out → Type 0
Continued o (r, p) =
    ((r ≡ false) × (p.failed ≡ true))
    ⊎ ((ls : List Bytes) × (r ≡ true) × (p.sent ≡ o.sent ++ map (λ l. (false, l)) ls))

-- Lines to which others follow, in front of a whole answer.
pub IsAnswer-append :
    (ls : List Bytes) (rest : List (Bool × Bytes))
    → IsAnswer rest
    → IsAnswer (map (λ l. (false, l)) ls ++ rest)
IsAnswer-append [] rest h = h
IsAnswer-append (l ∷ ls) rest h = behind l _ (IsAnswer-append ls rest h)

-- Lines to which others follow, and more of them.
pub lines-append :
    (o p q : Out) (ls ks : List Bytes)
    → p.sent ≡ o.sent ++ map (λ l. (false, l)) ls
    → q.sent ≡ p.sent ++ map (λ l. (false, l)) ks
    → q.sent ≡ o.sent ++ map (λ l. (false, l)) (ls ++ ks)
lines-append o p q ls ks e u =
    u
    ∙ ap (λ x. x ++ map (λ l. (false, l)) ks) e
    ∙ append_assoc o.sent (map (λ l. (false, l)) ls) (map (λ l. (false, l)) ks)
    ∙ ap (λ x. o.sent ++ x) (sym (map-append (λ l. (false, l)) ls ks))

module _ (h : Host) where
  -- A line was sent, or not.
  pub Sent : Bool → Out → Bool × Out → Type 0
  Sent last o (r, p) =
      ((r ≡ false) × (p.failed ≡ true))
      ⊎ ((l : Bytes) × (r ≡ true) × (p.sent ≡ o.sent ++ (last, l) ∷ []))

  proto_vline-Sent :
      (last : Bool) (code text : Bytes) (o : Out) → Sent last o (proto_vline h last code text o)
  unfolding proto_vline Sent
  proto_vline-Sent last code text o =
      elim (Option-cases (proto_fmtline h.strdup h.stack last code text).1) [
        | inl e ↦ inl (ground (arith, e), ground (arith, e))
        | inr (l, e) ↦ elim (Bool-cases (h.takes (map (λ x. x.1) o.sent) l)) [
          | inl t ↦ inr (l, ground (arith, e, t), ground (arith, e, t))
          | inr t ↦ inl (ground (arith, e, t), ground (arith, e, t))
        ]
      ]

  -- What could not be sent is not forgotten.
  pub proto_vline-failed :
      (last : Bool) (code text : Bytes) (o : Out)
      → o.failed ≡ true
      → (proto_vline h last code text o).1.failed ≡ true
  unfolding proto_vline
  proto_vline-failed last code text o f =
      elim (Option-cases (proto_fmtline h.strdup h.stack last code text).1) [
        | inl e ↦ ground (arith, e)
        | inr (l, e) ↦ ground (arith, e, f)
      ]

  pub proto_rlast-Answered :
      (code text : Bytes) (o : Out) → Answered o (proto_rlast h code text o).1
  unfolding proto_rlast Sent
  proto_rlast-Answered code text o = elim (proto_vline-Sent true code text o) [
    | inl (r, f) ↦ inl f
    | inr (l, r, s) ↦ inr ((true, l) ∷ [], only l, s)
  ]

  pub proto_rline-Continued :
      (code text : Bytes) (o : Out) → Continued o (proto_rline h code text o)
  unfolding proto_rline Sent
  proto_rline-Continued code text o = elim (proto_vline-Sent false code text o) [
    | inl f ↦ inl f
    | inr (l, r, s) ↦ inr (l ∷ [], r, s)
  ]

  pub proto_player_reply-Answered :
      (error : Bytes) (e : PlayError) (code reply : Bytes) (o : Out)
      → Answered o (proto_player_reply h error e code reply o)
  unfolding proto_player_reply
  proto_player_reply-Answered error pe_ok code reply o = proto_rlast-Answered _ _ o
  proto_player_reply-Answered error pe_nothing code reply o = proto_rlast-Answered _ _ o
  proto_player_reply-Answered error pe_busy code reply o = proto_rlast-Answered _ _ o
  proto_player_reply-Answered error pe_nosup code reply o = proto_rlast-Answered _ _ o
  proto_player_reply-Answered error pe_sys code reply o = proto_rlast-Answered _ _ o
  proto_player_reply-Answered error pe_fail code reply o = proto_rlast-Answered _ _ o

  -- A last line behind others.
  pub Continued-last :
      (code text : Bytes) (o p : Out) (ls : List Bytes)
      → p.sent ≡ o.sent ++ map (λ l. (false, l)) ls
      → Answered o (proto_rlast h code text p).1
  Continued-last code text o p ls e = elim (proto_rlast-Answered code text p) [
    | inl f ↦ inl f
    | inr (ks, a, s) ↦ inr (
      map (λ l. (false, l)) ls ++ ks,
      IsAnswer-append ls ks a,
      s ∙ ap (λ x. x ++ ks) e ∙ append_assoc o.sent (map (λ l. (false, l)) ls) ks,
    )
  ]
