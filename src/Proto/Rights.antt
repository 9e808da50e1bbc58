-- ===== src/Proto/Rights.antt =====
-- Which command proto_line of proto.c runs, and for whom.
use dudld.Common.{
  ℕ, ◌≤◌, ◌≡◌, ◌⊎◌, inl, inr, sym, ◌∙◌, subst, Bool-cases, ◌↔◌, arith, Bool, true, false, ◌&&◌,
  some, Bytes, List, [], ◌∷◌, same_text, same_text_iff, length,
}
use dudld.Proto.Dispatch.{
  ProtState, p_any, state_code, skip_space, val_name, Arg, Cmd, run, got, right_context, cmd_find,
  parse_args, cmd_parse, proto_line,
}

pub state_code-inj : (a b : ProtState) → state_code a ≡ state_code b → a ≡ b
state_code-inj a b h = ground arith

module _ {D : Type 0} where
  -- The command may be used in a state: it is for that state, or for any.
  abbrev pub Fits : ProtState → Cmd D → Type 0
  Fits state c = (c.context ≡ state) ⊎ (c.context ≡ p_any)

  -- The first command of the table with the name that fits the state.
  pub data IsFirst (state : ProtState) (name : Bytes) (c : Cmd D) : List (Cmd D) → Type 0 where
    here : (cs : List (Cmd D)) → Fits state c → c.name ≡ name → IsFirst state name c (c ∷ cs)
    behind :
        (d : Cmd D) (cs : List (Cmd D))
        → ¬ (Fits state d × (d.name ≡ name))
        → IsFirst state name c cs
        → IsFirst state name c (d ∷ cs)

  right_context_iff :
      (state : ProtState) (c : Cmd D) → (right_context state c ≡ true) ↔ Fits state c
  unfolding right_context
  right_context_iff state c =
      grind (arith, state_code-inj c.context state, state_code-inj c.context p_any)

  fits_name : ProtState → Bytes → Cmd D → Bool
  unfolding right_context
  fits_name state name c = right_context state c && same_text c.name name

  fits_name_iff :
      (state : ProtState) (name : Bytes) (c : Cmd D)
      → (fits_name state name c ≡ true) ↔ (Fits state c × (c.name ≡ name))
  unfolding fits_name
  fits_name_iff state name c = ground (arith, right_context_iff state c, same_text_iff c.name name)

  cmd_find-first :
      (state : ProtState) (name : Bytes) (d : Cmd D) (cs : List (Cmd D))
      → fits_name state name d ≡ true
      → cmd_find state name (d ∷ cs) ≡ some d
  unfolding cmd_find fits_name
  cmd_find-first state name d cs h = ground (arith, h)

  cmd_find-skips :
      (state : ProtState) (name : Bytes) (d : Cmd D) (cs : List (Cmd D))
      → fits_name state name d ≡ false
      → cmd_find state name (d ∷ cs) ≡ cmd_find state name cs
  unfolding cmd_find fits_name
  cmd_find-skips state name d cs h = ground (arith, h)

  found :
      (state : ProtState) (name : Bytes) (cs : List (Cmd D)) (c : Cmd D)
      → cmd_find state name cs ≡ some c
      → IsFirst state name c cs
  unfolding cmd_find
  found state name [] c h = cc
  found state name (d ∷ cs) c h = elim (Bool-cases (fits_name state name d)) [
    | inl e ↦
        let (f, n) = (fits_name_iff state name d).0 e in
        let same : d ≡ c = ground (arith, cmd_find-first state name d cs e, h) in
        subst (λ x. IsFirst state name x (d ∷ cs)) same (here cs f n)
    | inr e ↦
        behind d cs (λ k. (cc (e, (fits_name_iff state name d).1 k)))
          (found state name cs c (sym (cmd_find-skips state name d cs e) ∙ h))
  ]

  finds :
      (state : ProtState) (name : Bytes) (c : Cmd D) (cs : List (Cmd D))
      → IsFirst state name c cs
      → cmd_find state name cs ≡ some c
  finds state name c _ (here cs f n) =
      cmd_find-first state name c cs ((fits_name_iff state name c).1 (f, n))
  finds state name c _ (behind d cs k w) = elim (Bool-cases (fits_name state name d)) [
    | inl e ↦ absurd (k ((fits_name_iff state name d).0 e))
    | inr e ↦ cmd_find-skips state name d cs e ∙ finds state name c cs w
  ]

  -- cmd_find finds a command just where it is the first of the table that has the name and fits the state.
  pub cmd_find-IsFirst :
      (state : ProtState) (name : Bytes) (cs : List (Cmd D)) (c : Cmd D)
      → (cmd_find state name cs ≡ some c) ↔ IsFirst state name c cs
  cmd_find-IsFirst state name cs c = (found state name cs c, finds state name c cs)

  parse_args-length :
      (args : List (Arg D)) (s : Bytes) (ds : List D) (next : Bytes)
      → parse_args args s ≡ got ds next false
      → length ds ≡ length args
  unfolding parse_args
  parse_args-length [] s ds next h = ground arith
  parse_args-length (a ∷ args) s ds next h = grind (arith, parse_args-length args)

  cmd_parse-run :
      (c d : Cmd D) (line : Bytes) (ds : List D)
      → cmd_parse c line ≡ run d ds
      → (c ≡ d) × (length ds ≡ length c.args)
  unfolding cmd_parse
  cmd_parse-run c d line ds h = grind (arith, parse_args-length c.args line)

  proto_line-parses :
      (cmds : List (Cmd D)) (state : ProtState) (perm : ℕ) (line : Bytes) (c : Cmd D) (ds : List D)
      → proto_line cmds state perm line ≡ run c ds
      → (d : Cmd D) × (cmd_find state (val_name (skip_space line)).0 cmds ≡ some d)
        × (d.perm ≤ perm)
        × (cmd_parse d (val_name (skip_space line)).1 ≡ run c ds)
  unfolding proto_line
  proto_line-parses cmds state perm line c ds h = ground arith

  -- proto_line runs a command only for a line that begins with its name, in a state that it is for, for
  -- a user whose rights reach those it asks for, and with a datum for each of its arguments.
  pub proto_line-run :
      (cmds : List (Cmd D)) (state : ProtState) (perm : ℕ) (line : Bytes) (c : Cmd D) (ds : List D)
      → proto_line cmds state perm line ≡ run c ds
      → IsFirst state (val_name (skip_space line)).0 c cmds
        × (c.perm ≤ perm)
        × (length ds ≡ length c.args)
  unfolding proto_line
  proto_line-run cmds state perm line c ds h =
      let (d, e, le, p) = proto_line-parses cmds state perm line c ds h in
      let (same, n) = cmd_parse-run d c _ ds p in
      subst
        (λ x.
          IsFirst state (val_name (skip_space line)).0 x cmds
          × (x.perm ≤ perm)
          × (length ds ≡ length x.args))
        same (found state _ cmds d e, le, n)
