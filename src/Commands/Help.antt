-- ===== src/Commands/Help.antt =====
-- What cmd_help of proto_cmd.c tells a client about the commands that proto_line of proto.c lets it run.
use dudld.Common.{
  Bool, true, not, leb, if◌then◌else◌, Bool-cases, inl, inr, Option, none, ◌∙◌, sym, ap, subst, ℕ,
  ◌≤◌, ◌≡◌, ◌≢◌, ◌↔◌, refl, arith, false, Bytes, List, [], ◌∷◌, some, All,
}
use dudld.Proto.Dispatch.{ProtState, p_any, Cmd, cmd_find}
use dudld.Proto.Rights.{Fits, IsFirst, here, behind, cmd_find-IsFirst, state_code-inj}
use dudld.Player.State.{Pipeline}
use dudld.Proto.Reply.{Host, Out, proto_rline, proto_rlast}
use dudld.Commands.Session.{Database, World, Session}
use dudld.Commands.Handlers.{say}
use dudld.Commands.Users.{hidden, help_loop, cmd_help, perm_of}

module _ {D : Type 0} where
  -- A command of a table.
  pub data IsIn (c : Cmd D) : List (Cmd D) → Type 0 where
    first : (cs : List (Cmd D)) → IsIn c (c ∷ cs)
    later : (e : Cmd D) (cs : List (Cmd D)) → IsIn c cs → IsIn c (e ∷ cs)

  -- No two commands of the table have the same name.
  abbrev pub AreDistinct : List (Cmd D) → Type 0
  AreDistinct [] = Unit
  AreDistinct (c ∷ cs) = All (λ e. c.name ≢ e.name) cs × AreDistinct cs

  hidden_iff :
      (state : ProtState) (perm : ℕ) (c : Cmd D)
      → (hidden state perm c ≡ false) ↔ (Fits state c × (c.perm ≤ perm))
  unfolding hidden
  hidden_iff state perm c =
      grind (arith, state_code-inj c.context state, state_code-inj c.context p_any)

  All-IsIn : (P : Cmd D → Type 0) (c : Cmd D) (cs : List (Cmd D)) → IsIn c cs → All P cs → P c
  All-IsIn P c _ (first cs) (h, hs) = h
  All-IsIn P c _ (later e cs i) (h, hs) = All-IsIn P c cs i hs

  IsFirst-Fits :
      (state : ProtState) (name : Bytes) (c : Cmd D) (cs : List (Cmd D))
      → IsFirst state name c cs
      → Fits state c
  IsFirst-Fits state name c _ (here cs f n) = f
  IsFirst-Fits state name c _ (behind e cs k i) = IsFirst-Fits state name c cs i

  IsIn-IsFirst :
      (state : ProtState) (c : Cmd D) (cs : List (Cmd D))
      → IsIn c cs
      → AreDistinct cs
      → Fits state c
      → IsFirst state c.name c cs
  IsIn-IsFirst state c _ (first cs) a f = here cs f refl
  IsIn-IsFirst state c _ (later e cs i) (h, a) f =
      behind e cs (λ k. All-IsIn (λ x. e.name ≢ x.name) c cs i h k.1)
        (IsIn-IsFirst state c cs i a f)

  -- A command of a table whose names are distinct is not passed over just where cmd_find finds it under
  -- its name and the rights reach those it asks for.
  hidden-cmd_find :
      (state : ProtState) (perm : ℕ) (cmds : List (Cmd D)) (c : Cmd D)
      → AreDistinct cmds
      → IsIn c cmds
      → (hidden state perm c ≡ false) ↔ ((cmd_find state c.name cmds ≡ some c) × (c.perm ≤ perm))
  hidden-cmd_find state perm cmds c a i =
      let h = hidden_iff state perm c in
      let f = cmd_find-IsFirst state c.name cmds c in
      (
        λ e. let (x, le) = h.0 e in (f.1 (IsIn-IsFirst state c cmds i a x), le),
        λ (e, le). h.1 (IsFirst-Fits state c.name c cmds (f.0 e), le),
      )

  IsFirst-IsIn :
      (state : ProtState) (name : Bytes) (c : Cmd D) (cs : List (Cmd D))
      → IsFirst state name c cs
      → IsIn c cs × (c.name ≡ name)
  IsFirst-IsIn state name c _ (here cs f n) = (first cs, n)
  IsFirst-IsIn state name c _ (behind e cs k i) =
      let (j, n) = IsFirst-IsIn state name c cs i in (later e cs j, n)

  -- What is found under the name of a command is that command.
  same_command :
      (state : ProtState) (c d : Cmd D) (cs : List (Cmd D))
      → IsIn c cs
      → AreDistinct cs
      → IsFirst state c.name d cs
      → d ≡ c
  same_command state c d _ (first cs) a (here _ f n) = refl
  same_command state c d _ (first cs) (h, a) (behind _ _ k i) =
      let (j, n) = IsFirst-IsIn state c.name d cs i in
      absurd (All-IsIn (λ x. c.name ≢ x.name) d cs j h (sym n))
  same_command state c d _ (later e cs j) (h, a) (here _ f n) =
      absurd (All-IsIn (λ x. e.name ≢ x.name) c cs j h n)
  same_command state c d _ (later e cs j) (h, a) (behind _ _ k i) = same_command state c d cs j a i

  -- Whether proto_line finds a command under its name and lets a client with these rights run it.
  abbrev pub is_runnable : ProtState → ℕ → List (Cmd D) → Cmd D → Bool
  is_runnable state perm cmds c = elim (cmd_find state c.name cmds) [
    | none ↦ false
    | some d ↦ leb d.perm perm
  ]

  abbrev pub keep : (Cmd D → Bool) → List (Cmd D) → List (Cmd D)
  keep p [] = []
  keep p (c ∷ cs) = let rest = keep p cs in if p c then c ∷ rest else rest

  -- A line for each command.
  abbrev pub tell : Host → Bytes → List (Cmd D) → Out → Out
  tell h code [] o = o
  tell h code (c ∷ cs) o = tell h code cs (proto_rline h code c.name o).1

  runnable_shown :
      (state : ProtState) (perm : ℕ) (cmds : List (Cmd D)) (c : Cmd D)
      → AreDistinct cmds
      → IsIn c cmds
      → hidden state perm c ≡ not (is_runnable state perm cmds c)
  runnable_shown state perm cmds c a i = elim (Bool-cases (hidden state perm c)) [
    | inl e ↦ e ∙ missing (cmd_find state c.name cmds) refl e
    | inr e ↦
        let (f, le) = (hidden-cmd_find state perm cmds c a i).0 e in
        e ∙ listed (cmd_find state c.name cmds) f le
  ]
    where
      listed :
          (o : Option (Cmd D))
          → o ≡ some c
          → c.perm ≤ perm
          → false ≡ not (elim o [ none ↦ false | some d ↦ leb d.perm perm ])
      listed o f le = rw (not, f) (ground (arith, le))

      missing :
          (o : Option (Cmd D))
          → cmd_find state c.name cmds ≡ o
          → hidden state perm c ≡ true
          → true ≡ not (elim o [ none ↦ false | some d ↦ leb d.perm perm ])
      missing none e h = refl
      missing (some d) e h = elim (Bool-cases (leb d.perm perm)) [
        | inl le ↦
            let w = (cmd_find-IsFirst state c.name cmds d).0 e in
            let same = same_command state c d cmds i a w in
            let found : cmd_find state c.name cmds ≡ some c =
              subst (λ x. cmd_find state c.name cmds ≡ some x) same e in
            let p : d.perm ≤ perm = ground (arith, le) in
            let q : c.perm ≤ perm = subst (λ (x : Cmd D). x.perm ≤ perm) same p in
            absurd (cc (h, (hidden-cmd_find state perm cmds c a i).1 (found, q)))
        | inr le ↦ rw le refl
      ]

  help_loop-tell :
      (h : Host) (code : Bytes) (state : ProtState) (perm : ℕ) (p : Cmd D → Bool)
      (cs : List (Cmd D)) (o : Out)
      → All (λ c. hidden state perm c ≡ not (p c)) cs
      → help_loop h code state perm cs o ≡ tell h code (keep p cs) o
  unfolding help_loop
  help_loop-tell h code state perm p [] o k = refl
  help_loop-tell h code state perm p (c ∷ cs) o (e, k) = elim (Bool-cases (p c)) [
    | inl y ↦ rw (e, y) (help_loop-tell h code state perm p cs _ k)
    | inr y ↦ rw (e, y) (help_loop-tell h code state perm p cs o k)
  ]

  All-runnable :
      (state : ProtState) (perm : ℕ) (cmds cs : List (Cmd D))
      → AreDistinct cmds
      → ((c : Cmd D) → IsIn c cs → IsIn c cmds)
      → All (λ c. hidden state perm c ≡ not (is_runnable state perm cmds c)) cs
  All-runnable state perm cmds [] a w = tt
  All-runnable state perm cmds (c ∷ cs) a w = (
    runnable_shown state perm cmds c a (w c (first cs)),
    All-runnable state perm cmds cs a (λ x i. w x (later c cs i)),
  )

  -- For a table whose names are distinct, what cmd_help sends is one line for each command of it that a
  -- client with its state and its rights can run, that is, that cmd_find finds under its name and whose
  -- rights it reaches, in the order of the table, and the empty last line.
  pub cmd_help-lists :
      {g : Pipeline} {d : Database} (w : World g) (cmds : List (Cmd D)) (code : Bytes)
      (s : Session g d)
      → AreDistinct cmds
      → (cmd_help w cmds code s).out
        ≡ (proto_rlast w.host code []
            (tell w.host code (keep (is_runnable s.pstate (perm_of s.user) cmds) cmds) s.out)).1
  unfolding cmd_help say
  cmd_help-lists w cmds code s a =
      ap (λ o. (proto_rlast w.host code [] o).1)
        (help_loop-tell w.host code s.pstate (perm_of s.user) _ cmds s.out
          (All-runnable s.pstate (perm_of s.user) cmds cmds a (λ c i. i)))
