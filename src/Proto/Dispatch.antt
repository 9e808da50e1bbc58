-- ===== src/Proto/Dispatch.antt =====
-- proto.c, proto_val.c and proto_arg.h: from a line to the command that it runs. A text stands for the
-- bytes before its terminating 0. The functions that parse arguments and that run commands are data of the
-- table of commands.
use dudld.Common.{
  ℕ, ◌==◌, ltb, if◌then◌else◌, Bool, true, false, not, ◌&&◌, ◌||◌, Option, none, some, Bytes, List,
  [], ◌∷◌, same_text, drop,
}
use dudld.Common.Char.{isspace, isalnum}

pub data ProtState : Type 0 where
  p_any p_open p_user p_idle : ProtState

abbrev pub state_code : ProtState → ℕ
state_code p_any = 0
state_code p_open = 1
state_code p_user = 2
state_code p_idle = 3

-- SKIPSPACE
unfoldable pub skip_space : Bytes → Bytes
skip_space [] = []
skip_space (c ∷ s) = let more = skip_space s in if isspace c then more else c ∷ s

-- val_name: the letters and digits in front, and what is behind them.
unfoldable pub val_name : Bytes → Bytes × Bytes
val_name [] = ([], [])
val_name (c ∷ s) = let more = val_name s in if isalnum c then (c ∷ more.0, more.1) else ([], c ∷ s)

-- val_string takes the whole text.
unfoldable pub val_string : Bytes → Bytes × Bytes
val_string s = (s, [])

-- A t_cmd_arg: its name, and what `parse` returns of a text, the datum and how many bytes it took.
pub record Arg (D : Type 0) : Type 0 where
  pub name : Bytes
  pub parse : Bytes → D × ℕ

-- A t_cmd.
pub record Cmd (D : Type 0) : Type 0 where
  pub name : Bytes
  pub code : Bytes
  pub context : ProtState
  pub perm : ℕ
  pub args : List (Arg D)

-- What proto_line does: it answers with an error, or calls a command's `run`.
pub data Action (D : Type 0) : Type 0 where
  invalid_command no_such_command insufficient_karma too_many missing_arguments : Action D
  invalid_argument : Bytes → Action D
  run : Cmd D → List D → Action D

-- Where the loop over the arguments stops: at one that is invalid, or behind the last one, with the
-- data, the text that is left, and whether an argument was missing.
pub data Args (D : Type 0) : Type 0 where
  bad : Bytes → Args D
  got : List D → Bytes → Bool → Args D

-- `*end && !isspace(*end)`
unfoldable pub goes_on : Bytes → Bool
goes_on [] = false
goes_on (c ∷ s) = not (isspace c)

unfoldable pub is_empty : Bytes → Bool
is_empty [] = true
is_empty (c ∷ s) = false

module _ {D : Type 0} where
  unfoldable pub right_context : ProtState → Cmd D → Bool
  right_context context c =
      state_code c.context == state_code context || state_code c.context == state_code p_any

  unfoldable pub cmd_find : ProtState → Bytes → List (Cmd D) → Option (Cmd D)
  cmd_find context name [] = none
  cmd_find context name (c ∷ cs) =
      let rest = cmd_find context name cs in
      if right_context context c && same_text c.name name then some c else rest

  abbrev pub put : D → Args D → Args D
  put d (bad name) = bad name
  put d (got ds next missing) = got (d ∷ ds) next missing

  abbrev pub miss : Args D → Args D
  miss (bad name) = bad name
  miss (got ds next missing) = got ds next true

  unfoldable pub parse_args : List (Arg D) → Bytes → Args D
  parse_args [] next = got [] next false
  parse_args (a ∷ args) next =
      let here = skip_space next in
      let (d, n) = a.parse here in
      let rest = parse_args args (drop n here) in
      let missing = parse_args args here in
      if is_empty here
      then miss missing
      else if n == 0 || goes_on (drop n here)
      then bad a.name
      else put d rest

  unfoldable pub cmd_parse : Cmd D → Bytes → Action D
  cmd_parse c line = elim (parse_args c.args line) [
    | bad name ↦ invalid_argument name
    | got ds next missing ↦
        if not (is_empty next) then too_many else if missing then missing_arguments else run c ds
  ]

  -- The rights are those of the user, or r_any, which is 0, without one.
  unfoldable pub proto_line : List (Cmd D) → ProtState → ℕ → Bytes → Action D
  proto_line cmds state perm line =
      let (scmd, behind) = val_name (skip_space line) in
      if is_empty scmd then invalid_command else elim (cmd_find state scmd cmds) [
        | none ↦ no_such_command
        | some c ↦ if ltb perm c.perm then insufficient_karma else cmd_parse c behind
      ]
