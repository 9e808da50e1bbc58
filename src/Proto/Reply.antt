-- ===== src/Proto/Reply.antt =====
-- proto_helper.c: the lines that answer a client. The text is the one that vsnprintf makes of the format
-- and its arguments. A text stands for the bytes before its terminating 0.
use dudld.Common.{
  ℕ, ◌+◌, ◌-◌, ltb, if◌then◌else◌, Bool, true, false, Option, none, some, Bytes, List, [], ◌∷◌,
  ◌++◌, ◌||◌, map, length, take, replicate, codes,
}
use dudld.Common.Memory.{Memory, store, stores, snprintf, c_string}
use dudld.Player.State.{PlayError, pe_ok, pe_nothing, pe_busy, pe_nosup, pe_sys, pe_fail}

abbrev pub buflenline : ℕ
buflenline = 4096

-- "%3.3s"
unfoldable pub print_code : Bytes → Bytes
print_code code = replicate (3 - length code) b' ' ++ take 3 code

-- `last ? ' ' : '-'`
abbrev pub separator : Bool → ℕ
separator last = if last then b' ' else b'-'

-- The buffer on the stack is a parameter, since it is not initialised.
unfoldable pub proto_fmtline :
    (Bytes → Option Bytes) → Memory → Bool → Bytes → Bytes → Memory × Option Bytes
proto_fmtline strdup stack last code text =
    let start = stores 0 (print_code code ++ (separator last ∷ 0 ∷ [])) stack in
    let m = snprintf 4 (buflenline - 5) text start in
    let r = length text in
    let ended = store (r + 5) 0 (store (r + 4) b'\n' m) in
    if ltb (buflenline - 5) r then (m, none) else (ended, strdup (c_string ended.bytes))

-- What surrounds the replies: strdup, the array on the stack, and whether client_send takes a line
-- behind those that it took before.
pub record Host : Type 0 where
  pub strdup : Bytes → Option Bytes
  pub stack : Memory
  pub takes : List Bytes → Bytes → Bool

-- The static buffer of proto_fmt.c, the lines that the client got, each with whether it was sent as a last
-- one, whether a line could not be made or sent, and whether one was stored outside of its array.
pub record Out : Type 0 where
  pub buf : Memory
  pub sent : List (Bool × Bytes)
  pub failed : Bool
  pub overrun : Bool

module _ (h : Host) where
  -- Whether it returned a number that is not negative, and what it leaves.
  unfoldable pub proto_vline : Bool → Bytes → Bytes → Out → Bool × Out
  proto_vline last code text o =
      let (m, line) = proto_fmtline h.strdup h.stack last code text in
      let t = record o { overrun = o.overrun || m.outside } in
      let broken : Bool × Out = (false, record t { failed = true }) in
      elim line [
        | none ↦ broken
        | some l ↦
            if h.takes (map (λ x. x.1) o.sent) l
            then (true, record t { sent = o.sent ++ (last, l) ∷ [] })
            else broken
      ]

  unfoldable pub proto_rline : Bytes → Bytes → Out → Bool × Out
  proto_rline code text o = proto_vline false code text o

  unfoldable pub proto_rlast : Bytes → Bytes → Out → Bool × Out
  proto_rlast code text o = proto_vline true code text o

  -- strerror( errno ) is a parameter.
  unfoldable pub proto_player_reply : Bytes → PlayError → Bytes → Bytes → Out → Out
  proto_player_reply error pe_ok code reply o = (proto_rlast code reply o).1
  proto_player_reply error pe_nothing code reply o =
      (proto_rlast (codes "541") (codes "nothing to do") o).1
  proto_player_reply error pe_busy code reply o =
      (proto_rlast (codes "541") (codes "already doing this") o).1
  proto_player_reply error pe_nosup code reply o =
      (proto_rlast (codes "541") (codes "not supported") o).1
  proto_player_reply error pe_sys code reply o =
      (proto_rlast (codes "540") (codes "player error: " ++ error) o).1
  proto_player_reply error pe_fail code reply o =
      (proto_rlast (codes "541") (codes "player error") o).1
