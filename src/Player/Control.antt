-- ===== src/Player/Control.antt =====
-- player.c, "interface functions".
use dudld.Common.{ℕ, ◌*◌, ◌/◌, true, not, none, some, ◌==◌, if◌then◌else◌}
use dudld.Player.State.{
  Pipeline, Player, pl_stop, pl_play, pl_pause, PlayError, pe_ok, pe_nothing, pe_fail, Code,
  minus_one, code, ReplayGain, stopped, random_changed, emit,
}
use dudld.Player.Backend.{
  is_stop, bp_status, bp_volume, bp_seek, bp_start, bp_finish, bp_resume, bp_pause,
}

-- `-1 == c ? PE_FAIL : PE_OK`.
abbrev pub failed_if_minus_one : Code → PlayError
failed_if_minus_one minus_one = pe_fail
failed_if_minus_one (code e) = pe_ok

-- `e ? PE_OK : PE_FAIL`, where PE_OK is 0.
abbrev pub ok_if_nonzero : PlayError → PlayError
ok_if_nonzero pe_ok = pe_fail
ok_if_nonzero _ = pe_ok

-- GST_SECOND.
abbrev pub second : ℕ
second = 1_000_000_000

module _ {g : Pipeline} where
  unfoldable pub player_setgap : ℕ → Player g → PlayError × Player g
  player_setgap n p = (pe_ok, record p { gap = n })

  unfoldable pub player_setcut : ℕ → Player g → PlayError × Player g
  player_setcut n p = (pe_ok, record p { cut = n })

  unfoldable pub player_setrgpreamp : g.Real → Player g → PlayError × Player g
  player_setrgpreamp r p =
      let (e, q) = bp_volume (record p { rgpreamp = r }) in (ok_if_nonzero e, q)

  unfoldable pub player_setrgtype : ReplayGain → Player g → PlayError × Player g
  player_setrgtype k p = let (e, q) = bp_volume (record p { rgtype = k }) in (ok_if_nonzero e, q)

  unfoldable pub player_setrandom : ℕ → Player g → PlayError × Player g
  player_setrandom r p =
      let new : ℕ = if r == 0 then 0 else 1 in
      let q = record p { do_random = new } in
      (pe_ok, if not (p.do_random == new) then emit random_changed q else q)

  unfoldable pub player_elapsed : Player g → ℕ
  player_elapsed p =
      if is_stop (bp_status p)
      then 0
      else elim (g.position p.pipe) [ none ↦ 0 | some pos ↦ pos / second ]

  unfoldable pub player_jump : ℕ → Player g → PlayError × Player g
  player_jump to_sec p =
      let (done, q) = bp_seek (to_sec * second) p in
      if is_stop (bp_status p)
      then (pe_nothing, p)
      else if not done
      then (pe_fail, q)
      else (pe_ok, q)

  -- Its second test reads the constant pl_stop, which is 0, so that it never holds.
  unfoldable pub player_pause : Player g → PlayError × Player g
  player_pause p =
      let (c, q) = bp_pause p in
      elim (bp_status p) [ pl_pause ↦ (pe_nothing, p) | _ ↦ (failed_if_minus_one c, q) ]

  unfoldable pub player_start : Player g → PlayError × Player g
  player_start p = elim (bp_status p) [
    | pl_play ↦ (pe_nothing, p)
    | pl_pause ↦ let (c, q) = bp_resume p in (failed_if_minus_one c, q)
    | pl_stop ↦ let (c, q) = bp_start p in (failed_if_minus_one c, q)
  ]

  unfoldable pub player_next : Player g → PlayError × Player g
  player_next p = let (c, q) = bp_start (bp_finish true p) in (failed_if_minus_one c, q)

  unfoldable pub player_prev : Player g → PlayError × Player g
  player_prev p = (pe_nothing, p)

  unfoldable pub player_stop : Player g → PlayError × Player g
  player_stop p =
      if is_stop (bp_status p) then (pe_nothing, p) else (pe_ok, emit stopped (bp_finish true p))
