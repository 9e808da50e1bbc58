-- ===== src/Commands/Playing.antt =====
-- proto_cmd.c: the handlers on the player and its sleep timer.
use dudld.Common.{if◌then◌else◌, ℕ, ◌++◌, none, some, codes}
use dudld.ParseExpr.Text.{print_int}
use dudld.Player.State.{
  Pipeline, Player, PlayStatus, pl_stop, pl_play, pl_pause, ReplayGain, rg_none, rg_track,
  rg_track_peak, rg_album, rg_album_peak,
}
use dudld.Player.Backend.{bp_status}
use dudld.Player.Control.{
  player_setgap, player_setcut, player_setrgpreamp, player_setrgtype, player_setrandom,
  player_elapsed, player_jump, player_pause, player_start, player_next, player_prev, player_stop,
}
use dudld.Sleep.Timer.{sleep_remain, sleep_in}
use dudld.Format.Dump.{dump_track}
use dudld.Commands.Session.{Database, World}
use dudld.Commands.Broadcast.{player_track}
use dudld.Commands.Handlers.{Handler, say, reply_player, set_player}

abbrev pub status_code : PlayStatus → ℕ
status_code pl_stop = 0
status_code pl_play = 1
status_code pl_pause = 2

abbrev pub rgtype_code : ReplayGain → ℕ
rgtype_code rg_none = 0
rgtype_code rg_track = 1
rgtype_code rg_track_peak = 2
rgtype_code rg_album = 3
rgtype_code rg_album_peak = 4

unfoldable pub player_status : {g : Pipeline} → Player g → PlayStatus
player_status p = bp_status p

unfoldable pub player_gap : {g : Pipeline} → Player g → ℕ
player_gap p = p.gap

unfoldable pub player_cut : {g : Pipeline} → Player g → ℕ
player_cut p = p.cut

unfoldable pub player_rgtype : {g : Pipeline} → Player g → ReplayGain
player_rgtype p = p.rgtype

unfoldable pub player_rgpreamp : {g : Pipeline} → Player g → g.Real
player_rgpreamp p = p.rgpreamp

unfoldable pub player_random : {g : Pipeline} → Player g → ℕ
player_random p = p.do_random

module _ {g : Pipeline} {d : Database} (w : World g) where
  unfoldable pub cmd_play : Handler g d
  cmd_play = reply_player w player_start (codes "playing")

  unfoldable pub cmd_stop : Handler g d
  cmd_stop = reply_player w player_stop (codes "stopped")

  unfoldable pub cmd_next : Handler g d
  cmd_next = reply_player w player_next (codes "playing next")

  unfoldable pub cmd_prev : Handler g d
  cmd_prev = reply_player w player_prev (codes "playing previous")

  unfoldable pub cmd_pause : Handler g d
  cmd_pause = reply_player w player_pause (codes "paused")

  unfoldable pub cmd_elapsed : Handler g d
  cmd_elapsed code s = say w code (print_int (player_elapsed s.sleep.player)) s

  -- Nothing is sent where the program ends in the jump.
  unfoldable pub cmd_jump : ℕ → Handler g d
  cmd_jump sec code s =
      let t = reply_player w (player_jump sec) (codes "jumped") code s in
      if t.sleep.player.crashed then record t { out = s.out } else t

  unfoldable pub cmd_status : Handler g d
  cmd_status code s = say w code (print_int (status_code (player_status s.sleep.player))) s

  unfoldable pub cmd_curtrack : Handler g d
  cmd_curtrack code s =
      let (o, p) = player_track s.sleep.player in
      let t = record s { sleep = record s.sleep { player = p } } in
      elim o [
        | none ↦ say w (codes "541") (codes "nothing playing (maybe in a gap?)") t
        | some x ↦ record t { out = dump_track w.host code (w.record_of x) s.out }
      ]

  unfoldable pub cmd_gap : Handler g d
  cmd_gap code s = say w code (print_int (player_gap s.sleep.player)) s

  unfoldable pub cmd_gapset : ℕ → Handler g d
  cmd_gapset gap = set_player w (player_setgap gap) (codes "gap adjusted")

  unfoldable pub cmd_cut : Handler g d
  cmd_cut code s = say w code (print_int (player_cut s.sleep.player)) s

  unfoldable pub cmd_cutset : ℕ → Handler g d
  cmd_cutset cut = set_player w (player_setcut cut) (codes "cutting adjusted")

  unfoldable pub cmd_replaygain : Handler g d
  cmd_replaygain code s = say w code (print_int (rgtype_code (player_rgtype s.sleep.player))) s

  unfoldable pub cmd_replaygainset : ReplayGain → Handler g d
  cmd_replaygainset k = set_player w (player_setrgtype k) (codes "replaygain type adjusted")

  unfoldable pub cmd_rgpreamp : Handler g d
  cmd_rgpreamp code s = say w code (w.print_real (player_rgpreamp s.sleep.player)) s

  unfoldable pub cmd_rgpreampset : g.Real → Handler g d
  cmd_rgpreampset r =
      set_player w (player_setrgpreamp r) (codes "replaygain preamplification adjusted")

  unfoldable pub cmd_random : Handler g d
  cmd_random code s = say w code (print_int (player_random s.sleep.player)) s

  unfoldable pub cmd_randomset : ℕ → Handler g d
  cmd_randomset r = set_player w (player_setrandom r) (codes "random adjusted")

  unfoldable pub cmd_sleep : Handler g d
  cmd_sleep code s = say w code (print_int (sleep_remain w.time s.sleep)) s

  unfoldable pub cmd_sleepset : ℕ → Handler g d
  cmd_sleepset sec code s =
      say w code (codes "ok, will stop in " ++ (print_int sec ++ codes " seconds"))
        (record s { sleep = sleep_in w.time sec s.sleep })
