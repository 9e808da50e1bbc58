-- ===== src/Player/Backend.antt =====
-- player.c, "gst backend functions": the bp_* functions, the timers and the callbacks of GStreamer.
-- The callbacks player_func_* are taken to be installed, as proto_init does before the main loop.
use dudld.Common.{
  ℕ, suc, Bool, true, false, not, ◌&&◌, Option, none, some, List, [], ◌∷◌, ◌==◌, ltb, if◌then◌else◌,
}
use dudld.Player.State.{
  Pipeline, Player, PlayStatus, pl_stop, pl_play, pl_pause, PlayError, pe_ok, pe_nothing, pe_fail,
  Code, minus_one, code, ReplayGain, rg_none, Track, null, live, dangling, newtrack, paused,
  resumed, stopped, elapsed, GstState, gst_null, gst_paused, gst_playing, emit, touch,
}
use dudld.Player.Tracks.{db_getnext, db_finish}

-- g_source_remove.
abbrev pub remove_source : ℕ → List ℕ → List ℕ
remove_source id [] = []
remove_source id (x ∷ xs) = if x == id then xs else x ∷ remove_source id xs

abbrev pub is_playing : GstState → Bool
is_playing gst_playing = true
is_playing _ = false

abbrev pub is_paused : GstState → Bool
is_paused gst_paused = true
is_paused _ = false

abbrev pub is_stop : PlayStatus → Bool
is_stop pl_stop = true
is_stop _ = false

-- The stop position that bp_seek asks for.
abbrev pub seek_stop : ℕ → ℕ → ℕ → Option ℕ
seek_stop cut to seg_to =
    if not (cut == 0) && (not (seg_to == 0) && ltb to seg_to) then some seg_to else none

unfoldable pub volume : (g : Pipeline) → ReplayGain → g.Real → Track → g.Real
volume g rg_none r t = g.unity
volume g k r t = g.volume_of t k r

module _ {g : Pipeline} where
  unfoldable pub gap_finish : Player g → Player g
  gap_finish p = record p { gap_timers = remove_source p.gap_id p.gap_timers; gap_id = 0 }

  -- g_timeout_add gives a fresh id that is not 0.
  unfoldable pub elapsed_add : Player g → Player g
  elapsed_add p = if not (p.elapsed_id == 0) then p else record p {
    elapsed_id = suc p.next_id;
    elapsed_timers = suc p.next_id ∷ p.elapsed_timers;
    next_id = suc p.next_id;
  }

  unfoldable pub elapsed_del : Player g → Player g
  elapsed_del p =
      if p.elapsed_id == 0
      then p
      else record p { elapsed_timers = remove_source p.elapsed_id p.elapsed_timers; elapsed_id = 0 }

  -- cb_elapsed_timeout keeps its timer running.
  unfoldable pub cb_elapsed_timeout : Player g → Player g
  cb_elapsed_timeout p = elim (g.position p.pipe) [
    | none ↦ emit (elapsed 0) p
    | some pos ↦ emit (elapsed pos) p
  ]

  unfoldable pub bp_status : Player g → PlayStatus
  bp_status p =
      if is_playing (g.state p.pipe)
      then pl_play
      else if not (p.gap_id == 0)
      then pl_play
      else if is_paused (g.state p.pipe)
      then pl_pause
      else pl_stop

  -- It answers PE_OK, which is 0, on both ways out.
  unfoldable pub bp_volume : Player g → PlayError × Player g
  bp_volume p = elim p.curtrack [
    | null ↦ (pe_ok, p)
    | live t ↦ (pe_ok, record p { pipe = g.set_volume (volume g p.rgtype p.rgpreamp t) p.pipe })
    | dangling t ↦
        (pe_ok, record (touch p) { pipe = g.set_volume (volume g p.rgtype p.rgpreamp t) p.pipe })
  ]

  -- It reads `curtrack` on both branches; the answer where that is NULL does not matter.
  unfoldable pub bp_seek : ℕ → Player g → Bool × Player g
  bp_seek to p =
      let go = λ (t : Track). g.seek to (seek_stop p.cut to t.seg_to) p.pipe in
      elim p.curtrack [
        | null ↦ (false, record p { crashed = true })
        | live t ↦ ((go t).0, record p { pipe = (go t).1 })
        | dangling t ↦ ((go t).0, record (touch p) { pipe = (go t).1 })
      ]

  abbrev pub change : GstState → Player g → Bool × Player g
  change s p = ((g.set_state s p.pipe).0, record p { pipe = (g.set_state s p.pipe).1 })

  -- bp_start from the track's location on: prepare, seek and play.
  unfoldable pub start_track : Track → Player g → Code × Player g
  start_track t p =
      let a = (bp_volume (touch p)).1 in
      let b = (change gst_paused a).1 in
      let c = record b { pipe = g.wait b.pipe } in
      let d = (bp_seek (if p.cut == 0 then 0 else t.seg_from) c).1 in
      let (played, e) = change gst_playing d in
      if not played
      then (code pe_fail, emit stopped (db_finish false e))
      else (code pe_ok, elapsed_add (emit newtrack e))

  unfoldable pub bp_start : Player g → Code × Player g
  bp_start p =
      let q = db_getnext p in
      if not (is_stop (bp_status p)) then (minus_one, p) else elim q.curtrack [
        | null ↦ (code pe_nothing, emit stopped q)
        | live t ↦ start_track t q
        | dangling t ↦ start_track t q
      ]

  unfoldable pub bp_finish : Bool → Player g → Player g
  bp_finish complete p =
      let a = elapsed_del p in
      let b = if not (a.gap_id == 0) then gap_finish a else a in
      let (done, c) = change gst_null b in
      if not done then db_finish false c else db_finish complete c

  unfoldable pub bp_resume : Player g → Code × Player g
  bp_resume p =
      let (done, q) = change gst_playing p in
      if not (is_paused (g.state p.pipe))
      then (minus_one, p)
      else if not done
      then (minus_one, emit stopped (bp_finish false q))
      else (code pe_ok, elapsed_add (emit resumed q))

  unfoldable pub bp_pause : Player g → Code × Player g
  bp_pause p =
      let (done, q) = change gst_paused p in
      if not (p.gap_id == 0)
      then (code pe_ok, emit stopped (gap_finish p))
      else if not (is_playing (g.state p.pipe))
      then (minus_one, p)
      else if not done
      then (minus_one, emit stopped (bp_finish false q))
      else (code pe_ok, elapsed_del (emit paused q))

  -- The timer that fires is removed, since the callback answers FALSE.
  unfoldable pub cb_gap_timeout : Player g → Player g
  cb_gap_timeout p =
      (bp_start (record p { gap_timers = remove_source p.gap_id p.gap_timers; gap_id = 0 })).1

  -- cb_bus at the end of a stream; the warning it may log reads the track.
  unfoldable pub bus_eos : Player g → Player g
  bus_eos p =
      let q = bp_finish true (touch p) in
      if not (q.gap == 0)
      then record q {
        gap_id = suc q.next_id;
        gap_timers = suc q.next_id ∷ q.gap_timers;
        next_id = suc q.next_id;
      }
      else (bp_start q).1

  -- cb_bus at an error. Its other messages are only logged.
  unfoldable pub bus_error : Player g → Player g
  bus_error p = emit stopped (bp_finish false (touch p))
