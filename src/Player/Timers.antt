-- ===== src/Player/Timers.antt =====
-- The timers of player.c: the ids that it keeps are those of the timers that run.
use dudld.Common.{ℕ, Bool, true, false, List, [], ◌∷◌, ◌≡◌, ◌≢◌, ◌⊎◌, arith}
use dudld.Player.State.{Pipeline, Player, Track, touch}
use dudld.Player.Tracks.{db_getnext, db_finish, next_random, finish_track}
use dudld.Player.Backend.{
  gap_finish, elapsed_add, elapsed_del, cb_elapsed_timeout, bp_start, start_track, bp_volume,
  bp_seek, bp_finish, bp_resume, bp_pause, cb_gap_timeout, bus_eos, bus_error,
}
use dudld.Player.Step.{
  Step, set_gap, set_cut, set_rgpreamp, set_rgtype, set_random, jump, pause, start, next, stop,
  gap_over, second_over, end_of_stream, stream_error, world, Reach, here, more,
}
use dudld.Player.Control.{
  player_setgap, player_setcut, player_setrgpreamp, player_setrgtype, player_setrandom, player_jump,
  player_pause, player_start, player_next, player_stop,
}

-- A kept id is that of the one timer that runs, or 0 with none running.
abbrev pub Keeps : ℕ → List ℕ → Type 0
Keeps id timers = ((id ≡ 0) × (timers ≡ [])) ⊎ ((id ≢ 0) × (timers ≡ id ∷ []))

pub record HasTimers {g : Pipeline} (p : Player g) : Type 0 where
  pub gap : Keeps p.gap_id p.gap_timers
  pub elapsed : Keeps p.elapsed_id p.elapsed_timers

module _ {g : Pipeline} where
  gap_finish-HasTimers :
      (p : Player g) → HasTimers p → HasTimers (gap_finish p) × ((gap_finish p).gap_id ≡ 0)
  unfolding gap_finish
  gap_finish-HasTimers p h = ground arith

  elapsed_add-HasTimers : (p : Player g) → HasTimers p → HasTimers (elapsed_add p)
  unfolding elapsed_add
  elapsed_add-HasTimers p h = ground arith

  elapsed_del-HasTimers : (p : Player g) → HasTimers p → HasTimers (elapsed_del p)
  unfolding elapsed_del
  elapsed_del-HasTimers p h = ground arith

  -- The database functions, the volume and seeking leave the timers alone.
  record SameTimers (p q : Player g) : Type 0 where
    gap_id : q.gap_id ≡ p.gap_id
    gap_timers : q.gap_timers ≡ p.gap_timers
    elapsed_id : q.elapsed_id ≡ p.elapsed_id
    elapsed_timers : q.elapsed_timers ≡ p.elapsed_timers

  db_getnext-SameTimers : (p : Player g) → SameTimers p (db_getnext p)
  unfolding db_getnext next_random
  db_getnext-SameTimers p = ground arith

  db_finish-SameTimers : (c : Bool) (p : Player g) → SameTimers p (db_finish c p)
  unfolding db_finish finish_track
  db_finish-SameTimers c p = ground arith

  bp_volume-SameTimers : (p : Player g) → SameTimers p (bp_volume p).1
  unfolding bp_volume
  bp_volume-SameTimers p = ground arith

  bp_seek-SameTimers : (to : ℕ) (p : Player g) → SameTimers p (bp_seek to p).1
  unfolding bp_seek
  bp_seek-SameTimers to p = ground arith

  SameTimers-HasTimers : (p q : Player g) → SameTimers p q → HasTimers p → HasTimers q
  SameTimers-HasTimers p q s h = ground arith

  bp_finish-HasTimers :
      (c : Bool) (p : Player g)
      → HasTimers p
      → HasTimers (bp_finish c p) × ((bp_finish c p).gap_id ≡ 0) × ((bp_finish c p).elapsed_id ≡ 0)
  unfolding bp_finish gap_finish elapsed_del
  bp_finish-HasTimers c p h = grind (arith, db_finish-SameTimers)

  start_track-HasTimers : (t : Track) (p : Player g) → HasTimers p → HasTimers (start_track t p).1
  unfolding start_track
  start_track-HasTimers t p h =
      grind (
        arith, db_finish-SameTimers, bp_volume-SameTimers, bp_seek-SameTimers,
        elapsed_add-HasTimers,
      )

  bp_start-HasTimers : (p : Player g) → HasTimers p → HasTimers (bp_start p).1
  unfolding bp_start
  bp_start-HasTimers p h = grind (arith, start_track-HasTimers, db_getnext-SameTimers)

  bp_resume-HasTimers : (p : Player g) → HasTimers p → HasTimers (bp_resume p).1
  unfolding bp_resume
  bp_resume-HasTimers p h = grind (arith, bp_finish-HasTimers, elapsed_add-HasTimers)

  bp_pause-HasTimers : (p : Player g) → HasTimers p → HasTimers (bp_pause p).1
  unfolding bp_pause
  bp_pause-HasTimers p h =
      grind (arith, bp_finish-HasTimers, gap_finish-HasTimers, elapsed_del-HasTimers)

  cb_gap_timeout-HasTimers : (p : Player g) → HasTimers p → HasTimers (cb_gap_timeout p)
  unfolding cb_gap_timeout
  cb_gap_timeout-HasTimers p h = bp_start-HasTimers _ (ground arith)

  bus_eos-HasTimers : (p : Player g) → HasTimers p → HasTimers (bus_eos p)
  unfolding bus_eos
  bus_eos-HasTimers p h =
      ground
        (arith, bp_finish-HasTimers true (touch p), bp_start-HasTimers (bp_finish true (touch p)))

  bus_error-HasTimers : (p : Player g) → HasTimers p → HasTimers (bus_error p)
  unfolding bus_error
  bus_error-HasTimers p h = ground (arith, bp_finish-HasTimers false (touch p))

  Step-HasTimers : {p q : Player g} → Step p q → HasTimers p → HasTimers q
  unfolding player_setgap player_setcut player_setrgpreamp player_setrgtype player_setrandom
      player_jump player_pause player_start player_next player_stop cb_elapsed_timeout
  Step-HasTimers (set_gap p n) h = ground arith
  Step-HasTimers (set_cut p n) h = ground arith
  Step-HasTimers (set_rgpreamp p r) h =
      ground (arith, bp_volume-SameTimers (record p { rgpreamp = r }))
  Step-HasTimers (set_rgtype p k) h = ground (arith, bp_volume-SameTimers (record p { rgtype = k }))
  Step-HasTimers (set_random p r) h = ground arith
  Step-HasTimers (jump p n) h = grind (arith, bp_seek-SameTimers)
  Step-HasTimers (pause p) h = ground (arith, bp_pause-HasTimers p h)
  Step-HasTimers (start p) h = ground (arith, bp_start-HasTimers p h, bp_resume-HasTimers p h)
  Step-HasTimers (next p) h = bp_start-HasTimers (bp_finish true p) (bp_finish-HasTimers true p h).0
  Step-HasTimers (stop p) h = ground (arith, bp_finish-HasTimers true p h)
  Step-HasTimers (gap_over p ne) h = cb_gap_timeout-HasTimers p h
  Step-HasTimers (second_over p ne) h = ground arith
  Step-HasTimers (end_of_stream p) h = bus_eos-HasTimers p h
  Step-HasTimers (stream_error p) h = bus_error-HasTimers p h
  Step-HasTimers (world p s qs ds) h = ground arith

  -- From a player that keeps its timers so, whatever clients, timers and GStreamer do, in whatever
  -- order: of each kind one timer runs, and the player holds its id, or none runs and the player holds
  -- 0.
  pub Reach-HasTimers : {p q : Player g} → HasTimers p → Reach p q → HasTimers q
  Reach-HasTimers h here = h
  Reach-HasTimers h (more r s) = Step-HasTimers s (Reach-HasTimers h r)
