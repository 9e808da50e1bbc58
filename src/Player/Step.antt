-- ===== src/Player/Step.antt =====
-- The player of player.c as a transition system: its entry points in any order.
use dudld.Common.{ℕ, Option, List, ◌≢◌}
use dudld.Player.State.{Pipeline, Player, ReplayGain, Track, QueueItem}
use dudld.Player.Backend.{cb_elapsed_timeout, cb_gap_timeout, bus_eos, bus_error}
use dudld.Player.Control.{
  player_setgap, player_setcut, player_setrgpreamp, player_setrgtype, player_setrandom, player_jump,
  player_pause, player_start, player_next, player_stop,
}

module _ {g : Pipeline} where
  -- A request of a client, a timer that fires, a message of GStreamer, or a change in the world that
  -- the player does not make: the pipeline moves by itself, tracks are queued or drawn.
  pub data Step : Player g → Player g → Type 0 where
    set_gap : (p : Player g) (n : ℕ) → Step p (player_setgap n p).1
    set_cut : (p : Player g) (n : ℕ) → Step p (player_setcut n p).1
    set_rgpreamp : (p : Player g) (r : g.Real) → Step p (player_setrgpreamp r p).1
    set_rgtype : (p : Player g) (k : ReplayGain) → Step p (player_setrgtype k p).1
    set_random : (p : Player g) (r : ℕ) → Step p (player_setrandom r p).1
    jump : (p : Player g) (n : ℕ) → Step p (player_jump n p).1
    pause : (p : Player g) → Step p (player_pause p).1
    start : (p : Player g) → Step p (player_start p).1
    next : (p : Player g) → Step p (player_next p).1
    stop : (p : Player g) → Step p (player_stop p).1
    gap_over : (p : Player g) → p.gap_id ≢ 0 → Step p (cb_gap_timeout p)
    second_over : (p : Player g) → p.elapsed_id ≢ 0 → Step p (cb_elapsed_timeout p)
    end_of_stream : (p : Player g) → Step p (bus_eos p)
    stream_error : (p : Player g) → Step p (bus_error p)
    world :
        (p : Player g) (s : g.S) (qs : List QueueItem) (ds : List (Option Track))
        → Step p (record p { pipe = s; queue = qs; draws = ds })

  pub data Reach (p : Player g) : Player g → Type 0 where
    here : Reach p p
    more : {q r : Player g} → Reach p q → Step q r → Reach p r
