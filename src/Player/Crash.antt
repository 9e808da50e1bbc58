-- ===== src/Player/Crash.antt =====
-- When the player of player.c reads a track through NULL.
use dudld.Common.{ℕ, ◌≡◌, ◌≢◌, ◌⊎◌, inl, inr, ◌∙◌, Bool, true, false, arith}
use dudld.Player.State.{Pipeline, Player, pl_stop, Track, null}
use dudld.Player.Tracks.{db_getnext, db_finish, next_random, finish_track}
use dudld.Player.Backend.{
  bp_status, gap_finish, elapsed_add, elapsed_del, cb_elapsed_timeout, bp_start, start_track,
  bp_volume, bp_seek, bp_finish, bp_resume, bp_pause, cb_gap_timeout, bus_eos, bus_error,
}
use dudld.Player.Step.{
  Step, set_gap, set_cut, set_rgpreamp, set_rgtype, set_random, jump, pause, start, next, stop,
  gap_over, second_over, end_of_stream, stream_error, world,
}
use dudld.Player.Records.{bus_eos-gap}
use dudld.Player.Control.{
  player_setgap, player_setcut, player_setrgpreamp, player_setrgtype, player_setrandom, player_jump,
  player_pause, player_start, player_next, player_stop,
}

module _ {g : Pipeline} where
  -- A jump finds a track, or a player that is stopped.
  abbrev pub MayJump : Player g → Type 0
  MayJump p = (bp_status p ≡ pl_stop) ⊎ (p.curtrack ≢ null)

  pub player_jump-alive :
      (n : ℕ) (p : Player g) → MayJump p → (player_jump n p).1.crashed ≡ p.crashed
  unfolding player_jump bp_seek
  player_jump-alive n p (inl h) = ground (arith, h)
  player_jump-alive n p (inr h) = ground (arith, h)

  bp_volume-alive :
      (p : Player g)
      → ((bp_volume p).1.crashed ≡ p.crashed) × ((bp_volume p).1.curtrack ≡ p.curtrack)
  unfolding bp_volume
  bp_volume-alive p = ground arith

  bp_seek-alive : (to : ℕ) (p : Player g) → p.curtrack ≢ null → (bp_seek to p).1.crashed ≡ p.crashed
  unfolding bp_seek
  bp_seek-alive to p h = ground (arith, h)

  db_finish-alive : (c : Bool) (p : Player g) → (db_finish c p).crashed ≡ p.crashed
  unfolding db_finish finish_track
  db_finish-alive c p = ground arith

  db_getnext-alive : (p : Player g) → (db_getnext p).crashed ≡ p.crashed
  unfolding db_getnext next_random
  db_getnext-alive p = ground arith

  elapsed_add-alive : (p : Player g) → (elapsed_add p).crashed ≡ p.crashed
  unfolding elapsed_add
  elapsed_add-alive p = ground arith

  start_track-alive :
      (t : Track) (p : Player g) → p.curtrack ≢ null → (start_track t p).1.crashed ≡ p.crashed
  unfolding start_track
  start_track-alive t p h =
      grind (arith, db_finish-alive, bp_volume-alive, bp_seek-alive, elapsed_add-alive)

  bp_start-alive : (p : Player g) → (bp_start p).1.crashed ≡ p.crashed
  unfolding bp_start
  bp_start-alive p = grind (arith, start_track-alive, db_getnext-alive)

  bp_finish-alive : (c : Bool) (p : Player g) → (bp_finish c p).crashed ≡ p.crashed
  unfolding bp_finish gap_finish elapsed_del
  bp_finish-alive c p = grind (arith, db_finish-alive)

  -- A step is no jump, or one that finds what it needs.
  abbrev pub Jumps : {p q : Player g} → Step p q → Type 0
  Jumps (jump p n) = MayJump p
  Jumps _ = Unit

  Step-alive : {p q : Player g} (s : Step p q) → Jumps s → q.crashed ≡ p.crashed
  unfolding player_setgap player_setcut player_setrgpreamp player_setrgtype player_setrandom
      player_pause player_start player_next player_stop cb_elapsed_timeout cb_gap_timeout bus_eos
      bus_error bp_resume bp_pause gap_finish elapsed_del
  Step-alive (set_gap p n) h = ground arith
  Step-alive (set_cut p n) h = ground arith
  Step-alive (set_rgpreamp p x) h = ground (arith, bp_volume-alive (record p { rgpreamp = x }))
  Step-alive (set_rgtype p x) h = ground (arith, bp_volume-alive (record p { rgtype = x }))
  Step-alive (set_random p n) h = ground arith
  Step-alive (jump p n) h = player_jump-alive n p h
  Step-alive (pause p) h = grind (arith, bp_finish-alive)
  Step-alive (start p) h = grind (arith, bp_start-alive, bp_finish-alive, elapsed_add-alive)
  Step-alive (next p) h = grind (arith, bp_start-alive, bp_finish-alive)
  Step-alive (stop p) h = grind (arith, bp_finish-alive)
  Step-alive (gap_over p ne) h = grind (arith, bp_start-alive)
  Step-alive (second_over p ne) h = ground arith
  Step-alive (end_of_stream p) h = grind (arith, bp_start-alive, bp_finish-alive)
  Step-alive (stream_error p) h = grind (arith, bp_finish-alive)
  Step-alive (world p s qs ds) h = ground arith

  -- A run whose jumps all find what they need.
  pub data JumpReach (p : Player g) : Player g → Type 0 where
    here : JumpReach p p
    more : {q r : Player g} → JumpReach p q → (s : Step q r) → Jumps s → JumpReach p r

  -- Whatever clients, timers and GStreamer do, in whatever order, the player reads no track through
  -- NULL, where every jump of the run finds a track or a player that is stopped.
  pub JumpReach-alive : {p q : Player g} → p.crashed ≡ false → JumpReach p q → q.crashed ≡ false
  JumpReach-alive h here = h
  JumpReach-alive h (more w s j) = Step-alive s j ∙ JumpReach-alive h w

  -- At the end of a stream with a gap set, a jump reads the track through NULL, wherever it goes to.
  pub bus_eos-jump :
      (n : ℕ) (p : Player g) → p.gap ≢ 0 → (player_jump n (bus_eos p)).1.crashed ≡ true
  unfolding player_jump bp_seek
  bus_eos-jump n p h = ground (arith, bus_eos-gap p h)
