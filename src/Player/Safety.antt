-- ===== src/Player/Safety.antt =====
-- When the player of player.c reads no freed track.
use dudld.Common.{ℕ, Bool, true, false, Option, none, some, List, [], ◌∷◌, ◌≡◌, ◌≢◌, refl, arith}
use dudld.Player.State.{
  Pipeline, Player, pl_stop, Track, TrackPtr, null, dangling, QueueItem, is_dangling, touch,
}
use dudld.Player.Tracks.{from_queue, from_random, db_getnext, db_finish, next_random, finish_track}
use dudld.Player.Picks.{first_readable, last_track, from_queue-none}
use dudld.Player.Backend.{
  bp_status, gap_finish, elapsed_add, elapsed_del, cb_elapsed_timeout, bp_start, start_track,
  bp_volume, bp_seek, bp_finish, bp_resume, bp_pause, cb_gap_timeout, bus_eos, bus_error,
}
use dudld.Player.Step.{
  Step, set_gap, set_cut, set_rgpreamp, set_rgtype, set_random, jump, pause, start, next, stop,
  gap_over, second_over, end_of_stream, stream_error, world,
}
use dudld.Player.Control.{
  player_setgap, player_setcut, player_setrgpreamp, player_setrgtype, player_setrandom, player_jump,
  player_pause, player_start, player_next, player_stop,
}

-- `curtrack` is NULL or a track that is held, and no freed track has been read.
pub record IsSafe {g : Pipeline} (p : Player g) : Type 0 where
  pub held : is_dangling p.curtrack ≡ false
  pub clean : p.faulty ≡ false

-- Random play is on.
abbrev pub Random : {g : Pipeline} → Player g → Type 0
Random p = p.do_random ≢ 0

from_random-held : (ds : List (Option Track)) → is_dangling (from_random ds).track ≡ false
unfolding from_random
from_random-held [] = refl
from_random-held (none ∷ ds) = refl
from_random-held (some t ∷ ds) = ground (arith, from_random-held ds)

from_queue-held :
    (qs : List QueueItem) (t : TrackPtr) (uid : ℕ)
    → (from_queue qs t uid).found ≡ true
    → is_dangling (from_queue qs t uid).track ≡ false
unfolding from_queue
from_queue-held [] t uid h = cc
from_queue-held (q ∷ qs) t uid h = ground (arith, from_queue-held qs (dangling q.track) q.uid)

last_track-dangling :
    (qs : List QueueItem) (t : TrackPtr)
    → is_dangling t ≡ true
    → is_dangling (last_track qs t) ≡ true
last_track-dangling [] t h = h
last_track-dangling (q ∷ qs) t h = last_track-dangling qs (dangling q.track) refl

module _ {g : Pipeline} where
  -- What an operation leaves: it is safe, and random play is as it was.
  record Kept (p q : Player g) : Type 0 where
    safe : IsSafe q
    random : q.do_random ≡ p.do_random

  db_getnext-Kept : (p : Player g) → IsSafe p → Random p → Kept p (db_getnext p)
  unfolding db_getnext next_random
  db_getnext-Kept p h r =
      ground (arith, from_queue-held p.queue p.curtrack p.curuid, from_random-held p.draws)

  db_finish-Kept : (c : Bool) (p : Player g) → IsSafe p → Kept p (db_finish c p)
  unfolding db_finish finish_track
  db_finish-Kept c p h = ground arith

  bp_volume-Kept : (p : Player g) → IsSafe p → Kept p (bp_volume p).1
  unfolding bp_volume
  bp_volume-Kept p h = ground arith

  bp_seek-Kept : (to : ℕ) (p : Player g) → IsSafe p → Kept p (bp_seek to p).1
  unfolding bp_seek
  bp_seek-Kept to p h = ground arith

  elapsed_add-Kept : (p : Player g) → IsSafe p → Kept p (elapsed_add p)
  unfolding elapsed_add
  elapsed_add-Kept p h = ground arith

  bp_finish-Kept : (c : Bool) (p : Player g) → IsSafe p → Kept p (bp_finish c p)
  unfolding bp_finish gap_finish elapsed_del
  bp_finish-Kept c p h = grind (arith, db_finish-Kept)

  start_track-Kept : (t : Track) (p : Player g) → IsSafe p → Kept p (start_track t p).1
  unfolding start_track
  start_track-Kept t p h =
      grind (arith, db_finish-Kept, bp_volume-Kept, bp_seek-Kept, elapsed_add-Kept)

  bp_start-Kept : (p : Player g) → IsSafe p → Random p → Kept p (bp_start p).1
  unfolding bp_start
  bp_start-Kept p h r = grind (arith, start_track-Kept, db_getnext-Kept)

  bp_resume-Kept : (p : Player g) → IsSafe p → Kept p (bp_resume p).1
  unfolding bp_resume
  bp_resume-Kept p h = grind (arith, bp_finish-Kept, elapsed_add-Kept)

  bp_pause-Kept : (p : Player g) → IsSafe p → Kept p (bp_pause p).1
  unfolding bp_pause gap_finish elapsed_del
  bp_pause-Kept p h = grind (arith, bp_finish-Kept)

  -- A step that does not turn random play off.
  abbrev pub KeepsRandom : {p q : Player g} → Step p q → Type 0
  KeepsRandom (set_random p r) = r ≢ 0
  KeepsRandom _ = Unit

  Step-IsSafe :
      {p q : Player g} (s : Step p q) → KeepsRandom s → IsSafe p → Random p → IsSafe q × Random q
  unfolding player_setgap player_setcut player_setrgpreamp player_setrgtype player_setrandom
      player_jump player_pause player_start player_next player_stop cb_elapsed_timeout
      cb_gap_timeout bus_eos bus_error
  Step-IsSafe (set_gap p n) k h r = ground arith
  Step-IsSafe (set_cut p n) k h r = ground arith
  Step-IsSafe (set_rgpreamp p x) k h r = ground (arith, bp_volume-Kept (record p { rgpreamp = x }))
  Step-IsSafe (set_rgtype p x) k h r = ground (arith, bp_volume-Kept (record p { rgtype = x }))
  Step-IsSafe (set_random p n) k h r = ground arith
  Step-IsSafe (jump p n) k h r = grind (arith, bp_seek-Kept)
  Step-IsSafe (pause p) k h r = ground (arith, bp_pause-Kept p h)
  Step-IsSafe (start p) k h r = ground (arith, bp_start-Kept p h r, bp_resume-Kept p h)
  Step-IsSafe (next p) k h r =
      ground (arith, bp_finish-Kept true p h, bp_start-Kept (bp_finish true p))
  Step-IsSafe (stop p) k h r = ground (arith, bp_finish-Kept true p h)
  Step-IsSafe (gap_over p ne) k h r = grind (arith, bp_start-Kept)
  Step-IsSafe (second_over p ne) k h r = ground arith
  Step-IsSafe (end_of_stream p) k h r =
      ground (arith, bp_finish-Kept true (touch p), bp_start-Kept (bp_finish true (touch p)))
  Step-IsSafe (stream_error p) k h r = ground (arith, bp_finish-Kept false (touch p))
  Step-IsSafe (world p s qs ds) k h r = ground arith

  -- Along a run that never turns random play off, and starts with it on, no freed track is read.
  pub data RandomReach (p : Player g) : Player g → Type 0 where
    here : RandomReach p p
    more : {q r : Player g} → RandomReach p q → (s : Step q r) → KeepsRandom s → RandomReach p r

  RandomReach-both : {p q : Player g} → IsSafe p → Random p → RandomReach p q → IsSafe q × Random q
  RandomReach-both h r here = (h, r)
  RandomReach-both h r (more w s k) = let (h', r') = RandomReach-both h r w in Step-IsSafe s k h' r'

  -- From a player that holds no freed track, with random play on, in any run of requests, timers and
  -- messages that does not turn random play off, the player never reads a track that it has freed, and
  -- `curtrack` never dangles.
  pub RandomReach-IsSafe : {p q : Player g} → IsSafe p → Random p → RandomReach p q → IsSafe q
  RandomReach-IsSafe h r w = (RandomReach-both h r w).0

  -- A fault stays.
  bp_volume-faulty : (p : Player g) → p.faulty ≡ true → (bp_volume p).1.faulty ≡ true
  unfolding bp_volume
  bp_volume-faulty p h = ground arith

  bp_seek-faulty : (to : ℕ) (p : Player g) → p.faulty ≡ true → (bp_seek to p).1.faulty ≡ true
  unfolding bp_seek
  bp_seek-faulty to p h = ground arith

  db_finish-faulty : (c : Bool) (p : Player g) → p.faulty ≡ true → (db_finish c p).faulty ≡ true
  unfolding db_finish finish_track
  db_finish-faulty c p h = ground arith

  elapsed_add-faulty : (p : Player g) → p.faulty ≡ true → (elapsed_add p).faulty ≡ true
  unfolding elapsed_add
  elapsed_add-faulty p h = ground arith

  start_track-faulty :
      (t : Track) (p : Player g) → is_dangling p.curtrack ≡ true → (start_track t p).1.faulty ≡ true
  unfolding start_track
  start_track-faulty t p h =
      grind (arith, bp_volume-faulty, bp_seek-faulty, db_finish-faulty, elapsed_add-faulty)

  db_getnext-dangling :
      (p : Player g) (q : QueueItem) (qs : List QueueItem)
      → p.curtrack ≡ null
      → p.do_random ≡ 0
      → p.queue ≡ q ∷ qs
      → first_readable (q ∷ qs) ≡ none
      → is_dangling (db_getnext p).curtrack ≡ true
  unfolding db_getnext next_random
  db_getnext-dangling p q qs idle off e unreadable = ground (
    arith,
    from_queue-none (q ∷ qs) p.curtrack p.curuid unreadable,
    last_track-dangling qs (dangling q.track) refl,
  )

  -- With random play off, an idle player whose queue holds tracks, none of them readable, reads a freed
  -- track as soon as it is started.
  pub bp_start-reads_freed :
      (p : Player g) (q : QueueItem) (qs : List QueueItem)
      → p.curtrack ≡ null
      → p.do_random ≡ 0
      → bp_status p ≡ pl_stop
      → p.queue ≡ q ∷ qs
      → first_readable (q ∷ qs) ≡ none
      → (bp_start p).1.faulty ≡ true
  unfolding bp_start
  bp_start-reads_freed p q qs idle off stopped e unreadable =
      grind (arith, start_track-faulty, db_getnext-dangling p q qs idle off e unreadable)
