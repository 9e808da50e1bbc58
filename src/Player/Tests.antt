-- ===== src/Player/Tests.antt =====
-- The theorems on player.c at concrete players, over a pipeline that always does what it is told.
use dudld.Common.{ℕ, true, false, none, some, List, [], ◌∷◌, ◌≡◌, ◌≢◌, refl, inl, inr, arith}
use dudld.Player.State.{
  Pipeline, Player, Track, null, live, QueueItem, GstState, gst_null, gst_playing, rg_none, pe_ok,
  pl_stop, stopped,
}
use dudld.Player.Picks.{db_getnext-queue, db_getnext-random}
use dudld.Player.Tracks.{db_getnext}
use dudld.Player.Backend.{bp_status, bp_start, bp_finish, bus_eos}
use dudld.Player.Control.{player_start, player_stop, player_jump}
use dudld.Player.Step.{start, jump, end_of_stream, here, more}
use dudld.Player.Timers.{HasTimers, Reach-HasTimers}
use dudld.Player.Safety.{IsSafe, RandomReach, RandomReach-IsSafe, bp_start-reads_freed}
use dudld.Player.Crash.{JumpReach, JumpReach-alive, bus_eos-jump}
use dudld.Player.Records.{bp_finish-history, player_stop_lem, player_start-pe_ok}

abbrev pub machine : Pipeline
machine = record {
  S = GstState;
  Real = ℕ;
  state = λ s. s;
  set_state = λ k s. (true, k);
  wait = λ s. s;
  seek = λ to end s. (true, s);
  position = λ s. some 0;
  unity = 1;
  volume_of = λ t k r. r;
  set_volume = λ r s. s;
}

abbrev song : Track
song = record { id = 7; seg_from = 0; seg_to = 0; readable = true }

abbrev lost : Track
lost = record { id = 8; seg_from = 0; seg_to = 0; readable = false }

abbrev wish : Track → QueueItem
wish t = record { track = t; uid = 3 }

abbrev pub idle : ℕ → List QueueItem → Player machine
idle random items = record {
  do_random = random;
  gap = 5;
  cut = 1;
  rgtype = rg_none;
  rgpreamp = 1;
  gap_id = 0;
  elapsed_id = 0;
  curtrack = null;
  curuid = 0;
  pipe = gst_null;
  gap_timers = [];
  elapsed_timers = [];
  next_id = 0;
  queue = items;
  draws = none ∷ some song ∷ [];
  history = [];
  failtag = 4;
  tagged = [];
  events = [];
  faulty = false;
  crashed = false;
}

abbrev playing : Player machine
playing = record (idle 1 []) {
  curtrack = live song;
  curuid = 3;
  pipe = gst_playing;
  elapsed_id = 1;
  elapsed_timers = 1 ∷ [];
  next_id = 1;
}

Reach-HasTimers_example : HasTimers (bus_eos (player_start (idle 1 (wish lost ∷ wish song ∷ []))).1)
Reach-HasTimers_example =
    Reach-HasTimers {p = idle 1 (wish lost ∷ wish song ∷ [])}
      (record { gap = inl (refl, refl); elapsed = inl (refl, refl) })
      (more (more here (start (idle 1 (wish lost ∷ wish song ∷ [])))) (end_of_stream _))

RandomReach-IsSafe_example : IsSafe (bus_eos (player_start (idle 1 (wish lost ∷ []))).1)
RandomReach-IsSafe_example =
    RandomReach-IsSafe {p = idle 1 (wish lost ∷ [])} (record { held = refl; clean = refl })
      (omega arith)
      (RandomReach.more (RandomReach.more RandomReach.here (start (idle 1 (wish lost ∷ []))) tt)
        (end_of_stream _) tt)

bp_start-reads_freed_example : (bp_start (idle 0 (wish lost ∷ []))).1.faulty ≡ true
bp_start-reads_freed_example =
    bp_start-reads_freed (idle 0 (wish lost ∷ [])) (wish lost) [] refl refl
      (unfold bp_status in refl) refl refl

db_getnext-queue_example :
    let q = db_getnext (idle 0 (wish lost ∷ wish song ∷ [])) in
    (q.curtrack ≡ live song) × (q.curuid ≡ 3) × (q.queue ≡ []) × (q.draws ≡ none ∷ some song ∷ [])
db_getnext-queue_example =
    db_getnext-queue (idle 0 (wish lost ∷ wish song ∷ [])) refl {q = wish song} {rest = []} refl

db_getnext-random_example :
    let q = db_getnext (idle 1 (wish lost ∷ [])) in
    (q.curtrack ≡ null) × (q.curuid ≡ 0) × (q.queue ≡ [])
db_getnext-random_example = db_getnext-random (idle 1 (wish lost ∷ [])) refl refl (omega arith)

bp_finish-history_example :
    let q = bp_finish true playing in
    (q.history ≡ record { track = 7; uid = 3; completed = true } ∷ [])
    × (q.tagged ≡ [])
    × (q.curtrack ≡ null)
    × (q.curuid ≡ 0)
bp_finish-history_example = bp_finish-history playing refl true

playing_not_stopped : bp_status playing ≢ pl_stop
unfolding bp_status
playing_not_stopped e = cc

player_stop_lem_example :
    let q = (player_stop playing).1 in
    ((player_stop playing).0 ≡ pe_ok)
    × (q.history ≡ record { track = 7; uid = 3; completed = true } ∷ [])
    × (q.curtrack ≡ null)
    × (q.gap_id ≡ 0)
    × (q.elapsed_id ≡ 0)
    × (q.events ≡ stopped ∷ [])
player_stop_lem_example = player_stop_lem playing refl playing_not_stopped

player_start-pe_ok_example : (player_start (idle 0 [])).0 ≡ pe_ok
player_start-pe_ok_example = player_start-pe_ok (idle 0 []) (unfold bp_status in refl)

JumpReach-alive_example : (bus_eos (player_jump 20 playing).1).crashed ≡ false
JumpReach-alive_example = JumpReach-alive {p = playing} refl (
    JumpReach.more (JumpReach.more JumpReach.here (jump playing 20) (inr λ e. cc)) (end_of_stream _)
      tt)

bus_eos-jump_example : (player_jump 20 (bus_eos playing)).1.crashed ≡ true
bus_eos-jump_example = bus_eos-jump 20 playing (omega arith)
