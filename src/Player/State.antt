-- ===== src/Player/State.antt =====
-- player.c and player.h: the state of the player. What GStreamer does is a parameter, `Pipeline`. The
-- queue, the random picks and the history are the sequences of what the database hands out and takes.
use dudld.Common.{ℕ, Bool, true, false, ◌||◌, Option, List, [], ◌∷◌, ◌++◌}

pub data PlayStatus : Type 0 where
  pl_stop pl_play pl_pause : PlayStatus

pub data PlayError : Type 0 where
  pe_ok pe_sys pe_nothing pe_busy pe_nosup pe_fail : PlayError

-- The `int` that the bp_* functions return: -1, or one of the codes above.
pub data Code : Type 0 where
  minus_one : Code
  code : PlayError → Code

pub data ReplayGain : Type 0 where
  rg_none rg_track rg_track_peak rg_album rg_album_peak : ReplayGain

-- A track, with what track_exists finds when it opens its file. Times are in nanoseconds.
pub record Track : Type 0 where
  pub id : ℕ
  pub seg_from : ℕ
  pub seg_to : ℕ
  pub readable : Bool

-- The pointer `curtrack`; `dangling` is one whose track has been freed.
pub data TrackPtr : Type 0 where
  null : TrackPtr
  live dangling : Track → TrackPtr

pub record QueueItem : Type 0 where
  pub track : Track
  pub uid : ℕ

-- What history_add is called with.
pub record Played : Type 0 where
  pub track : ℕ
  pub uid : ℕ
  pub completed : Bool

-- The callbacks that proto_init installs.
pub data Event : Type 0 where
  newtrack paused resumed stopped random_changed : Event
  elapsed : ℕ → Event

pub data GstState : Type 0 where
  gst_null gst_ready gst_paused gst_playing : GstState

-- GStreamer: the pipeline's states, what a change of state answers (false is
-- GST_STATE_CHANGE_FAILURE), seeking (`none` is no stop position), the position, and the volume, whose
-- `double`s are a type of their own.
pub record Pipeline : Type 1 where
  pub S : Type 0
  pub Real : Type 0
  pub state : S → GstState
  pub set_state : GstState → S → Bool × S
  pub wait : S → S
  pub seek : ℕ → Option ℕ → S → Bool × S
  pub position : S → Option ℕ
  -- The volume 1, and the one for a track's gain of a kind and a preamplification.
  pub unity : Real
  pub volume_of : Track → ReplayGain → Real → Real
  pub set_volume : Real → S → S

-- The static variables of player.c, the pipeline, and the world that they act on: the timers that run
-- in the main loop, the queue, the coming answers of random_fetch, the history, the tags that are set,
-- the callbacks made, whether a freed track was read, and whether NULL was, which ends the program.
pub record Player (g : Pipeline) : Type 0 where
  pub do_random : ℕ
  pub gap : ℕ
  pub cut : ℕ
  pub rgtype : ReplayGain
  pub rgpreamp : g.Real
  pub gap_id : ℕ
  pub elapsed_id : ℕ
  pub curtrack : TrackPtr
  pub curuid : ℕ
  pub pipe : g.S
  pub gap_timers : List ℕ
  pub elapsed_timers : List ℕ
  pub next_id : ℕ
  pub queue : List QueueItem
  pub draws : List (Option Track)
  pub history : List Played
  pub failtag : ℕ
  pub tagged : List (ℕ × ℕ)
  pub events : List Event
  pub faulty : Bool
  pub crashed : Bool

abbrev pub is_dangling : TrackPtr → Bool
is_dangling (dangling t) = true
is_dangling _ = false

module _ {g : Pipeline} where
  -- A callback.
  abbrev pub emit : Event → Player g → Player g
  emit e p = record p { events = p.events ++ e ∷ [] }

  -- Reading through `curtrack`.
  abbrev pub touch : Player g → Player g
  touch p = record p { faulty = p.faulty || is_dangling p.curtrack }
