-- ===== src/Player/Tracks.antt =====
-- player.c, "database functions": db_getnext and db_finish.
use dudld.Common.{
  ℕ, Bool, true, false, not, Option, none, some, List, [], ◌∷◌, ◌++◌, ◌==◌, ltb, if◌then◌else◌,
}
use dudld.Player.State.{
  Pipeline, Player, Track, TrackPtr, null, live, dangling, QueueItem, Played, touch,
}

-- What a loop of db_getnext leaves: the last `curtrack`, `curuid`, and what it did not take.
pub record Fetched (A : Type 0) : Type 0 where
  pub found : Bool
  pub track : TrackPtr
  pub uid : ℕ
  pub rest : List A

-- `while( NULL != (q = queue_fetch()))`. A track that cannot be read is freed, and stays in `curtrack`.
unfoldable pub from_queue : List QueueItem → TrackPtr → ℕ → Fetched QueueItem
from_queue [] t uid = record { found = false; track = t; uid = uid; rest = [] }
from_queue (q ∷ qs) t uid =
    let skipped = from_queue qs (dangling q.track) q.uid in
    if q.track.readable
    then record { found = true; track = live q.track; uid = q.uid; rest = qs }
    else skipped

-- `while( NULL != (curtrack = random_fetch()))`. Behind the answers that are given it fails.
unfoldable pub from_random : List (Option Track) → Fetched (Option Track)
from_random [] = record { found = false; track = null; uid = 0; rest = [] }
from_random (none ∷ ds) = record { found = false; track = null; uid = 0; rest = ds }
from_random (some t ∷ ds) =
    let skipped = from_random ds in
    if t.readable then record { found = true; track = live t; uid = 0; rest = ds } else skipped

abbrev pub is_null : TrackPtr → Bool
is_null null = true
is_null _ = false

module _ {g : Pipeline} where
  -- The random part; the flag is `do_random`.
  unfoldable pub next_random : Player g → Player g
  next_random p =
      let f = from_random p.draws in
      if p.do_random == 0
      then record p { curuid = 0 }
      else record p { curuid = 0; curtrack = f.track; draws = f.rest }

  unfoldable pub db_getnext : Player g → Player g
  db_getnext p =
      let f = from_queue p.queue p.curtrack p.curuid in
      let q = record p { queue = f.rest; curtrack = f.track; curuid = f.uid } in
      if not (is_null p.curtrack) then p else if f.found then q else next_random q

  -- The end of a track that `t` is: the history, the tag of a track that was not completed.
  unfoldable pub finish_track : Bool → Track → Player g → Player g
  finish_track completed t p =
      let row : Played = record { track = t.id; uid = p.curuid; completed = completed } in
      let q = record (touch p) { history = p.history ++ row ∷ []; curtrack = null; curuid = 0 } in
      if completed
      then q
      else if ltb 0 p.failtag
      then record q { tagged = p.tagged ++ (t.id, p.failtag) ∷ [] }
      else q

  unfoldable pub db_finish : Bool → Player g → Player g
  db_finish completed p = elim p.curtrack [
    | null ↦ p
    | live t ↦ finish_track completed t p
    | dangling t ↦ finish_track completed t p
  ]
