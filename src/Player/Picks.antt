-- ===== src/Player/Picks.antt =====
-- Which track db_getnext of player.c picks, and what db_finish records.
use dudld.Common.{
  ℕ, true, false, Option, none, some, List, [], ◌∷◌, if◌then◌else◌, ◌≡◌, ◌≢◌, refl, arith,
}
use dudld.Player.State.{Pipeline, Player, Track, TrackPtr, null, live, dangling, QueueItem}
use dudld.Player.Tracks.{from_queue, from_random, db_getnext, next_random}

-- The first item of the queue whose track can be read, and what stands behind it.
abbrev pub first_readable : List QueueItem → Option (QueueItem × List QueueItem)
first_readable [] = none
first_readable (q ∷ qs) =
    let more = first_readable qs in if q.track.readable then some (q, qs) else more

-- The first answer of random_fetch that can be read, none if an answer before it is NULL.
abbrev pub first_draw : List (Option Track) → Option Track
first_draw [] = none
first_draw (none ∷ ds) = none
first_draw (some t ∷ ds) = let more = first_draw ds in if t.readable then some t else more

-- The last track of a queue.
abbrev pub last_track : List QueueItem → TrackPtr → TrackPtr
last_track [] t = t
last_track (q ∷ qs) t = last_track qs (dangling q.track)

from_queue-some :
    (qs : List QueueItem) (t : TrackPtr) (uid : ℕ) (q : QueueItem) (rest : List QueueItem)
    → first_readable qs ≡ some (q, rest)
    → from_queue qs t uid ≡ record { found = true; track = live q.track; uid = q.uid; rest = rest }
unfolding from_queue
from_queue-some [] t uid q rest h = cc
from_queue-some (x ∷ qs) t uid q rest h =
    ground (arith, from_queue-some qs (dangling x.track) x.uid q rest)

pub from_queue-none :
    (qs : List QueueItem) (t : TrackPtr) (uid : ℕ)
    → first_readable qs ≡ none
    → ((from_queue qs t uid).found ≡ false)
      × ((from_queue qs t uid).track ≡ last_track qs t)
      × ((from_queue qs t uid).rest ≡ [])
unfolding from_queue
from_queue-none [] t uid h = (refl, refl, refl)
from_queue-none (q ∷ qs) t uid h = ground (arith, from_queue-none qs (dangling q.track) q.uid)

from_random-track :
    (ds : List (Option Track))
    → (from_random ds).track ≡ elim (first_draw ds) [ none ↦ null | some t ↦ live t ]
unfolding from_random
from_random-track [] = refl
from_random-track (none ∷ ds) = refl
from_random-track (some t ∷ ds) = ground (arith, from_random-track ds)

module _ {g : Pipeline} (p : Player g) (idle : p.curtrack ≡ null) where
  -- Where no track is current and the queue holds a readable one, db_getnext picks the first readable
  -- track for the user who queued it. The items up to it leave the queue, and no random track is drawn.
  pub db_getnext-queue :
      {q : QueueItem} {rest : List QueueItem}
      → first_readable p.queue ≡ some (q, rest)
      → ((db_getnext p).curtrack ≡ live q.track)
        × ((db_getnext p).curuid ≡ q.uid)
        × ((db_getnext p).queue ≡ rest)
        × ((db_getnext p).draws ≡ p.draws)
  unfolding db_getnext next_random
  db_getnext-queue {q} {rest} h =
      ground (arith, from_queue-some p.queue p.curtrack p.curuid q rest h)

  -- Where no track is current, the queue holds no readable one and random play is on, db_getnext
  -- empties the queue and picks the first readable answer of random_fetch, or no track where
  -- random_fetch fails before it, for no user.
  pub db_getnext-random :
      first_readable p.queue ≡ none
      → p.do_random ≢ 0
      → ((db_getnext p).curtrack ≡ elim (first_draw p.draws) [ none ↦ null | some t ↦ live t ])
        × ((db_getnext p).curuid ≡ 0)
        × ((db_getnext p).queue ≡ [])
  unfolding db_getnext next_random
  db_getnext-random h r =
      ground (arith, from_queue-none p.queue p.curtrack p.curuid h, from_random-track p.draws)

  -- Where no track is current, the queue holds no readable one and random play is off, db_getnext
  -- empties the queue and leaves `curtrack` at the last track that it freed: dangling where the queue
  -- held a track, NULL where it was empty.
  pub db_getnext-off :
      first_readable p.queue ≡ none
      → p.do_random ≡ 0
      → ((db_getnext p).curtrack ≡ last_track p.queue null)
        × ((db_getnext p).curuid ≡ 0)
        × ((db_getnext p).queue ≡ [])
  unfolding db_getnext next_random
  db_getnext-off h r = ground (arith, from_queue-none p.queue p.curtrack p.curuid h)
