-- ===== src/Sleep/Timer.antt =====
-- sleep.c: its state and functions. `time` is the clock, in seconds, and the ids of timers are fresh and
-- not 0, as g_timeout_add gives them.
use dudld.Common.{ℕ, suc, ◌+◌, ◌-◌, ◌==◌, leb, ltb, if◌then◌else◌, not, List, ◌∷◌}
use dudld.Player.State.{Pipeline, Player}
use dudld.Player.Backend.{remove_source}
use dudld.Player.Control.{player_pause}

-- The static variables, with the timers that run, the last id given, how often `sleep_func_set` was called,
-- and the player.
pub record Sleep (g : Pipeline) : Type 0 where
  pub sleep_at : ℕ
  pub sleep_id : ℕ
  pub timers : List ℕ
  pub last_id : ℕ
  pub announced : ℕ
  pub player : Player g

module _ {g : Pipeline} where
  -- The timer `id` fires; it is removed, since sleep_event answers FALSE.
  unfoldable pub sleep_event : ℕ → Sleep g → Sleep g
  sleep_event id s = record s {
    player = (player_pause s.player).1;
    sleep_id = 0;
    sleep_at = 0;
    timers = remove_source id s.timers;
  }

  unfoldable pub sleep_remain : ℕ → Sleep g → ℕ
  sleep_remain time s =
      if s.sleep_at == 0 then 0 else if leb s.sleep_at time then 0 else s.sleep_at - time

  unfoldable pub cancel : Sleep g → Sleep g
  cancel s = record s {
    timers = if s.sleep_id == 0 then s.timers else remove_source s.sleep_id s.timers;
    sleep_id = 0;
    sleep_at = 0;
  }

  unfoldable pub sleep_in : ℕ → ℕ → Sleep g → Sleep g
  sleep_in time sek s =
      let a = cancel s in
      let b = record a {
        sleep_id = suc a.last_id;
        timers = suc a.last_id ∷ a.timers;
        last_id = suc a.last_id;
        sleep_at = time + sek;
      } in
      let c = if ltb 0 sek then b else a in
      if not (s.sleep_at == c.sleep_at) then record c { announced = c.announced + 1 } else c
