-- ===== src/Sleep/Armed.antt =====
-- The timer of sleep.c, and what sleep_remain says of it.
use dudld.Common.{ℕ, ◌+◌, ◌-◌, ◌≤◌, ◌≡◌, ◌≢◌, ◌⊎◌, List, [], ◌∷◌, arith}
use dudld.Player.State.{Pipeline, Player}
use dudld.Sleep.Timer.{Sleep, sleep_event, sleep_remain, cancel, sleep_in}

module _ {g : Pipeline} where
  -- No timer runs and the sleep is off, or one runs, under the id that is kept, and the time is kept.
  abbrev pub IsArmed : Sleep g → Type 0
  IsArmed s =
      ((s.sleep_id ≡ 0) × (s.sleep_at ≡ 0) × (s.timers ≡ []))
      ⊎ ((s.sleep_id ≢ 0) × (s.sleep_at ≢ 0) × (s.timers ≡ s.sleep_id ∷ []))

  -- A client sets the sleep, a timer that runs fires, or the player changes.
  pub data Step : Sleep g → Sleep g → Type 0 where
    set : (s : Sleep g) (time sek : ℕ) → Step s (sleep_in time sek s)
    fire : (s : Sleep g) (id : ℕ) (ts : List ℕ) → s.timers ≡ id ∷ ts → Step s (sleep_event id s)
    play : (s : Sleep g) (p : Player g) → Step s (record s { player = p })

  pub data Reach (s : Sleep g) : Sleep g → Type 0 where
    here : Reach s s
    more : {t u : Sleep g} → Reach s t → Step t u → Reach s u

  Step-IsArmed : {s t : Sleep g} → Step s t → IsArmed s → IsArmed t
  unfolding sleep_in cancel sleep_event
  Step-IsArmed (set s time sek) h = ground arith
  Step-IsArmed (fire s id ts e) h = ground arith
  Step-IsArmed (play s p) h = ground arith

  -- From a state in which it is so, however the sleep is set and its timer fires: no timer runs and the
  -- sleep is off, or one timer runs, under the id that is kept, and the sleep is on.
  pub Reach-IsArmed : {s t : Sleep g} → IsArmed s → Reach s t → IsArmed t
  Reach-IsArmed h here = h
  Reach-IsArmed h (more r s) = Step-IsArmed s (Reach-IsArmed h r)

  -- After the sleep was set to a number of seconds, also to 0, or set again, sleep_remain counts these
  -- seconds down to 0.
  pub sleep_in-remain :
      (s : Sleep g) (time sek later : ℕ)
      → time ≤ later
      → sleep_remain later (sleep_in time sek s) ≡ time + sek - later
  unfolding sleep_in sleep_remain cancel
  sleep_in-remain s time sek later le = ground arith
