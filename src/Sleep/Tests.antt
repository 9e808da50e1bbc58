-- ===== src/Sleep/Tests.antt =====
-- The theorems on sleep.c at a concrete state.
use dudld.Common.{◌≡◌, [], ◌∷◌, inl, refl}
use dudld.Sleep.Timer.{Sleep, sleep_event, sleep_in, cancel}
use dudld.Sleep.Armed.{IsArmed, set, fire, here, more, Reach-IsArmed}
use dudld.Player.Tests.{machine, idle}

abbrev pub awake : Sleep machine
awake = record {
  sleep_at = 0;
  sleep_id = 0;
  timers = [];
  last_id = 4;
  announced = 0;
  player = idle 1 [];
}

armed_timers : (sleep_in 100 60 awake).timers ≡ 5 ∷ []
unfolding sleep_in cancel
armed_timers = refl

Reach-IsArmed_example : IsArmed (sleep_event 5 (sleep_in 100 60 awake))
Reach-IsArmed_example =
    Reach-IsArmed {s = awake} (inl (refl, refl, refl))
      (more (more here (set awake 100 60)) (fire (sleep_in 100 60 awake) 5 [] armed_timers))
