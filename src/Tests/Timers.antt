-- ===== src/Tests/Timers.antt =====
-- The timing wheel at work.
use quarrel.Prelude.{◌≡◌, refl, List, [], ◌∷◌}
use quarrel.Util.TimingWheel.{
  TimingWheel, timing_wheel, ticks, slot, add_timeout, turn, Event, adding, turning, step, run,
}

abbrev wheel : TimingWheel
wheel = timing_wheel 100

-- Of the three timers, the first waits for one turn, the second for more turns than there are slots.
abbrev timers : List Event
timers = adding 7 150 1 ∷ turning ∷ adding 8 4100 2 ∷ adding 9 0 3 ∷ turning ∷ []

-- The timer of 4100 ms comes 4000 ms early.
fires_early :
    (turn (run timers wheel).1).0
    ≡ record { opaque = 7; notifier = 1 } ∷ record { opaque = 8; notifier = 2 } ∷ []
unfolding turn run step add_timeout timing_wheel ticks slot
fires_early = refl
