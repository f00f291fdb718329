-- ===== src/Util/TimingWheel/Fires.antt =====
-- Which turn of the wheel calls a timer.
use quarrel.Prelude.{
  ℕ, suc, ◌+◌, ◌%◌, ◌^◌, ◌<◌, ◌≡◌, List, [], ◌∷◌, ◌++◌, ◌==◌, if◌then◌else◌, length,
}
use quarrel.Util.TimingWheel.{Item, TimingWheel, ticks, slot, Event, adding, turning}

-- A wheel of `n` slots, fewer than 2 ^ 31 of them.
pub record IsWheel (n : ℕ) (t : TimingWheel) : Type 0 where
  pub slots : length t.wheel ≡ n
  pub small : n < 2 ^ 31
  pub start : t.start < n

-- The timers that the turn after `d` more turns calls, as the wheel is.
unfoldable pub due : ℕ → ℕ → TimingWheel → List Item
due n d t = slot ((t.start + d) % n) t.wheel

-- What a new timer adds to the turn after `d` more turns.
unfoldable pub joining : ℕ → ℕ → ℕ → ℕ → ℕ → ℕ → List Item
joining n granularity_ms d o ms nt =
    if ticks granularity_ms ms % n == d then record { opaque = o; notifier = nt } ∷ [] else []

-- All timers that the events add wait for fewer than 2 ^ 31 turns.
abbrev pub AllFit : ℕ → List Event → Type 0
AllFit granularity_ms [] = Unit {0}
AllFit granularity_ms (adding o ms nt ∷ es) =
    (ticks granularity_ms ms < 2 ^ 31) × AllFit granularity_ms es
AllFit granularity_ms (turning ∷ es) = AllFit granularity_ms es

abbrev pub turns : List Event → ℕ
turns [] = 0
turns (adding o ms nt ∷ es) = turns es
turns (turning ∷ es) = suc (turns es)

-- Of the timers that the events add, those that the next turn after the events calls.
abbrev pub joined : ℕ → ℕ → List Event → List Item
joined n granularity_ms [] = []
joined n granularity_ms (adding o ms nt ∷ es) =
    joining n granularity_ms (turns es) o ms nt ++ joined n granularity_ms es
joined n granularity_ms (turning ∷ es) = joined n granularity_ms es
