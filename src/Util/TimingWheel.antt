-- ===== src/Util/TimingWheel.antt =====
-- util/timing_wheel.hpp: the slots, and one turn of the worker. The notifier of a timer is a number.
pub mod Fires
use quarrel.Prelude.{
  ℕ, zero, suc, ◌+◌, ◌/◌, ◌%◌, List, [], ◌∷◌, ◌++◌, Option, none, some, ◌==◌, if◌then◌else◌,
  get_elem?, set, length, replicate,
}
use quarrel.Prelude.Words.{u32}

pub record Item : Type 0 where
  pub opaque : ℕ  -- uint64_t
  pub notifier : ℕ

-- `state_`: 0 new, 1 started, 2 stopped.
pub record TimingWheel : Type 0 where
  pub start : ℕ  -- uint32_t, the slot of the next turn
  pub granularity_ms : ℕ
  pub state : ℕ
  pub wheel : List (List Item)

unfoldable pub timing_wheel : ℕ → TimingWheel
timing_wheel granularity_ms = record {
  start = 0;
  granularity_ms = granularity_ms;
  state = 0;
  wheel = replicate (4000 / granularity_ms) [];
}

unfoldable pub start_wheel : TimingWheel → TimingWheel
start_wheel t = if t.state == 0 then record t { state = 1 } else t

unfoldable pub stop_wheel : TimingWheel → TimingWheel
stop_wheel t = if t.state == 2 then t else record t { state = 2 }

-- The slots from the next turn on, counted up: `timeout_ms / granularity_ms_`, rounded up.
unfoldable pub ticks : ℕ → ℕ → ℕ
ticks granularity_ms timeout_ms =
    timeout_ms / granularity_ms + (if timeout_ms % granularity_ms == 0 then 0 else 1)

-- The list of a slot. No slot is out of range.
unfoldable pub slot : ℕ → List (List Item) → List Item
slot i wheel = elim (get_elem? wheel i) [ none ↦ [] | some ls ↦ ls ]

unfoldable pub add_timeout : ℕ → ℕ → ℕ → TimingWheel → TimingWheel
unfolding ticks slot
add_timeout opaque timeout_ms notifier t =
    let idx = u32 (ticks t.granularity_ms timeout_ms + t.start) % length t.wheel in
    record t {
      wheel =
          set t.wheel idx
            (slot idx t.wheel ++ (record { opaque = opaque; notifier = notifier } ∷ []));
    }

-- One turn of `worker`: the timers whose notifiers are called, in their order.
unfoldable pub turn : TimingWheel → List Item × TimingWheel
unfolding slot
turn t = (
  slot t.start t.wheel,
  record t { start = u32 (t.start + 1) % length t.wheel; wheel = set t.wheel t.start [] },
)

-- What happens to a started wheel.
pub data Event : Type 0 where
  adding : ℕ → ℕ → ℕ → Event
  turning : Event

unfoldable pub step : Event → TimingWheel → List Item × TimingWheel
unfolding add_timeout turn
step (adding opaque timeout_ms notifier) t = ([], add_timeout opaque timeout_ms notifier t)
step turning t = turn t

-- All timers that are called, in their order, and the wheel.
unfoldable pub run : List Event → TimingWheel → List Item × TimingWheel
unfolding step
run [] t = ([], t)
run (e ∷ es) t = let (now, t') = step e t in let (later, t'') = run es t' in (now ++ later, t'')
