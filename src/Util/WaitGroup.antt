-- ===== src/Util/WaitGroup.antt =====
-- util/waitgroup.hpp: the counters under the lock. A wait that does not return is not modelled.
use quarrel.Prelude.{ℕ, ◌+◌, Bool, leb, if◌then◌else◌}
use quarrel.Prelude.Words.{u32}

pub record WaitGroup : Type 0 where
  pub curr : ℕ  -- uint32_t
  pub count : ℕ  -- uint32_t

unfoldable pub init : ℕ → WaitGroup
init count = record { curr = 0; count = count }

-- The group, and whether a waiter is woken.
unfoldable pub notify : WaitGroup → Bool × WaitGroup
notify g = let g' = record g { curr = u32 (g.curr + 1) } in (leb g'.count g'.curr, g')

unfoldable pub try_wait : WaitGroup → Bool × WaitGroup
try_wait g = let ret = leb g.count g.curr in (ret, if ret then record g { curr = 0 } else g)

unfoldable pub reset : ℕ → WaitGroup → WaitGroup
reset count g = record { curr = 0; count = count }
