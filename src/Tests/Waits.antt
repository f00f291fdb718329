-- ===== src/Tests/Waits.antt =====
-- Waits for futures.
use quarrel.Prelude.{◌≡◌, inl, inr, refl, List, [], ◌∷◌, some, true, false, arith}
use quarrel.Prelude.Int.{ℤ, neg}
use quarrel.Util.Future.{
  Look, wait_loop, future_wait_any, future_find_first_ready, Ends, Stops, future_wait_any_lem,
}

-- The second of three futures is ready at the second look.
abbrev looks : List Look
looks =
    record { ready = false ∷ false ∷ false ∷ []; now = 1010 }
    ∷ record { ready = false ∷ true ∷ true ∷ []; now = 1020 }
    ∷ []

looks-Stops : Stops 5 1000 looks
looks-Stops = inr (inr (inl (1, (refl, refl))))

future_wait_any_lem_example :
    (r : ℤ) × (future_wait_any 3 5 1000 looks ≡ some r) × Ends 5 1000 looks r
future_wait_any_lem_example = future_wait_any_lem 3 5 1000 looks (omega arith) looks-Stops

-- A limit of 4294968 milliseconds, more than an hour, has passed after one millisecond.
early_timeout :
    future_wait_any 1 4294968 0 (record { ready = false ∷ []; now = 1000 } ∷ []) ≡ some (neg 2)
unfolding future_wait_any wait_loop future_find_first_ready
early_timeout = refl
