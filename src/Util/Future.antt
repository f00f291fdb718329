-- ===== src/Util/Future.antt =====
-- util/future.hpp: `future_wait_any`, with util/time.hpp. Which futures are ready at each look, and
-- what the clock shows after it, is given.
use quarrel.Prelude.{
  ℕ, zero, suc, ◌+◌, ◌*◌, ◌<◌, ◌≡◌, ◌⊎◌, inl, inr, refl, sym, ◌∙◌, List, [], ◌∷◌, Option, none,
  some, Bool, true, false, ltb, arith, if◌then◌else◌, Bool-cases,
}
use quarrel.Prelude.Int.{ℤ, pos, neg}
use quarrel.Prelude.Words.{u32, u64, sub_u64}

-- `GetCurrTimeUS` from the two fields of a `timeval`.
unfoldable pub get_curr_time_us : ℕ → ℕ → ℕ
get_curr_time_us tv_sec tv_usec = u64 (tv_sec * 1000000 + tv_usec)

-- The first future that is ready.
unfoldable pub future_find_first_ready : List Bool → Option ℕ
future_find_first_ready [] = none
future_find_first_ready (ready ∷ futures) =
    let rest = future_find_first_ready futures in
    if ready then some 0 else elim rest [ none ↦ none | some i ↦ some (suc i) ]

-- One turn of the loop: the futures that are ready, and the clock after the sleep.
pub record Look : Type 0 where
  pub ready : List Bool
  pub now : ℕ

-- The loop over the looks that there are; no result is a loop that still waits.
unfoldable pub wait_loop : ℕ → ℕ → List Look → Option ℤ
unfolding future_find_first_ready
wait_loop timeout_ms start [] = none
wait_loop timeout_ms start (l ∷ looks) =
    let rest = wait_loop timeout_ms start looks in
    elim (future_find_first_ready l.ready) [
      | some i ↦ some (pos i)
      | none ↦ if ltb (u32 (timeout_ms * 1000)) (sub_u64 l.now start) then some (neg 2) else rest
    ]

-- `future_wait_any` on `count` futures.
unfoldable pub future_wait_any : ℕ → ℕ → ℕ → List Look → Option ℤ
unfolding wait_loop
future_wait_any count timeout_ms start looks = elim count [
  | zero ↦ some (neg 1)
  | suc _ ↦ wait_loop timeout_ms start looks
]

-- No future before the place `i` is ready, and that one is.
abbrev pub FirstReady : ℕ → List Bool → Type 0
FirstReady i [] = ⊥
FirstReady zero (r ∷ rs) = r ≡ true
FirstReady (suc i) (r ∷ rs) = (r ≡ false) × FirstReady i rs

-- None of the futures is ready.
abbrev pub NoneReady : List Bool → Type 0
NoneReady [] = Unit {0}
NoneReady (r ∷ rs) = (r ≡ false) × NoneReady rs

future_find_first_ready_lem :
    (rs : List Bool)
    → ((future_find_first_ready rs ≡ none) × NoneReady rs)
      ⊎ ((i : ℕ) × (future_find_first_ready rs ≡ some i) × FirstReady i rs)
unfolding future_find_first_ready
future_find_first_ready_lem [] = inl (refl, tt)
future_find_first_ready_lem (false ∷ rs) = elim (future_find_first_ready_lem rs) [
  | inl (e, h) ↦ inl (rw (future_find_first_ready, e) refl, (refl, h))
  | inr (i, e, h) ↦ inr (suc i, rw (future_find_first_ready, e) refl, (refl, h))
]
future_find_first_ready_lem (true ∷ rs) = inr (0, refl, refl)

-- The clock has passed the limit, which is taken modulo 2 ^ 32 microseconds.
abbrev pub IsLate : ℕ → ℕ → Look → Type 0
IsLate timeout_ms start l = u32 (timeout_ms * 1000) < sub_u64 l.now start

-- What one of the looks shows.
abbrev pub Ends : ℕ → ℕ → List Look → ℤ → Type 0
Ends timeout_ms start [] r = ⊥
Ends timeout_ms start (l ∷ looks) r =
    (((i : ℕ) × (r ≡ pos i) × FirstReady i l.ready)
      ⊎ ((r ≡ neg 2) × NoneReady l.ready × IsLate timeout_ms start l))
    ⊎ (NoneReady l.ready × Ends timeout_ms start looks r)

-- Some look finds a future ready, or comes late.
abbrev pub Stops : ℕ → ℕ → List Look → Type 0
Stops timeout_ms start [] = ⊥
Stops timeout_ms start (l ∷ looks) =
    ((i : ℕ) × FirstReady i l.ready) ⊎ IsLate timeout_ms start l ⊎ Stops timeout_ms start looks

not_both : (i : ℕ) (rs : List Bool) → NoneReady rs → FirstReady i rs → ⊥
not_both i [] h f = f
not_both zero (r ∷ rs) (h, _) f = let bad : false ≡ true = sym h ∙ f in cc
not_both (suc i) (r ∷ rs) (_, h) (_, f) = not_both i rs h f

wait_loop_lem :
    (timeout_ms start : ℕ) (looks : List Look)
    → Stops timeout_ms start looks
    → (r : ℤ) × (wait_loop timeout_ms start looks ≡ some r) × Ends timeout_ms start looks r
unfolding wait_loop
wait_loop_lem timeout_ms start [] s = elim s [ ]
wait_loop_lem timeout_ms start (l ∷ looks) s = elim (future_find_first_ready_lem l.ready) [
  | inr (i, e, f) ↦ (pos i, rw (wait_loop, e) refl, inl (inl (i, refl, f)))
  | inl (e, none_) ↦ elim (Bool-cases (ltb (u32 (timeout_ms * 1000)) (sub_u64 l.now start))) [
    | inl late ↦ (neg 2, rw (wait_loop, e, late) refl, inl (inr (refl, none_, ground arith)))
    | inr early ↦ elim s [
      | inl (i, f) ↦ absurd (not_both i l.ready none_ f)
      | inr o ↦ elim o [
        | inl late ↦ absurd (ground arith)
        | inr more ↦
            let (r, run, t) = wait_loop_lem timeout_ms start looks more in
            (r, rw (wait_loop, e, early) run, inr (none_, t))
      ]
    ]
  ]
]

-- If at some look a future is ready, or the clock has passed the limit, then the wait for one or more
-- futures ends, at the first such look: with the place of the first future that is ready at it, or,
-- if none is, with -2. The limit is `timeout_ms * 1000` modulo 2 ^ 32.
pub future_wait_any_lem :
    (count timeout_ms start : ℕ) (looks : List Look)
    → 0 < count
    → Stops timeout_ms start looks
    → (r : ℤ) × (future_wait_any count timeout_ms start looks ≡ some r)
      × Ends timeout_ms start looks r
unfolding future_wait_any
future_wait_any_lem zero timeout_ms start looks pos_ s = absurd (omega arith)
future_wait_any_lem (suc n) timeout_ms start looks pos_ s = wait_loop_lem timeout_ms start looks s
