-- ===== src/IdGen/Laws.antt =====
-- Ids of one generator: its residue class of the step, and its growth.
use quarrel.Prelude.{
  ℕ, suc, ◌+◌, ◌-◌, ◌*◌, ◌/◌, ◌^◌, ◌≤◌, ◌<◌, ◌≡◌, ◌≢◌, refl, ap, arith, ◌⊎◌, inl, inr,
}
use quarrel.Prelude.Words.{u64, sub_u64}
use native.Mathlib.Decide.{dec_le, dec_lt}
use quarrel.IdGen.{IdGen, get_and_inc, set_greater_than}

-- The id is `start` and some number of steps.
abbrev pub Follows : ℕ → IdGen → Type 0
Follows start g = (k : ℕ) × (g.id ≡ start + k * g.step)

-- If the next id does not pass 2 ^ 64, taking an id keeps the generator in the sequence of its start:
-- its id is the start and a number of steps.
pub get_and_inc-Follows :
    (start : ℕ) (g : IdGen)
    → g.id + g.step < 2 ^ 64
    → Follows start g
    → Follows start (get_and_inc g).1
unfolding get_and_inc
get_and_inc-Follows start g h (k, e) = (suc k, omega arith)

round_up : (d s : ℕ) → 0 < s → (d ≤ (d + s - 1) / s * s) × ((d + s - 1) / s * s < d + s)
round_up d s h = grind arith

-- The dividend of `SetGreaterThan` does not wrap.
no_wrap :
    (v id step : ℕ)
    → 0 < step
    → id < v
    → v + step ≤ 2 ^ 64
    → sub_u64 (u64 (sub_u64 v id + step)) 1 ≡ v - id + step - 1
no_wrap v id step pos gap fits = omega arith

set_greater_than_above :
    (v : ℕ) (g : IdGen)
    → 0 < g.step
    → g.id < v
    → v + g.step ≤ 2 ^ 64
    → (set_greater_than v g).id ≡ g.id + (v - g.id + g.step - 1) / g.step * g.step
unfolding set_greater_than
set_greater_than_above v g pos gap fits =
    let b = round_up (v - g.id) g.step pos in rw (no_wrap v g.id g.step pos gap fits) (ground arith)

set_greater_than_below : (v : ℕ) (g : IdGen) → v ≤ g.id → set_greater_than v g ≡ g
unfolding set_greater_than
set_greater_than_below v g h = ground arith

pub set_greater_than-step : (v : ℕ) (g : IdGen) → (set_greater_than v g).step ≡ g.step
unfolding set_greater_than
set_greater_than-step v g = ground arith

-- If the step is not 0 and `v` and a step do not pass 2 ^ 64, the id after `SetGreaterThan(v)` is not
-- below `v` and not below the old id; and it is below `v` and a step, or the generator is as before.
pub set_greater_than_bounds :
    (v : ℕ) (g : IdGen)
    → 0 < g.step
    → v + g.step ≤ 2 ^ 64
    → (v ≤ (set_greater_than v g).id)
      × (g.id ≤ (set_greater_than v g).id)
      × (((set_greater_than v g).id < v + g.step) ⊎ (set_greater_than v g ≡ g))
set_greater_than_bounds v g pos fits = elim (dec_le v g.id) [
  | yes h ↦ rw (set_greater_than_below v g h) (h, omega arith, inr refl)
  | no h ↦
      let e = set_greater_than_above v g pos (omega arith) fits in
      let b = round_up (v - g.id) g.step pos in (omega arith, omega arith, inl (omega arith))
]

-- If the step is not 0 and `v` and a step do not pass 2 ^ 64, `SetGreaterThan(v)` keeps the generator
-- in the sequence of its start.
pub set_greater_than-Follows :
    (start v : ℕ) (g : IdGen)
    → 0 < g.step
    → v + g.step ≤ 2 ^ 64
    → Follows start g
    → Follows start (set_greater_than v g)
set_greater_than-Follows start v g pos fits (k, e) = elim (dec_le v g.id) [
  | yes h ↦ rw (set_greater_than_below v g h) (k, e)
  | no h ↦ (
    k + (v - g.id + g.step - 1) / g.step,
    rw (set_greater_than_above v g pos (omega arith) fits, set_greater_than-step v g)
        (omega (arith, e)),
  )
]

residue_unique : (s t k m n : ℕ) → 0 < s → s ≤ n → 0 < t → t ≤ n → s + k * n ≡ t + m * n → s ≡ t
residue_unique s t k m n s0 s1 t0 t1 e = elim (dec_lt k m) [
  | yes below ↦ let b : suc k * n ≤ m * n = grind arith in absurd (omega arith)
  | no above ↦ elim (dec_lt m k) [
    | yes below ↦ let b : suc m * n ≤ k * n = grind arith in absurd (omega arith)
    | no same ↦ let q : k ≡ m = omega arith in omega (arith, ap (λ (x : ℕ). x * n) q)
  ]
]

-- Two generators with the same step, in the sequences of two different starts among the numbers 1 to
-- that step, have different ids.
pub Follows-apart :
    (s t : ℕ) (g h : IdGen)
    → g.step ≡ h.step
    → 0 < s
    → s ≤ g.step
    → 0 < t
    → t ≤ g.step
    → s ≢ t
    → Follows s g
    → Follows t h
    → g.id ≢ h.id
Follows-apart s t g h same s0 s1 t0 t1 ne (k, e) (m, f) = λ eq. ne (
    residue_unique s t k m g.step s0 s1 t0 (omega arith)
      (omega (arith, ap (λ (x : ℕ). m * x) same)))
