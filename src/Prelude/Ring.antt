-- ===== src/Prelude/Ring.antt =====
-- Positions in a ring of `n`.
use quarrel.Prelude.{ℕ, ◌+◌, ◌-◌, ◌%◌, ◌≤◌, ◌<◌, ◌≡◌, ◌⊎◌, inl, inr, sym, ◌∙◌, arith}
use native.Mathlib.Decide.{dec_lt}
use native.Mathlib.Nat.{mod-lt, mod-eq_of_lt, mod-add-mod, mod-eq-sub-mod}

wrap : (n a : ℕ) → a < n + n → ((a % n ≡ a) × (a < n)) ⊎ ((a % n ≡ a - n) × (n ≤ a))
wrap n a h = elim (dec_lt a n) [
  | yes lt ↦ inl (mod-eq_of_lt lt, lt)
  | no ge ↦ inr (mod-eq-sub-mod (omega arith) ∙ mod-eq_of_lt (omega arith), omega arith)
]

-- Two distances below `n` from one slot end in one slot only if they are the same.
pub wrap_unique : (n s i j : ℕ) → s < n → i < n → j < n → (s + i) % n ≡ (s + j) % n → i ≡ j
wrap_unique n s i j s0 i0 j0 e = elim (wrap n (s + i) (omega arith)) [
  | inl a ↦ elim (wrap n (s + j) (omega arith)) [ inl b ↦ omega arith | inr b ↦ omega arith ]
  | inr a ↦ elim (wrap n (s + j) (omega arith)) [ inl b ↦ omega arith | inr b ↦ omega arith ]
]

-- The same from any number on.
pub mod_unique : (n s i j : ℕ) → 0 < n → i < n → j < n → (s + i) % n ≡ (s + j) % n → i ≡ j
mod_unique n s i j n0 i0 j0 e =
    wrap_unique n (s % n) i j (mod-lt s n0) i0 j0 (mod-add-mod s n i ∙ e ∙ sym (mod-add-mod s n j))
