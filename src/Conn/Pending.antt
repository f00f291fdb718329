-- ===== src/Conn/Pending.antt =====
-- How far from the front of the map a request stands.
use quarrel.Prelude.{
  ℕ, zero, suc, ◌≤◌, ◌<◌, ◌≡◌, ◌≢◌, List, [], ◌∷◌, some, take, ◌==◌, if◌then◌else◌, arith,
}
use quarrel.Prelude.Assoc.{lookup, erase}

module _ {V : Type 0} where
  -- The number of entries in front of the key.
  unfoldable pub depth : ℕ → List (ℕ × V) → ℕ
  depth k [] = 0
  depth k (e ∷ m) = if e.0 == k then 0 else suc (depth k m)

  pub depth-erase : (k j : ℕ) (m : List (ℕ × V)) → j ≢ k → depth k (erase j m) ≤ depth k m
  unfolding depth erase
  depth-erase k j [] ne = omega arith
  depth-erase k j ((i, w) ∷ m) ne = ground (arith, depth-erase k j m ne)

  pub lookup-take :
      (n k : ℕ) (v : V) (m : List (ℕ × V))
      → lookup k m ≡ some v
      → depth k m < n
      → (lookup k (take n m) ≡ some v) × (depth k (take n m) ≡ depth k m)
  unfolding depth lookup
  lookup-take zero k v m e lt = absurd (omega arith)
  lookup-take (suc n) k v [] e lt = ground arith
  lookup-take (suc n) k v ((i, w) ∷ m) e lt = ground (arith, lookup-take n k v m)
