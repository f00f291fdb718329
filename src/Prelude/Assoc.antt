-- ===== src/Prelude/Assoc.antt =====
-- Association lists with uint64_t keys: `std::unordered_map` as far as the program uses it.
use quarrel.Prelude.Tests.{◌==◌, if◌then◌else◌}
use quarrel.Prelude.Lists.{length}
use Prim.Native.Nat.{ℕ, suc}
use mathlib.Core.Path.{◌≡◌, refl}
use mathlib.Core.Logic.{◌≢◌}
use mathlib.Core.List.{List, [], ◌∷◌}
use mathlib.Core.Option.{Option, none, some}
use native.Mathlib.Omega.{arith}

module _ {V : Type 0} where
  -- `m.erase(k)`
  unfoldable pub erase : ℕ → List (ℕ × V) → List (ℕ × V)
  erase k [] = []
  erase k (e ∷ m) = if e.0 == k then m else e ∷ erase k m

  unfoldable pub lookup : ℕ → List (ℕ × V) → Option V
  lookup k [] = none
  lookup k (e ∷ m) = if e.0 == k then some e.1 else lookup k m

  -- `m[k] = v`
  unfoldable pub insert : ℕ → V → List (ℕ × V) → List (ℕ × V)
  insert k v [] = (k, v) ∷ []
  insert k v (e ∷ m) = if e.0 == k then (k, v) ∷ m else e ∷ insert k v m

  -- No key stands twice.
  abbrev pub Distinct : List (ℕ × V) → Type 0
  Distinct [] = Unit {0}
  Distinct ((k, v) ∷ m) = (lookup k m ≡ none) × Distinct m

  pub lookup-insert :
      (k j : ℕ) (v : V) (m : List (ℕ × V))
      → lookup j (insert k v m) ≡ (if k == j then some v else lookup j m)
  unfolding lookup insert
  lookup-insert k j v (e ∷ m) = ground (arith, lookup-insert k j v m)
  lookup-insert k j v [] = refl

  pub lookup-erase_ne : (k j : ℕ) (m : List (ℕ × V)) → k ≢ j → lookup j (erase k m) ≡ lookup j m
  unfolding lookup erase
  lookup-erase_ne k j [] h = refl
  lookup-erase_ne k j ((i, w) ∷ m) h = ground (arith, lookup-erase_ne k j m)

  pub lookup-erase_self : (k : ℕ) (m : List (ℕ × V)) → Distinct m → lookup k (erase k m) ≡ none
  unfolding lookup erase
  lookup-erase_self k [] d = refl
  lookup-erase_self k ((i, w) ∷ m) d = ground (arith, lookup-erase_self k m d.1)

  pub insert-Distinct : (k : ℕ) (v : V) (m : List (ℕ × V)) → Distinct m → Distinct (insert k v m)
  unfolding lookup insert
  insert-Distinct k v [] d = ground arith
  insert-Distinct k v ((i, w) ∷ m) d =
      ground (arith, insert-Distinct k v m d.1, lookup-insert k i v m)

  pub erase-Distinct : (k : ℕ) (m : List (ℕ × V)) → Distinct m → Distinct (erase k m)
  unfolding lookup erase
  erase-Distinct k [] d = d
  erase-Distinct k ((i, w) ∷ m) d = ground (arith, erase-Distinct k m d.1, lookup-erase_ne k i m)

  pub length-insert_new :
      (k : ℕ) (v : V) (m : List (ℕ × V))
      → lookup k m ≡ none
      → length (insert k v m) ≡ suc (length m)
  unfolding lookup insert
  length-insert_new k v [] h = refl
  length-insert_new k v ((i, w) ∷ m) h = ground (arith, length-insert_new k v m)

  pub length-insert_old :
      (k : ℕ) (v w : V) (m : List (ℕ × V)) → lookup k m ≡ some w → length (insert k v m) ≡ length m
  unfolding lookup insert
  length-insert_old k v w [] h = ground arith
  length-insert_old k v w ((i, x) ∷ m) h = ground (arith, length-insert_old k v w m)

  pub length-erase :
      (k : ℕ) (w : V) (m : List (ℕ × V)) → lookup k m ≡ some w → suc (length (erase k m)) ≡ length m
  unfolding lookup erase
  length-erase k w [] h = ground arith
  length-erase k w ((i, x) ∷ m) h = ground (arith, length-erase k w m)

  pub erase_absent : (k : ℕ) (m : List (ℕ × V)) → lookup k m ≡ none → erase k m ≡ m
  unfolding lookup erase
  erase_absent k [] h = refl
  erase_absent k ((i, x) ∷ m) h = ground (arith, erase_absent k m)

  -- A write to an entry that is there.
  unfoldable pub replace : ℕ → V → List (ℕ × V) → List (ℕ × V)
  replace k v [] = []
  replace k v ((j, w) ∷ m) = if j == k then (j, v) ∷ m else (j, w) ∷ replace k v m

  pub lookup-replace :
      (k j : ℕ) (v w : V) (m : List (ℕ × V))
      → lookup k m ≡ some w
      → lookup j (replace k v m) ≡ (if k == j then some v else lookup j m)
  unfolding lookup replace
  lookup-replace k j v w [] h = ground arith
  lookup-replace k j v w ((i, x) ∷ m) h = ground (arith, lookup-replace k j v w m)

  pub replace-none :
      (k j : ℕ) (v : V) (m : List (ℕ × V)) → lookup j m ≡ none → lookup j (replace k v m) ≡ none
  unfolding lookup replace
  replace-none k j v [] h = refl
  replace-none k j v ((i, x) ∷ m) h = ground (arith, replace-none k j v m)

  pub replace_absent : (k : ℕ) (v : V) (m : List (ℕ × V)) → lookup k m ≡ none → replace k v m ≡ m
  unfolding lookup replace
  replace_absent k v [] h = refl
  replace_absent k v ((i, x) ∷ m) h = ground (arith, replace_absent k v m)

  pub replace-Distinct : (k : ℕ) (v : V) (m : List (ℕ × V)) → Distinct m → Distinct (replace k v m)
  unfolding replace
  replace-Distinct k v [] d = d
  replace-Distinct k v ((i, x) ∷ m) d =
      ground (arith, replace-none k i v m, replace-Distinct k v m d.1)

  -- A use of an entry that is there.
  unfoldable pub touch : ℕ → List (ℕ × V) → List (ℕ × V)
  touch k m = elim (lookup k m) [ none ↦ m | some v ↦ (k, v) ∷ erase k m ]

  pub lookup-touch : (k j : ℕ) (m : List (ℕ × V)) → lookup j (touch k m) ≡ lookup j m
  unfolding lookup touch
  lookup-touch k j m = ground (arith, lookup-erase_ne k j m)
