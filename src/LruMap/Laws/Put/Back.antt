-- ===== src/LruMap/Laws/Put/Back.antt =====
-- The last node of the list, and the list without it.
use quarrel.Prelude.{
  ℕ, zero, suc, ◌≡◌, ◌≢◌, refl, ap, List, [], ◌∷◌, none, some, length, take, arith,
}
use quarrel.Prelude.Assoc.{lookup, erase, Distinct}
use quarrel.LruMap.Nodes.{Node, items, addresses, residents, Below, back, pop_back}

module _ {V : Type 0} where
  pub items-pop_back :
      (n : ℕ) (o : List (Node V)) → length o ≡ suc n → items (pop_back o) ≡ take n (items o)
  unfolding pop_back
  items-pop_back n [] h = absurd (omega arith)
  items-pop_back zero (x ∷ []) h = refl
  items-pop_back (suc n) (x ∷ []) h = absurd (omega arith)
  items-pop_back zero (x ∷ y ∷ o) h = absurd (omega arith)
  items-pop_back (suc n) (x ∷ y ∷ o) h =
      ap (◌∷◌ (x.key, x.value)) (items-pop_back n (y ∷ o) (omega arith))

  pub length-pop_back : (n : ℕ) (o : List (Node V)) → length o ≡ suc n → length (pop_back o) ≡ n
  unfolding pop_back
  length-pop_back n [] h = absurd (omega arith)
  length-pop_back n (x ∷ []) h = omega arith
  length-pop_back zero (x ∷ y ∷ o) h = absurd (omega arith)
  length-pop_back (suc n) (x ∷ y ∷ o) h = ap suc (length-pop_back n (y ∷ o) (omega arith))

  pub pop_back-Below : (b : ℕ) (o : List (Node V)) → Below b o → Below b (pop_back o)
  unfolding pop_back
  pop_back-Below b [] h = tt
  pop_back-Below b (x ∷ []) h = tt
  pop_back-Below b (x ∷ y ∷ o) h = (h.0, pop_back-Below b (y ∷ o) h.1)

  pub back_lem : (n : ℕ) (o : List (Node V)) → length o ≡ suc n → (x : Node V) × (back o ≡ some x)
  unfolding back
  back_lem n [] h = absurd (omega arith)
  back_lem n (x ∷ []) h = (x, refl)
  back_lem zero (x ∷ y ∷ o) h = absurd (omega arith)
  back_lem (suc n) (x ∷ y ∷ o) h = back_lem n (y ∷ o) (omega arith)

  pub lookup-back :
      (o : List (Node V)) (x : Node V) → back o ≡ some x → lookup x.key (items o) ≢ none
  unfolding back lookup
  lookup-back [] x h = cc
  lookup-back (y ∷ []) x h = ground arith
  lookup-back (y ∷ z ∷ o) x h = ground (arith, lookup-back (z ∷ o) x h)

  -- What the list loses is the last node's key, in each view.
  pub addresses-pop_back :
      (o : List (Node V)) (x : Node V)
      → back o ≡ some x
      → Distinct (items o)
      → addresses (pop_back o) ≡ erase x.key (addresses o)
  unfolding back pop_back erase
  addresses-pop_back [] x h d = refl
  addresses-pop_back (y ∷ []) x h d = ground arith
  addresses-pop_back (y ∷ z ∷ o) x h d =
      ground (arith, addresses-pop_back (z ∷ o) x h d.1, lookup-back (z ∷ o) x h, d.0)

  residents-pop_back :
      (a : ℕ) (o : List (Node V))
      → lookup a (residents o) ≡ none
      → lookup a (residents (pop_back o)) ≡ none
  unfolding pop_back lookup
  residents-pop_back a [] h = h
  residents-pop_back a (y ∷ []) h = refl
  residents-pop_back a (y ∷ z ∷ o) h = ground (arith, residents-pop_back a (z ∷ o))

  items-pop_back-none :
      (k : ℕ) (o : List (Node V)) → lookup k (items o) ≡ none → lookup k (items (pop_back o)) ≡ none
  unfolding pop_back lookup
  items-pop_back-none k [] h = h
  items-pop_back-none k (y ∷ []) h = refl
  items-pop_back-none k (y ∷ z ∷ o) h = ground (arith, items-pop_back-none k (z ∷ o))

  pub pop_back-Distinct : (o : List (Node V)) → Distinct (items o) → Distinct (items (pop_back o))
  unfolding pop_back
  pop_back-Distinct [] d = d
  pop_back-Distinct (y ∷ []) d = tt
  pop_back-Distinct (y ∷ z ∷ o) d =
      (items-pop_back-none y.key (z ∷ o) d.0, pop_back-Distinct (z ∷ o) d.1)

  pub pop_back-nodes :
      (o : List (Node V)) → Distinct (residents o) → Distinct (residents (pop_back o))
  unfolding pop_back
  pop_back-nodes [] d = d
  pop_back-nodes (y ∷ []) d = tt
  pop_back-nodes (y ∷ z ∷ o) d =
      (residents-pop_back y.address (z ∷ o) d.0, pop_back-nodes (z ∷ o) d.1)
