-- ===== src/LruMap/Nodes.antt =====
-- `std::list` nodes and their addresses. Three views of a node list are association lists.
use quarrel.Prelude.{
  ℕ, suc, ◌<◌, ◌≡◌, ◌≢◌, refl, ◌∷◌, List, [], Option, none, some, ◌==◌, if◌then◌else◌, arith,
}
use quarrel.Prelude.{Bool-cases, inl, inr}
use quarrel.Prelude.Assoc.{lookup, erase, Distinct}

pub record Node (V : Type 0) : Type 0 where
  pub key : ℕ
  pub value : V
  pub address : ℕ

module _ {V : Type 0} where
  unfoldable pub find_node : ℕ → List (Node V) → Option (Node V)
  find_node a [] = none
  find_node a (n ∷ o) = if n.address == a then some n else find_node a o

  unfoldable pub erase_node : ℕ → List (Node V) → List (Node V)
  erase_node a [] = []
  erase_node a (n ∷ o) = if n.address == a then o else n ∷ erase_node a o

  unfoldable pub update_node : ℕ → V → List (Node V) → List (Node V)
  update_node a v [] = []
  update_node a v (n ∷ o) =
      if n.address == a then record n { value = v } ∷ o else n ∷ update_node a v o

  unfoldable pub back : List (Node V) → Option (Node V)
  back [] = none
  back (n ∷ []) = some n
  back (n ∷ m ∷ o) = back (m ∷ o)

  unfoldable pub pop_back : List (Node V) → List (Node V)
  pop_back [] = []
  pop_back (n ∷ []) = []
  pop_back (n ∷ m ∷ o) = n ∷ pop_back (m ∷ o)

  -- What the list holds, where each key stands, and what stands at each address.
  abbrev pub items : List (Node V) → List (ℕ × V)
  items [] = []
  items (n ∷ o) = (n.key, n.value) ∷ items o

  abbrev pub addresses : List (Node V) → List (ℕ × ℕ)
  addresses [] = []
  addresses (n ∷ o) = (n.key, n.address) ∷ addresses o

  abbrev pub residents : List (Node V) → List (ℕ × ℕ)
  residents [] = []
  residents (n ∷ o) = (n.address, n.key) ∷ residents o

  -- Every address is below the next one to be allocated.
  abbrev pub Below : ℕ → List (Node V) → Type 0
  Below b [] = Unit {0}
  Below b (n ∷ o) = (n.address < b) × Below b o

  pub Below-suc : (b : ℕ) (o : List (Node V)) → Below b o → Below (suc b) o
  Below-suc b [] h = tt
  Below-suc b (n ∷ o) h = (omega arith, Below-suc b o h.1)

  pub lookup-residents :
      (k a : ℕ) (o : List (Node V))
      → lookup k (addresses o) ≡ some a
      → lookup a (residents o) ≢ none
  unfolding lookup
  lookup-residents k a [] h = cc
  lookup-residents k a (n ∷ o) h = ground (arith, lookup-residents k a o)

  pub lookup-Below :
      (k a b : ℕ) (o : List (Node V)) → lookup k (addresses o) ≡ some a → Below b o → a < b
  unfolding lookup
  lookup-Below k a b [] h l = absurd (ground arith)
  lookup-Below k a b (n ∷ o) h l = ground (arith, lookup-Below k a b o)

  pub residents_fresh : (b : ℕ) (o : List (Node V)) → Below b o → lookup b (residents o) ≡ none
  unfolding lookup
  residents_fresh b [] h = refl
  residents_fresh b (n ∷ o) h = ground (arith, residents_fresh b o h.1)

  pub lookup-items-none :
      (k : ℕ) (o : List (Node V)) → lookup k (addresses o) ≡ none → lookup k (items o) ≡ none
  unfolding lookup
  lookup-items-none k [] h = refl
  lookup-items-none k (n ∷ o) h = ground (arith, lookup-items-none k o)

  pub lookup-addresses-none :
      (k : ℕ) (o : List (Node V)) → lookup k (items o) ≡ none → lookup k (addresses o) ≡ none
  unfolding lookup
  lookup-addresses-none k [] h = refl
  lookup-addresses-none k (n ∷ o) h = ground (arith, lookup-addresses-none k o)

  -- To erase by the address of a key is to erase the key, in each view.
  module _ (k a : ℕ) where
    pub items-erase_node :
        (o : List (Node V))
        → lookup k (addresses o) ≡ some a
        → Distinct (residents o)
        → items (erase_node a o) ≡ erase k (items o)
    unfolding lookup erase_node erase
    items-erase_node [] h d = refl
    items-erase_node (n ∷ o) h d = ground (arith, items-erase_node o, lookup-residents k a o)

    pub addresses-erase_node :
        (o : List (Node V))
        → lookup k (addresses o) ≡ some a
        → Distinct (residents o)
        → addresses (erase_node a o) ≡ erase k (addresses o)
    unfolding lookup erase_node erase
    addresses-erase_node [] h d = refl
    addresses-erase_node (n ∷ o) h d =
        ground (arith, addresses-erase_node o, lookup-residents k a o)

    pub find_node_lem :
        (o : List (Node V))
        → lookup k (addresses o) ≡ some a
        → Distinct (residents o)
        → (n : Node V) × (find_node a o ≡ some n)
          × (n.key ≡ k)
          × (n.address ≡ a)
          × (lookup k (items o) ≡ some n.value)
    unfolding lookup find_node
    find_node_lem [] h d = absurd (ground arith)
    find_node_lem (n ∷ o) h d = elim (Bool-cases (n.key == k)) [
      | inl here ↦ (n, ground arith, ground arith, ground arith, ground arith)
      | inr there ↦
          let (m, found, key, address, value) = find_node_lem o (ground arith) d.1 in
          (m, ground (arith, lookup-residents k a o), key, address, ground arith)
    ]

  pub residents-erase_node :
      (a : ℕ) (o : List (Node V)) → residents (erase_node a o) ≡ erase a (residents o)
  unfolding erase_node erase
  residents-erase_node a [] = refl
  residents-erase_node a (n ∷ o) = ground (arith, residents-erase_node a o)

  pub erase_node-Below : (a b : ℕ) (o : List (Node V)) → Below b o → Below b (erase_node a o)
  unfolding erase_node
  erase_node-Below a b [] h = h
  erase_node-Below a b (n ∷ o) h = ground (arith, erase_node-Below a b o h.1)
