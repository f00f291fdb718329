-- ===== src/LruMap/Laws.antt =====
-- `order_` and `kv_` in step: the invariant of the map.
pub mod Put
pub mod Reads
pub mod Lookup
use quarrel.Prelude.{
  ℕ, suc, ◌+◌, ◌≤◌, ◌<◌, ◌≡◌, ◌≢◌, refl, sym, ap, ◌∙◌, List, [], ◌∷◌, Option, none, some, length,
  take, ◌==◌, if◌then◌else◌, arith, Option-cases, inl, inr,
}
use quarrel.Prelude.Assoc.{
  lookup, insert, erase, Distinct, lookup-erase_ne, lookup-erase_self, erase-Distinct, length-erase,
}
use quarrel.LruMap.Nodes.{
  Node, items, addresses, residents, Below, lookup-addresses-none, erase_node, find_node_lem,
  items-erase_node, addresses-erase_node, residents-erase_node, erase_node-Below,
}
use quarrel.LruMap.{LruMap, put, get_ptr, write_ptr, del, evict, init}

-- The list and the index agree.
pub record Linked {V : Type 0} (m : LruMap V) : Type 0 where
  pub keys : Distinct (items m.order)
  pub nodes : Distinct (residents m.order)
  pub below : Below m.next_address m.order
  pub index : (k : ℕ) → lookup k m.kv ≡ lookup k (addresses m.order)
  pub kv_keys : Distinct m.kv
  pub sized : length m.kv ≡ length m.order

pub record IsValid {V : Type 0} (m : LruMap V) : Type 0 where
  pub linked : Linked m
  pub bounded : length m.order ≤ m.max_size

-- What a client sees: the entries, most recently used first.
abbrev pub contents : {V : Type 0} → LruMap V → List (ℕ × V)
contents m = items m.order

module _ {V : Type 0} where
  pub addresses-Distinct : (o : List (Node V)) → Distinct (items o) → Distinct (addresses o)
  addresses-Distinct [] d = tt
  addresses-Distinct (n ∷ o) d = (lookup-addresses-none n.key o d.0, addresses-Distinct o d.1)

  pub length-items : (o : List (Node V)) → length (items o) ≡ length o
  length-items [] = refl
  length-items (n ∷ o) = ap suc (length-items o)

  pub length-addresses : (o : List (Node V)) → length (addresses o) ≡ length o
  length-addresses [] = refl
  length-addresses (n ∷ o) = ap suc (length-addresses o)

  pub length-erase_node :
      (k a : ℕ) (o : List (Node V))
      → lookup k (addresses o) ≡ some a
      → Distinct (residents o)
      → suc (length (erase_node a o)) ≡ length o
  length-erase_node k a o found d =
      let (n, _, _, _, here) = find_node_lem k a o found d in
      omega (
        arith,
        length-items o,
        length-items (erase_node a o),
        ap length (items-erase_node k a o found d),
        length-erase k n.value (items o) here,
      )

  pub init-IsValid : (max : ℕ) → IsValid (init {V = V} max)
  unfolding init lookup
  init-IsValid max = record {
    linked = record {
      keys = tt;
      nodes = tt;
      below = tt;
      index = λ k. refl;
      kv_keys = tt;
      sized = refl;
    };
    bounded = omega arith;
  }
