-- ===== src/LruMap/Laws/Put.antt =====
-- `Put`: the entry goes to the front, and the least recent one beyond the capacity goes.
mod Back
use quarrel.Prelude.{
  ℕ, zero, suc, ◌+◌, ◌≤◌, ◌<◌, ◌≡◌, ◌≢◌, refl, sym, subst, ap, ap₂, ◌∙◌, List, [], ◌∷◌, Option,
  none, some, length, take, ◌==◌, if◌then◌else◌, arith, Option-cases, inl, inr, take_of_length-le,
}
use quarrel.Prelude.Assoc.{
  lookup, insert, erase, Distinct, lookup-insert, lookup-erase_ne, lookup-erase_self,
  erase-Distinct, insert-Distinct, length-erase, length-insert_new, length-insert_old, erase_absent,
}
use quarrel.LruMap.Nodes.{
  Node, items, addresses, residents, Below, Below-suc, lookup-items-none, lookup-Below, erase_node,
  back, pop_back, items-erase_node, addresses-erase_node, residents-erase_node, erase_node-Below,
  residents_fresh,
}
use native.Mathlib.Decide.{dec_lt, ℕ_discrete}
use quarrel.LruMap.{LruMap, put, link, evict}
use quarrel.LruMap.Laws.{
  Linked, IsValid, contents, addresses-Distinct, length-items, length-erase_node,
}
use Back.{
  lookup-back, items-pop_back, length-pop_back, pop_back-Below, back_lem, addresses-pop_back,
  pop_back-Distinct, pop_back-nodes,
}

module _ {V : Type 0} where
  erase_fresh :
      (a : ℕ) (n : Node V) (o : List (Node V))
      → a < n.address
      → erase_node a (n ∷ o) ≡ n ∷ erase_node a o
  unfolding erase_node
  erase_fresh a n o h = ground arith

  -- The order after `link`, when the index has the key or not.
  Linked-order :
      (k : ℕ) (v : V) (m : LruMap V)
      → Linked m
      → (o : List (Node V)) × ((link k v m).order
          ≡ record { key = k; value = v; address = m.next_address } ∷ o)
        × (items o ≡ erase k (items m.order))
        × (addresses o ≡ erase k (addresses m.order))
        × Distinct (residents o)
        × Below m.next_address o
        × (length o ≤ length m.order)
        × (length (insert k m.next_address m.kv) ≡ suc (length o))
  unfolding link erase_node
  Linked-order k v m l = elim (Option-cases (lookup k m.kv)) [
    | inl new ↦
        let absent : lookup k (addresses m.order) ≡ none = sym (l.index k) ∙ new in
        (
          m.order,
          rw (new, link),
          sym (erase_absent k _ (lookup-items-none k m.order absent)),
          sym (erase_absent k _ absent),
          l.nodes,
          l.below,
          omega arith,
          length-insert_new k m.next_address m.kv new ∙ ap suc l.sized,
        )
    | inr (a, old) ↦
        let found : lookup k (addresses m.order) ≡ some a = sym (l.index k) ∙ old in
        let o : List (Node V) = erase_node a m.order in
        let size : suc (length o) ≡ length m.order = length-erase_node k a m.order found l.nodes in
        (
          o,
          rw (old, link) (erase_fresh a _ m.order (lookup-Below k a _ m.order found l.below)),
          items-erase_node k a m.order found l.nodes,
          addresses-erase_node k a m.order found l.nodes,
          rw (residents-erase_node a m.order) (erase-Distinct a _ l.nodes),
          erase_node-Below a _ m.order l.below,
          omega (arith, size),
          omega (arith, size, l.sized, length-insert_old k m.next_address a m.kv old),
        )
  ]

  contents-link :
      (k : ℕ) (v : V) (m : LruMap V)
      → Linked m
      → contents (link k v m) ≡ (k, v) ∷ erase k (contents m)
  contents-link k v m l = let r = Linked-order k v m l in rw r.1 (ap (◌∷◌ (k, v)) r.2)

  link-kv : (k : ℕ) (v : V) (m : LruMap V) → (link k v m).kv ≡ insert k m.next_address m.kv
  unfolding link
  link-kv k v m = refl

  link-next : (k : ℕ) (v : V) (m : LruMap V) → (link k v m).next_address ≡ suc m.next_address
  unfolding link
  link-next k v m = refl

  link-max : (k : ℕ) (v : V) (m : LruMap V) → (link k v m).max_size ≡ m.max_size
  unfolding link
  link-max k v m = refl

  Linked-index :
      (k j : ℕ) (m : LruMap V) (o : List (Node V))
      → Linked m
      → addresses o ≡ erase k (addresses m.order)
      → lookup j (insert k m.next_address m.kv) ≡ lookup j ((k, m.next_address) ∷ addresses o)
  unfolding lookup
  Linked-index k j m o l f = rw f (
      ground (
        arith,
        lookup-insert k j m.next_address m.kv,
        lookup-erase_ne k j (addresses m.order),
        l.index j,
      ))

  link-Linked :
      (k : ℕ) (v : V) (m : LruMap V)
      → Linked m
      → Linked (link k v m) × (length (link k v m).order ≤ suc (length m.order))
  link-Linked k v m l =
      let (o, order, e, f, nodes, below, shorter, size) = Linked-order k v m l in
      (
        record {
          keys = rw (order, e) (lookup-erase_self k _ l.keys, erase-Distinct k _ l.keys);
          nodes = rw order (residents_fresh m.next_address o below, nodes);
          below = rw order (
              subst (λ b. Below b (record { key = k; value = v; address = m.next_address } ∷ o))
                (sym (link-next k v m)) (omega arith, Below-suc _ o below));
          index = λ j. rw (link-kv k v m, order) (Linked-index k j m o l f);
          kv_keys = rw link-kv (insert-Distinct k m.next_address m.kv l.kv_keys);
          sized = rw (link-kv, order) size;
        },
        rw order (omega (arith, shorter)),
      )

  evict_over :
      (m : LruMap V) (last : Node V)
      → m.max_size < length m.kv
      → back m.order ≡ some last
      → evict m ≡ record m { kv = erase last.key m.kv; order = pop_back m.order }
  unfolding evict
  evict_over m last h e = rw e (ground arith)

  evict_fits : (m : LruMap V) → length m.kv ≤ m.max_size → evict m ≡ m
  unfolding evict
  evict_fits m h = ground arith

  evicted_index :
      (k j : ℕ) (m : LruMap V)
      → Linked m
      → lookup j (erase k m.kv) ≡ lookup j (erase k (addresses m.order))
  evicted_index k j m l = ground (
    arith,
    l.index j,
    ℕ_discrete k j,
    lookup-erase_ne k j m.kv,
    lookup-erase_ne k j (addresses m.order),
    lookup-erase_self k m.kv l.kv_keys,
    lookup-erase_self k (addresses m.order) (addresses-Distinct m.order l.keys),
  )

  evicted_size :
      (last : Node V) (m : LruMap V)
      → Linked m
      → back m.order ≡ some last
      → suc (length (erase last.key m.kv)) ≡ length m.order
  evicted_size last m l e = elim (Option-cases (lookup last.key m.kv)) [
    | inl gone ↦ absurd (
        lookup-back m.order last e
          (lookup-items-none last.key m.order (sym (l.index last.key) ∙ gone)))
    | inr (a, here) ↦ length-erase last.key a m.kv here ∙ l.sized
  ]

  evict-IsValid :
      (m : LruMap V)
      → Linked m
      → length m.order ≤ suc m.max_size
      → IsValid (evict m) × (contents (evict m) ≡ take m.max_size (contents m))
  evict-IsValid m l h = elim (dec_lt m.max_size (length m.order)) [
    | yes over ↦
        let full : length m.order ≡ suc m.max_size = omega arith in
        let (last, e) = back_lem m.max_size m.order full in
        let cut = addresses-pop_back m.order last e l.keys in
        let size = length-pop_back m.max_size m.order full in
        rw (evict_over m last (omega (arith, l.sized)) e) (
          record {
            linked = record {
              keys = pop_back-Distinct m.order l.keys;
              nodes = pop_back-nodes m.order l.nodes;
              below = pop_back-Below _ m.order l.below;
              index = λ j. rw cut (evicted_index last.key j m l);
              kv_keys = erase-Distinct last.key m.kv l.kv_keys;
              sized = omega (arith, size, evicted_size last m l e);
            };
            bounded = omega (arith, size);
          },
          items-pop_back m.max_size m.order full,
        )
    | no fits ↦ rw (evict_fits m (omega (arith, l.sized))) (
      record { linked = l; bounded = omega arith },
      sym (take_of_length-le _ _ (omega (arith, length-items m.order))),
    )
  ]

  -- `Put` on a map whose list and index agree, and whose size is within the capacity, keeps both so.
  pub put-IsValid : (k : ℕ) (v : V) (m : LruMap V) → IsValid m → IsValid (put k v m)
  unfolding put
  put-IsValid k v m h =
      let (l, size) = link-Linked k v m h.linked in
      (evict-IsValid (link k v m) l (omega (arith, size, h.bounded, link-max k v m))).0

  -- `Put` on a valid map puts the key with its value in front of the other keys, in their order, and
  -- keeps the first `max_size_` of these entries.
  pub contents-put :
      (k : ℕ) (v : V) (m : LruMap V)
      → IsValid m
      → contents (put k v m) ≡ take m.max_size ((k, v) ∷ erase k (contents m))
  unfolding put
  contents-put k v m h =
      let (l, size) = link-Linked k v m h.linked in
      (evict-IsValid (link k v m) l (omega (arith, size, h.bounded, link-max k v m))).1
      ∙ ap₂ take (link-max k v m) (contents-link k v m h.linked)

  pub max_size-put : (k : ℕ) (v : V) (m : LruMap V) → (put k v m).max_size ≡ m.max_size
  unfolding put link evict
  max_size-put k v m = ground arith
