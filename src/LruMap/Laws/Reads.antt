-- ===== src/LruMap/Laws/Reads.antt =====
-- `GetPtr`, writes through its pointer, `Del`, `Exists` and `Size`, against the entries.
use quarrel.Prelude.{
  ℕ, ◌≡◌, refl, sym, ◌∙◌, List, [], ◌∷◌, none, some, length, true, false, arith, Option-cases, inl,
  inr,
}
use quarrel.Prelude.Assoc.{
  lookup, erase, replace, touch, Distinct, lookup-erase_ne, lookup-erase_self, erase-Distinct,
  length-erase, erase_absent, replace_absent, replace-Distinct,
}
use quarrel.LruMap.Nodes.{
  Node, items, addresses, residents, Below, lookup-items-none, lookup-Below, erase_node,
  update_node, find_node, find_node_lem, items-erase_node, addresses-erase_node,
  residents-erase_node, erase_node-Below, lookup-residents,
}
use native.Mathlib.Decide.{ℕ_discrete}
use quarrel.LruMap.{LruMap, get_ptr, write_ptr, del, exists}
use quarrel.LruMap.Laws.{Linked, IsValid, contents, addresses-Distinct, length-erase_node}

module _ {V : Type 0} where
  -- The index misses exactly the keys that have no entry.
  index_none :
      (k : ℕ) (m : LruMap V) → Linked m → lookup k m.kv ≡ none → lookup k (contents m) ≡ none
  index_none k m l e = lookup-items-none k m.order (sym (l.index k) ∙ e)

  get_ptr_miss : (k : ℕ) (m : LruMap V) → lookup k m.kv ≡ none → get_ptr k m ≡ (none, m)
  unfolding get_ptr
  get_ptr_miss k m e = rw (e, get_ptr)

  get_ptr_hit :
      (k a : ℕ) (n : Node V) (m : LruMap V)
      → lookup k m.kv ≡ some a
      → find_node a m.order ≡ some n
      → get_ptr k m ≡ (some n.value, record m { order = n ∷ erase_node a m.order })
  unfolding get_ptr
  get_ptr_hit k a n m e f = ground arith

  -- `GetPtr` on a valid map gives the value of the key, or none where it has none, and moves the entry
  -- of the key, if there is one, to the front.
  pub get_ptr-lookup :
      (k : ℕ) (m : LruMap V)
      → IsValid m
      → ((get_ptr k m).0 ≡ lookup k (contents m))
        × (contents (get_ptr k m).1 ≡ touch k (contents m))
  unfolding touch
  get_ptr-lookup k m h = elim (Option-cases (lookup k m.kv)) [
    | inl e ↦
        let gone = index_none k m h.linked e in
        rw (get_ptr_miss k m e) (sym gone, sym (rw (gone, touch)))
    | inr (a, e) ↦
        let found : lookup k (addresses m.order) ≡ some a = sym (h.linked.index k) ∙ e in
        let (n, at, key, _, here) = find_node_lem k a m.order found h.linked.nodes in
        rw (get_ptr_hit k a n m e at)
          (sym here, rw (key, here, items-erase_node k a m.order found h.linked.nodes, touch))
  ]

  touched_index :
      (k a j : ℕ) (m : LruMap V)
      → Linked m
      → lookup k m.kv ≡ some a
      → lookup j m.kv ≡ lookup j ((k, a) ∷ erase k (addresses m.order))
  unfolding lookup
  touched_index k a j m l e = ground (arith, l.index j, lookup-erase_ne k j (addresses m.order))

  -- `GetPtr` keeps a map valid.
  pub get_ptr-IsValid : (k : ℕ) (m : LruMap V) → IsValid m → IsValid (get_ptr k m).1
  get_ptr-IsValid k m h = elim (Option-cases (lookup k m.kv)) [
    | inl e ↦ rw (get_ptr_miss k m e) h
    | inr (a, e) ↦
        let l = h.linked in
        let found : lookup k (addresses m.order) ≡ some a = sym (l.index k) ∙ e in
        let (n, at, key, addr, _) = find_node_lem k a m.order found l.nodes in
        let o : List (Node V) = erase_node a m.order in
        let size = length-erase_node k a m.order found l.nodes in
        rw (get_ptr_hit k a n m e at) (record {
          linked = record {
            keys = (
              rw (key, items-erase_node k a m.order found l.nodes) (lookup-erase_self k _ l.keys),
              rw (items-erase_node k a m.order found l.nodes) (erase-Distinct k _ l.keys),
            );
            nodes = (
              rw (addr, residents-erase_node a m.order) (lookup-erase_self a _ l.nodes),
              rw (residents-erase_node a m.order) (erase-Distinct a _ l.nodes),
            );
            below = (
              omega (arith, addr, lookup-Below k a _ m.order found l.below),
              erase_node-Below a _ m.order l.below,
            );
            index = λ j.
                rw (key, addr, addresses-erase_node k a m.order found l.nodes)
                  (touched_index k a j m l e);
            kv_keys = l.kv_keys;
            sized = omega (arith, size, l.sized);
          };
          bounded = omega (arith, size, h.bounded);
        })
  ]

  items-update_node :
      (k a : ℕ) (v : V) (o : List (Node V))
      → lookup k (addresses o) ≡ some a
      → Distinct (residents o)
      → items (update_node a v o) ≡ replace k v (items o)
  unfolding lookup update_node replace
  items-update_node k a v [] e d = refl
  items-update_node k a v (n ∷ o) e d =
      ground (arith, items-update_node k a v o, lookup-residents k a o)

  addresses-update_node :
      (a : ℕ) (v : V) (o : List (Node V)) → addresses (update_node a v o) ≡ addresses o
  unfolding update_node
  addresses-update_node a v [] = refl
  addresses-update_node a v (n ∷ o) = ground (arith, addresses-update_node a v o)

  residents-update_node :
      (a : ℕ) (v : V) (o : List (Node V)) → residents (update_node a v o) ≡ residents o
  unfolding update_node
  residents-update_node a v [] = refl
  residents-update_node a v (n ∷ o) = ground (arith, residents-update_node a v o)

  length-update_node : (a : ℕ) (v : V) (o : List (Node V)) → length (update_node a v o) ≡ length o
  unfolding update_node
  length-update_node a v [] = refl
  length-update_node a v (n ∷ o) = ground (arith, length-update_node a v o)

  update_node-Below :
      (a b : ℕ) (v : V) (o : List (Node V)) → Below b o → Below b (update_node a v o)
  unfolding update_node
  update_node-Below a b v [] h = h
  update_node-Below a b v (n ∷ o) h = ground (arith, update_node-Below a b v o h.1)

  write_ptr_hit :
      (k a : ℕ) (v : V) (m : LruMap V)
      → lookup k m.kv ≡ some a
      → write_ptr k v m ≡ record m { order = update_node a v m.order }
  unfolding write_ptr
  write_ptr_hit k a v m e = ground arith

  write_ptr_miss : (k : ℕ) (v : V) (m : LruMap V) → lookup k m.kv ≡ none → write_ptr k v m ≡ m
  unfolding write_ptr
  write_ptr_miss k v m e = ground arith

  -- A write to a valid map through the pointer that `GetPtr` gave replaces the value of that key,
  -- leaves the order and the other values, and keeps the map valid.
  pub write_ptr_lem :
      (k : ℕ) (v : V) (m : LruMap V)
      → IsValid m
      → (contents (write_ptr k v m) ≡ replace k v (contents m)) × IsValid (write_ptr k v m)
  write_ptr_lem k v m h = elim (Option-cases (lookup k m.kv)) [
    | inl e ↦
        rw (write_ptr_miss k v m e) (sym (replace_absent k v _ (index_none k m h.linked e)), h)
    | inr (a, e) ↦
        let l = h.linked in
        let found : lookup k (addresses m.order) ≡ some a = sym (l.index k) ∙ e in
        let put : items (update_node a v m.order) ≡ replace k v (items m.order) =
          items-update_node k a v m.order found l.nodes in
        rw (write_ptr_hit k a v m e) (
          put,
          record {
            linked = record {
              keys = rw put (replace-Distinct k v _ l.keys);
              nodes = rw (residents-update_node a v m.order) l.nodes;
              below = update_node-Below a _ v m.order l.below;
              index = λ j. rw (addresses-update_node a v m.order) (l.index j);
              kv_keys = l.kv_keys;
              sized = omega (arith, l.sized, length-update_node a v m.order);
            };
            bounded = omega (arith, h.bounded, length-update_node a v m.order);
          },
        )
  ]

  del_hit :
      (k a : ℕ) (m : LruMap V)
      → lookup k m.kv ≡ some a
      → del k m ≡ (true, record m { order = erase_node a m.order; kv = erase k m.kv })
  unfolding del
  del_hit k a m e = ground arith

  del_miss : (k : ℕ) (m : LruMap V) → lookup k m.kv ≡ none → del k m ≡ (false, m)
  unfolding del
  del_miss k m e = ground arith

  deleted_index :
      (k j : ℕ) (m : LruMap V)
      → Linked m
      → lookup j (erase k m.kv) ≡ lookup j (erase k (addresses m.order))
  deleted_index k j m l = ground (
    arith,
    l.index j,
    ℕ_discrete k j,
    lookup-erase_ne k j m.kv,
    lookup-erase_ne k j (addresses m.order),
    lookup-erase_self k m.kv l.kv_keys,
    lookup-erase_self k (addresses m.order) (addresses-Distinct m.order l.keys),
  )

  -- `Del` on a valid map removes the entry of the key and no other, says whether there was one, leaves
  -- no value under the key, and keeps the map valid.
  pub del_lem :
      (k : ℕ) (m : LruMap V)
      → IsValid m
      → (contents (del k m).1 ≡ erase k (contents m))
        × ((del k m).0 ≡ exists k m)
        × (lookup k (contents (del k m).1) ≡ none)
        × IsValid (del k m).1
  unfolding exists
  del_lem k m h = elim (Option-cases (lookup k m.kv)) [
    | inl e ↦
        let gone = index_none k m h.linked e in
        rw (del_miss k m e) (sym (erase_absent k _ gone), ground arith, gone, h)
    | inr (a, e) ↦
        let l = h.linked in
        let found : lookup k (addresses m.order) ≡ some a = sym (l.index k) ∙ e in
        let size = length-erase_node k a m.order found l.nodes in
        let cut : items (erase_node a m.order) ≡ erase k (items m.order) =
          items-erase_node k a m.order found l.nodes in
        rw (del_hit k a m e) (
          cut,
          ground arith,
          rw cut (lookup-erase_self k _ l.keys),
          record {
            linked = record {
              keys = rw cut (erase-Distinct k _ l.keys);
              nodes = rw (residents-erase_node a m.order) (erase-Distinct a _ l.nodes);
              below = erase_node-Below a _ m.order l.below;
              index =
                  λ j. rw (addresses-erase_node k a m.order found l.nodes) (deleted_index k j m l);
              kv_keys = erase-Distinct k _ l.kv_keys;
              sized = omega (arith, size, l.sized, length-erase k a m.kv e);
            };
            bounded = omega (arith, size, h.bounded);
          },
        )
  ]

  pub max_size-get_ptr : (k : ℕ) (m : LruMap V) → (get_ptr k m).1.max_size ≡ m.max_size
  unfolding get_ptr
  max_size-get_ptr k m = ground arith

  pub max_size-write_ptr : (k : ℕ) (v : V) (m : LruMap V) → (write_ptr k v m).max_size ≡ m.max_size
  unfolding write_ptr
  max_size-write_ptr k v m = ground arith
