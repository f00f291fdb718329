-- ===== src/LruMap/Laws/Lookup.antt =====
-- What a lookup finds after each operation, and how many entries there are.
use quarrel.Prelude.{
  ℕ, suc, ◌≤◌, ◌<◌, ◌≡◌, refl, ◌∙◌, List, [], ◌∷◌, some, length, ◌==◌, if◌then◌else◌, arith,
  Option-cases, inl, inr, take_of_length-le,
}
use quarrel.Prelude.Assoc.{
  lookup, erase, replace, touch, lookup-erase_ne, length-erase, erase_absent, lookup-replace,
  lookup-touch,
}
use quarrel.LruMap.{LruMap, get_ptr, write_ptr, put}
use quarrel.LruMap.Laws.{IsValid, contents}
use quarrel.LruMap.Laws.Put.{contents-put}
use quarrel.LruMap.Laws.Reads.{get_ptr-lookup, write_ptr_lem}

module _ {V : Type 0} where
  length-erase-le : (k : ℕ) (m : List (ℕ × V)) → length (erase k m) ≤ length m
  length-erase-le k m = elim (Option-cases (lookup k m)) [
    | inl e ↦ rw (erase_absent k m e) (omega arith)
    | inr (v, e) ↦ omega (arith, length-erase k v m e)
  ]

  pub lookup-get_ptr :
      (k j : ℕ) (m : LruMap V)
      → IsValid m
      → lookup j (contents (get_ptr k m).1) ≡ lookup j (contents m)
  lookup-get_ptr k j m h = rw (get_ptr-lookup k m h).1 (lookup-touch k j (contents m))

  pub lookup-write_ptr :
      (k j : ℕ) (v w : V) (m : LruMap V)
      → IsValid m
      → lookup k (contents m) ≡ some w
      → lookup j (contents (write_ptr k v m)) ≡ (if k == j then some v else lookup j (contents m))
  lookup-write_ptr k j v w m h e =
      rw (write_ptr_lem k v m h).0 (lookup-replace k j v w (contents m) e)

  -- With room for one more entry nothing is evicted.
  contents-put_room :
      (k : ℕ) (v : V) (m : LruMap V)
      → IsValid m
      → length (contents m) < m.max_size
      → contents (put k v m) ≡ (k, v) ∷ erase k (contents m)
  contents-put_room k v m h room =
      contents-put k v m h ∙ take_of_length-le _ _ (omega (arith, length-erase-le k (contents m)))

  pub lookup-put :
      (k j : ℕ) (v : V) (m : LruMap V)
      → IsValid m
      → length (contents m) < m.max_size
      → lookup j (contents (put k v m)) ≡ (if k == j then some v else lookup j (contents m))
  unfolding lookup
  lookup-put k j v m h room =
      rw (contents-put_room k v m h room) (ground (arith, lookup-erase_ne k j (contents m)))

  pub length-put :
      (k : ℕ) (v : V) (m : LruMap V)
      → IsValid m
      → length (contents m) < m.max_size
      → length (contents (put k v m)) ≤ suc (length (contents m))
  length-put k v m h room =
      rw (contents-put_room k v m h room) (omega (arith, length-erase-le k (contents m)))

  length-touch : (k : ℕ) (m : List (ℕ × V)) → length (touch k m) ≡ length m
  unfolding touch
  length-touch k m = elim (Option-cases (lookup k m)) [
    | inl e ↦ rw (e, touch)
    | inr (v, e) ↦ rw (e, touch) (length-erase k v m e)
  ]

  length-replace : (k : ℕ) (v : V) (m : List (ℕ × V)) → length (replace k v m) ≡ length m
  unfolding replace
  length-replace k v [] = refl
  length-replace k v ((j, w) ∷ m) = ground (arith, length-replace k v m)

  pub length-get_ptr :
      (k : ℕ) (m : LruMap V) → IsValid m → length (contents (get_ptr k m).1) ≡ length (contents m)
  length-get_ptr k m h = rw (get_ptr-lookup k m h).1 (length-touch k (contents m))

  pub length-write_ptr :
      (k : ℕ) (v : V) (m : LruMap V)
      → IsValid m
      → length (contents (write_ptr k v m)) ≡ length (contents m)
  length-write_ptr k v m h = rw (write_ptr_lem k v m h).0 (length-replace k v (contents m))
