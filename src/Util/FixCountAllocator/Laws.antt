-- ===== src/Util/FixCountAllocator/Laws.antt =====
-- Pools stay within the capacity, and a value that goes into a pool comes out again.
use quarrel.Prelude.{
  ℕ, zero, suc, ◌%◌, ◌≤◌, ◌<◌, ◌≡◌, ◌⊎◌, inl, inr, refl, sym, ap, subst, ◌∙◌, List, [], ◌∷◌, Option,
  none, some, get_elem?, get_elem?_lt, get_elem?-set_self, set, length, length-set, arith,
}
use mathlib.Core.Option.{some-injective}
use native.Mathlib.Decide.{dec_lt}
use native.Mathlib.Nat.{mod-lt}
use quarrel.Util.FixCountAllocator.{
  FixCountVector, FixCountAllocator, Backing, shard_of, alloc_by_shard, release_by_shard, enqueue,
  dequeue, size,
}

set-set {ℓ} :
    {A : Type ℓ} (xs : List A) (i : ℕ) (a b : A)
    → get_elem? xs i ≡ some b
    → set (set xs i a) i b ≡ xs
set-set [] i a b e = refl
set-set (x ∷ xs) zero a b e = ap (λ y. y ∷ xs) (sym (some-injective x b e))
set-set (x ∷ xs) (suc i) a b e = ap (◌∷◌ x) (set-set xs i a b e)

module _ {T : Type 0} where
  -- Every shard has the capacity of the allocator and holds no more.
  abbrev pub AllBounded : ℕ → List (FixCountVector T) → Type 0
  AllBounded capacity [] = Unit {0}
  AllBounded capacity (q ∷ pool) =
      (q.capacity ≡ capacity) × (length q.pool ≤ capacity) × AllBounded capacity pool

  get_elem?-Bounded :
      (capacity i : ℕ) (pool : List (FixCountVector T)) (q : FixCountVector T)
      → AllBounded capacity pool
      → get_elem? pool i ≡ some q
      → (q.capacity ≡ capacity) × (length q.pool ≤ capacity)
  get_elem?-Bounded capacity i [] q h e = ground arith
  get_elem?-Bounded capacity zero (p ∷ pool) q h e =
      subst (λ (x : FixCountVector T). (x.capacity ≡ capacity) × (length x.pool ≤ capacity))
        (some-injective p q e) (h.0, h.1)
  get_elem?-Bounded capacity (suc i) (p ∷ pool) q h e = get_elem?-Bounded capacity i pool q h.2 e

  set-AllBounded :
      (capacity i : ℕ) (pool : List (FixCountVector T)) (q : FixCountVector T)
      → AllBounded capacity pool
      → (q.capacity ≡ capacity) × (length q.pool ≤ capacity)
      → AllBounded capacity (set pool i q)
  set-AllBounded capacity i [] q h b = tt
  set-AllBounded capacity zero (p ∷ pool) q h b = (b.0, b.1, h.2)
  set-AllBounded capacity (suc i) (p ∷ pool) q h b =
      (h.0, h.1, set-AllBounded capacity i pool q h.2 b)

-- The number of values in the shard of a number.
module _ {T : Type 0} where
  abbrev pub held : ℕ → FixCountAllocator T → ℕ
  held shard a = elim (get_elem? a.pool (shard_of shard a)) [ none ↦ 0 | some q ↦ length q.pool ]

module _ {T : Type 0} {W : Type 0} (back : Backing T W) where
  release_by_shard_full :
      (shard : ℕ) (v : T) (a : FixCountAllocator T) (w : W) (q : FixCountVector T)
      → get_elem? a.pool (shard_of shard a) ≡ some q
      → a.capacity ≤ length q.pool
      → release_by_shard back shard v (a, w) ≡ some (a, back.release v w)
  unfolding release_by_shard size
  release_by_shard_full shard v a w q e full = ground arith

  release_by_shard_room :
      (shard : ℕ) (v : T) (a : FixCountAllocator T) (w : W) (q : FixCountVector T)
      → get_elem? a.pool (shard_of shard a) ≡ some q
      → q.capacity ≡ a.capacity
      → length q.pool < a.capacity
      → release_by_shard back shard v (a, w)
        ≡ some
            (record a { pool = set a.pool (shard_of shard a) (record q { pool = v ∷ q.pool }) }, w)
  unfolding release_by_shard size enqueue
  release_by_shard_room shard v a w q e same room = ground arith

  alloc_by_shard_pooled :
      (shard : ℕ) (v : T) (pool : List T) (a : FixCountAllocator T) (w : W) (q : FixCountVector T)
      → get_elem? a.pool (shard_of shard a) ≡ some q
      → q.pool ≡ v ∷ pool
      → alloc_by_shard back shard (a, w)
        ≡ some
            (v, (record a { pool = set a.pool (shard_of shard a) (record q { pool = pool }) }, w))
  unfolding alloc_by_shard dequeue
  alloc_by_shard_pooled shard v pool a w q e f = ground arith

  -- What a release has put into a shard is what an allocation takes out.
  taken_out_again :
      (shard : ℕ) (v : T) (a : FixCountAllocator T) (w : W) (q : FixCountVector T)
      → 0 < length a.pool
      → get_elem? a.pool (shard_of shard a) ≡ some q
      → alloc_by_shard back shard
          (record a { pool = set a.pool (shard_of shard a) (record q { pool = v ∷ q.pool }) }, w)
        ≡ some (v, (a, w))
  taken_out_again shard v a w q some_ e =
      let q' : FixCountVector T = record q { pool = v ∷ q.pool } in
      let i = shard_of shard a in
      let a' : FixCountAllocator T = record a { pool = set a.pool i q' } in
      let same : shard_of shard a' ≡ i = ap (λ n. shard % n) (length-set a.pool i q') in
      let found : get_elem? a'.pool (shard_of shard a') ≡ some q' =
        ap (get_elem? a'.pool) same ∙ get_elem?-set_self a.pool i q' (mod-lt shard some_) in
      let put : List (FixCountVector T) → Option (T × (FixCountAllocator T × W)) =
        λ pool. some (v, (record a { pool = pool }, w)) in
      alloc_by_shard_pooled shard v q.pool a' w q' found refl
      ∙ ap (λ j. put (set a'.pool j q)) same
      ∙ ap put (set-set a.pool i q' q e)

  held_lem :
      (shard : ℕ) (a : FixCountAllocator T) (q : FixCountVector T)
      → get_elem? a.pool (shard_of shard a) ≡ some q
      → held shard a ≡ length q.pool
  held_lem shard a q e = ap (λ o. elim o [ none ↦ 0 | some q ↦ length q.pool ]) e

  -- An allocator with a shard, each of whose shards holds at most the capacity: if the shard of the
  -- number holds less, `ReleaseByShard` calls no `release_`, the shards hold at most the capacity
  -- afterwards too, and the next `AllocByShard` of that number gives the same value, without a call of
  -- `alloc_`, and leaves the allocator as it was before both. If the shard is full, `ReleaseByShard`
  -- calls `release_` once with the value and leaves the allocator as it is.
  pub release_by_shard-alloc_by_shard :
      (shard : ℕ) (v : T) (a : FixCountAllocator T) (w : W)
      → AllBounded a.capacity a.pool
      → 0 < length a.pool
      → ((held shard a < a.capacity)
          × (a' : FixCountAllocator T) × (release_by_shard back shard v (a, w) ≡ some (a', w))
          × AllBounded a'.capacity a'.pool
          × (alloc_by_shard back shard (a', w) ≡ some (v, (a, w))))
        ⊎ ((a.capacity ≤ held shard a)
            × (release_by_shard back shard v (a, w) ≡ some (a, back.release v w)))
  release_by_shard-alloc_by_shard shard v a w h some_ =
      let (q, e) = get_elem?_lt a.pool (shard_of shard a) (mod-lt shard some_) in
      let (same, most) = get_elem?-Bounded a.capacity (shard_of shard a) a.pool q h e in
      let counted : held shard a ≡ length q.pool = held_lem shard a q e in
      elim (dec_lt (length q.pool) a.capacity) [
        | no full ↦ inr (omega arith, release_by_shard_full shard v a w q e (omega arith))
        | yes room ↦
            let q' : FixCountVector T = record q { pool = v ∷ q.pool } in
            inl (
              omega arith,
              record a { pool = set a.pool (shard_of shard a) q' },
              release_by_shard_room shard v a w q e same room,
              set-AllBounded a.capacity (shard_of shard a) a.pool q' h (same, room),
              taken_out_again shard v a w q some_ e,
            )
      ]
