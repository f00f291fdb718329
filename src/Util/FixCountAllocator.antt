-- ===== src/Util/FixCountAllocator.antt =====
-- util/fix_count_allocator.hpp, with its container FixCountVector: pools of values, one per shard.
-- The container FixCountLockFreeQueue names a queue that no file declares.
pub mod Laws
use quarrel.Prelude.{
  ℕ, suc, ◌%◌, List, [], ◌∷◌, Option, none, some, leb, ◌==◌, if◌then◌else◌, get_elem?, set, length,
  replicate,
}
use quarrel.Prelude.Int.{ℤ, pos, neg, is_zero}

-- The last element of the vector comes first.
pub record FixCountVector (T : Type 0) : Type 0 where
  pub capacity : ℕ  -- uint64_t
  pub pool : List T

module _ {T : Type 0} where
  unfoldable pub init_vector : ℕ → FixCountVector T
  init_vector capacity = record { capacity = capacity; pool = [] }

  unfoldable pub size : FixCountVector T → ℕ
  size q = length q.pool

  unfoldable pub enqueue : T → FixCountVector T → ℤ × FixCountVector T
  enqueue v q =
      if length q.pool == q.capacity then (neg 1, q) else (pos 0, record q { pool = v ∷ q.pool })

  -- No value is the result -1.
  unfoldable pub dequeue : FixCountVector T → Option T × FixCountVector T
  dequeue q = elim q.pool [ [] ↦ (none, q) | v ∷ pool ↦ (some v, record q { pool = pool }) ]

pub record FixCountAllocator (T : Type 0) : Type 0 where
  pub capacity : ℕ  -- uint32_t
  pub pool : List (FixCountVector T)

-- The functions that the user gives to `Init`, on a state of their own.
pub record Backing (T : Type 0) (W : Type 0) : Type 0 where
  pub alloc : W → T × W
  pub release : T → W → W

module _ {T : Type 0} where
  unfoldable pub init : ℕ → ℕ → FixCountAllocator T
  unfolding init_vector
  init shard capacity = record {
    capacity = capacity;
    pool = replicate shard (init_vector capacity);
  }

  -- The shard of a number that is not negative.
  abbrev pub shard_of : ℕ → FixCountAllocator T → ℕ
  shard_of shard a = shard % length a.pool

module _ {T : Type 0} {W : Type 0} (back : Backing T W) where
  -- No result is a division by zero, where there is no shard.
  unfoldable pub alloc_by_shard :
      ℕ → FixCountAllocator T × W → Option (T × (FixCountAllocator T × W))
  unfolding dequeue
  alloc_by_shard shard (a, w) = elim (get_elem? a.pool (shard_of shard a)) [
    | none ↦ none
    | some q ↦
        let (v, q') = dequeue q in
        elim v [
          | some v ↦ some (v, (record a { pool = set a.pool (shard_of shard a) q' }, w))
          | none ↦ let (v, w') = back.alloc w in some (v, (a, w'))
        ]
  ]

  unfoldable pub release_by_shard :
      ℕ → T → FixCountAllocator T × W → Option (FixCountAllocator T × W)
  unfolding enqueue size
  release_by_shard shard v (a, w) = elim (get_elem? a.pool (shard_of shard a)) [
    | none ↦ none
    | some q ↦
        if leb a.capacity (size q)
        then some (a, back.release v w)
        else let (ret, q') = enqueue v q in
          if is_zero ret
          then some (record a { pool = set a.pool (shard_of shard a) q' }, w)
          else some (a, back.release v w)
  ]

  -- The loop of the destructor over one shard, from its last value on, and over all shards.
  unfoldable pub drain : List T → W → W
  drain [] w = w
  drain (v ∷ pool) w = drain pool (back.release v w)

  unfoldable pub destroy : List (FixCountVector T) → W → W
  unfolding drain
  destroy [] w = w
  destroy (q ∷ pool) w = destroy pool (drain q.pool w)
