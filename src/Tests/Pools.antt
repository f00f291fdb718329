-- ===== src/Tests/Pools.antt =====
-- The pools at work.
use quarrel.Prelude.{ℕ, ◌<◌, ◌≤◌, ◌≡◌, ◌⊎◌, refl, List, [], ◌∷◌, some, length, arith}
use quarrel.Util.FixCountAllocator.{
  FixCountAllocator, Backing, alloc_by_shard, release_by_shard, destroy, drain,
}
use quarrel.Util.FixCountAllocator.Laws.{AllBounded, held, release_by_shard-alloc_by_shard}

-- Values are numbers, and the state is the list of the released ones.
abbrev backing : Backing ℕ (List ℕ)
backing = record { alloc = λ w. (length w, w); release = λ v w. v ∷ w }

abbrev pools : FixCountAllocator ℕ
pools = record {
  capacity = 2;
  pool = record { capacity = 2; pool = 4 ∷ [] } ∷ record { capacity = 2; pool = [] } ∷ [];
}

release_by_shard-alloc_by_shard_example :
    ((held 4 pools < pools.capacity)
      × (a' : FixCountAllocator ℕ) × (release_by_shard backing 4 9 (pools, []) ≡ some (a', []))
      × AllBounded a'.capacity a'.pool
      × (alloc_by_shard backing 4 (a', []) ≡ some (9, (pools, []))))
    ⊎ ((pools.capacity ≤ held 4 pools)
        × (release_by_shard backing 4 9 (pools, []) ≡ some (pools, backing.release 9 [])))
release_by_shard-alloc_by_shard_example =
    release_by_shard-alloc_by_shard backing 4 9 pools []
      (refl, omega arith, (refl, omega arith, tt)) (omega arith)

destroys_all : destroy backing pools.pool [] ≡ 4 ∷ []
unfolding destroy drain
destroys_all = refl
