-- ===== src/Tests/Caches.antt =====
-- The cache and the id generators.
use quarrel.Prelude.{ℕ, ◌+◌, ◌<◌, ◌≤◌, ◌≡◌, ◌⊎◌, refl, ◌∷◌, [], none, take, arith}
use quarrel.Prelude.Assoc.{lookup, insert, erase, replace, touch}
use quarrel.LruMap.{LruMap, init, put, link, evict, get_ptr, write_ptr, del, exists}
use quarrel.LruMap.Nodes.{back, pop_back}
use quarrel.LruMap.Laws.{IsValid, contents, init-IsValid}
use quarrel.LruMap.Laws.Put.{put-IsValid, contents-put}
use quarrel.LruMap.Laws.Reads.{get_ptr-lookup, write_ptr_lem, del_lem}
use quarrel.IdGen.{IdGen, set_greater_than}
use quarrel.IdGen.Laws.{set_greater_than_bounds}

abbrev full : LruMap ℕ
full = put 2 20 (put 1 10 (init 2))

full-IsValid : IsValid full
full-IsValid = put-IsValid 2 20 (put 1 10 (init 2)) (put-IsValid 1 10 (init 2) (init-IsValid 2))

contents-put_example :
    contents (put 3 30 full) ≡ take full.max_size ((3, 30) ∷ erase 3 (contents full))
contents-put_example = contents-put 3 30 full full-IsValid

-- The least recently used entry is the one that goes.
put_evicts : contents (put 3 30 full) ≡ (3, 30) ∷ (2, 20) ∷ []
unfolding put link evict init insert lookup erase back pop_back
put_evicts = refl

get_ptr-lookup_example :
    ((get_ptr 1 full).0 ≡ lookup 1 (contents full))
    × (contents (get_ptr 1 full).1 ≡ touch 1 (contents full))
get_ptr-lookup_example = get_ptr-lookup 1 full full-IsValid

write_ptr_lem_example :
    (contents (write_ptr 1 11 full) ≡ replace 1 11 (contents full)) × IsValid (write_ptr 1 11 full)
write_ptr_lem_example = write_ptr_lem 1 11 full full-IsValid

del_lem_example :
    (contents (del 1 full).1 ≡ erase 1 (contents full))
    × ((del 1 full).0 ≡ exists 1 full)
    × (lookup 1 (contents (del 1 full).1) ≡ none)
    × IsValid (del 1 full).1
del_lem_example = del_lem 1 full full-IsValid

-- The generators of two of three proposers.
abbrev first : IdGen
first = record { id = 1; step = 3 }

abbrev second : IdGen
second = record { id = 5; step = 3 }

set_greater_than_bounds_example :
    (9 ≤ (set_greater_than 9 first).id)
    × (first.id ≤ (set_greater_than 9 first).id)
    × (((set_greater_than 9 first).id < 9 + first.step) ⊎ (set_greater_than 9 first ≡ first))
set_greater_than_bounds_example = set_greater_than_bounds 9 first (omega arith) (omega arith)
