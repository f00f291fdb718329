-- ===== src/PaxosGroup.antt =====
-- core/paxos_group.h and core/paxos_group.cpp: which server is which member, in each instance.
pub mod Laws
pub mod Members
use quarrel.Prelude.{
  ℕ, zero, suc, ◌+◌, ◌%◌, List, [], ◌∷◌, map, length, Option, none, some, Bool, ltb, ◌==◌,
  if◌then◌else◌, get_elem?,
}
use mathlib.Core.List.{reverse}
use quarrel.Prelude.Int.{ℤ, pos, negsuc, neg}

-- The last element above `x`.
unfoldable last_above : ℕ → List ℕ → Option ℕ
last_above x [] = none
last_above x (y ∷ ys) = elim (last_above x ys) [
  | some z ↦ some z
  | none ↦ if ltb x y then some y else none
]

unfoldable replace : ℕ → ℕ → List ℕ → List ℕ
replace y x zs = map (λ (z : ℕ). if z == y then x else z) zs

-- `std::next_permutation` of distinct numbers; none is its false.
unfoldable pub next_permutation : List ℕ → Option (List ℕ)
unfolding last_above replace
next_permutation [] = none
next_permutation (x ∷ xs) = elim (next_permutation xs) [
  | some ys ↦ some (x ∷ ys)
  | none ↦ elim (last_above x xs) [ none ↦ none | some y ↦ some (y ∷ reverse (replace y x xs)) ]
]

-- `GenGroup` into an array of `m` rows. The assertions say that the permutations fill it exactly.
unfoldable pub gen_group : ℕ → List ℕ → List (List ℕ)
unfolding next_permutation
gen_group zero arr = []
gen_group (suc m) arr =
    arr ∷ elim (next_permutation arr) [ none ↦ [] | some next ↦ gen_group m next ]

-- Where `j` first stands, from the index `k` on; -1 if nowhere.
unfoldable pub position : ℕ → ℕ → List ℕ → ℤ
position j k [] = neg 1
position j k (x ∷ xs) = if x == j then pos k else position j (k + 1) xs

-- The numbers from `i` on, `n` of them.
unfoldable pub count_up : ℕ → ℕ → List ℕ
count_up i zero = []
count_up i (suc n) = i ∷ count_up (i + 1) n

-- A row of `GenGroupRervse`, and all of them.
unfoldable pub reverse_row : ℕ → List ℕ → List ℤ
unfolding position count_up
reverse_row n row = map (λ (j : ℕ). position j 0 row) (count_up 0 n)

unfoldable pub gen_group_reverse : ℕ → List (List ℕ) → List (List ℤ)
unfolding reverse_row
gen_group_reverse n rows = map (reverse_row n) rows

-- `PaxosGroup3` and `PaxosGroup5`, by the sizes of their arrays.
pub record PaxosGroup : Type 0 where
  pub members : ℕ
  pub groups : ℕ
  pub mapping : List (List ℕ)
  pub mapping_reverse : List (List ℤ)

unfoldable pub paxos_group : ℕ → ℕ → PaxosGroup
unfolding gen_group gen_group_reverse
paxos_group n m =
    let mapping = gen_group m (count_up 0 n) in
    record {
      members = n;
      groups = m;
      mapping = mapping;
      mapping_reverse = gen_group_reverse n mapping;
    }

-- A read of an array; out of range, which no call is, it is 0.
unfoldable pub entry_at : List ℕ → ℕ → ℕ
entry_at row i = elim (get_elem? row i) [ none ↦ 0 | some x ↦ x ]

unfoldable pub position_at : List ℤ → ℕ → ℤ
position_at row i = elim (get_elem? row i) [ none ↦ pos 0 | some x ↦ x ]

unfoldable pub row_at {ℓ} : {A : Type ℓ} → List (List A) → ℕ → List A
row_at rows i = elim (get_elem? rows i) [ none ↦ [] | some row ↦ row ]

unfoldable pub get_member_id_by_svr_id : PaxosGroup → ℕ → ℤ → ℤ
unfolding row_at position_at
get_member_id_by_svr_id g pinst (negsuc i) = neg 1
get_member_id_by_svr_id g pinst (pos i) =
    if ltb i g.members then position_at (row_at g.mapping_reverse (pinst % g.groups)) i else neg 1

unfoldable pub get_svr_id_by_member_id : PaxosGroup → ℕ → ℤ → ℤ
unfolding row_at entry_at
get_svr_id_by_member_id g pinst (negsuc i) = neg 1
get_svr_id_by_member_id g pinst (pos i) =
    if ltb i g.members then pos (entry_at (row_at g.mapping (pinst % g.groups)) i) else neg 1

-- The value and what is copied to `out`.
unfoldable pub get_paxos_group_member : PaxosGroup → ℕ → ℕ → ℤ × List ℕ
unfolding row_at
get_paxos_group_member g pinst sz =
    if sz == g.members then (pos g.members, row_at g.mapping (pinst % g.groups)) else (neg 1, [])

-- No group is a failed assertion, or a null pointer where assertions are off.
unfoldable pub create_group : ℕ → Option PaxosGroup
create_group type =
    if type == 3
    then some (paxos_group 3 6)
    else if type == 5
    then some (paxos_group 5 120)
    else none
