-- ===== src/PaxosGroup/Laws.antt =====
-- The two mappings of a group undo each other.
use quarrel.Prelude.{
  ℕ, zero, suc, ◌%◌, ◌<◌, ◌≡◌, ◌⊎◌, inl, inr, refl, ◌∙◌, ap, List, [], ◌∷◌, map, length, none, some,
  Bool, true, false, ◌&&◌, ltb, ◌==◌, ==_iff, get_elem?, get_elem?_lt, arith,
}
use quarrel.Prelude.Int.{ℤ, pos, negsuc, eq}
use quarrel.PaxosGroup.{
  PaxosGroup, next_permutation, gen_group, position, count_up, reverse_row, gen_group_reverse,
  paxos_group, entry_at, position_at, row_at, get_member_id_by_svr_id, get_svr_id_by_member_id,
  create_group,
}

-- The property holds below `n`.
abbrev all_below : ℕ → (ℕ → Bool) → Bool
all_below zero p = true
all_below (suc n) p = p n && all_below n p

all_below_lem : (n : ℕ) (p : ℕ → Bool) (i : ℕ) → all_below n p ≡ true → i < n → p i ≡ true
all_below_lem zero p i h lt = absurd (omega arith)
all_below_lem (suc n) p i h lt = ground (arith, all_below_lem n p i)

abbrev pub all {ℓ} : {A : Type ℓ} → (A → Bool) → List A → Bool
all p [] = true
all p (x ∷ xs) = p x && all p xs

all_lem {ℓ} :
    {A : Type ℓ} (p : A → Bool) (xs : List A) (i : ℕ) (x : A)
    → all p xs ≡ true
    → get_elem? xs i ≡ some x
    → p x ≡ true
all_lem p [] i x h e = cc
all_lem p (y ∷ ys) zero x h e = ground arith
all_lem p (y ∷ ys) (suc i) x h e = ground (arith, all_lem p ys i x)

get_elem?-map {ℓ κ} :
    {A : Type ℓ} {B : Type κ} (f : A → B) (xs : List A) (i : ℕ) (x : A)
    → get_elem? xs i ≡ some x
    → get_elem? (map f xs) i ≡ some (f x)
get_elem?-map f [] i x e = cc
get_elem?-map f (y ∷ ys) zero x e = ap (λ o. elim o [ none ↦ none | some z ↦ some (f z) ]) e
get_elem?-map f (y ∷ ys) (suc i) x e = get_elem?-map f ys i x e

eq_lem : (a b : ℤ) → eq a b ≡ true → a ≡ b
eq_lem (pos a) (pos b) h = ap pos ((==_iff a b).0 h)
eq_lem (negsuc a) (negsuc b) h = ap negsuc ((==_iff a b).0 h)
eq_lem (pos a) (negsuc b) h = cc
eq_lem (negsuc a) (pos b) h = cc

-- A row and its reverse undo each other, one way and the other.
pub inverse_row : ℕ → List ℕ → Bool
inverse_row n row =
    all_below n
      (λ i. ltb (entry_at row i) n && eq (position_at (reverse_row n row) (entry_at row i)) (pos i))
    && all_below n (λ s. (elim (position_at (reverse_row n row) s) [
      | pos p ↦ ltb p n && (entry_at row p == s)
      | negsuc _ ↦ false
    ]))

-- Every row of both tables is a permutation with its inverse.
pub rows_3 : all (inverse_row 3) (paxos_group 3 6).mapping ≡ true
unfolding inverse_row paxos_group entry_at position_at reverse_row next_permutation gen_group
    position count_up
rows_3 = refl

pub rows_5 : all (inverse_row 5) (paxos_group 5 120).mapping ≡ true
unfolding inverse_row paxos_group entry_at position_at reverse_row next_permutation gen_group
    position count_up
rows_5 = refl

pub length_3 : length (paxos_group 3 6).mapping ≡ 6
unfolding paxos_group gen_group next_permutation count_up
length_3 = refl

pub length_5 : length (paxos_group 5 120).mapping ≡ 120
unfolding paxos_group gen_group next_permutation count_up
length_5 = refl

pub and_lem : (a b : Bool) → (a && b) ≡ true → (a ≡ true) × (b ≡ true)
and_lem a b h = ground arith

-- What a row must say about the member `i` and the server `i`.
abbrev member_back : ℕ → List ℕ → ℕ → Bool
member_back n row i =
    ltb (entry_at row i) n && eq (position_at (reverse_row n row) (entry_at row i)) (pos i)

abbrev pub server_back : ℕ → List ℕ → ℕ → Bool
server_back n row s = elim (position_at (reverse_row n row) s) [
  | pos p ↦ ltb p n && (entry_at row p == s)
  | negsuc _ ↦ false
]

pub inverse_row_lem :
    (n : ℕ) (row : List ℕ) (i : ℕ)
    → inverse_row n row ≡ true
    → i < n
    → (member_back n row i ≡ true) × (server_back n row i ≡ true)
unfolding inverse_row
inverse_row_lem n row i h lt =
    let (a, b) = and_lem _ _ h in
    (all_below_lem n (member_back n row) i a lt, all_below_lem n (server_back n row) i b lt)

row_at_lem {ℓ} :
    {A : Type ℓ} (rows : List (List A)) (k : ℕ) (row : List A)
    → get_elem? rows k ≡ some row
    → row_at rows k ≡ row
unfolding row_at
row_at_lem rows k row e = rw (e, row_at) refl

-- The rows of both tables for an instance.
pub rows_lem :
    (n m pinst : ℕ)
    → 0 < m
    → all (inverse_row n) (paxos_group n m).mapping ≡ true
    → length (paxos_group n m).mapping ≡ m
    → (row : List ℕ) × (row_at (paxos_group n m).mapping (pinst % m) ≡ row)
      × (row_at (paxos_group n m).mapping_reverse (pinst % m) ≡ reverse_row n row)
      × (inverse_row n row ≡ true)
unfolding paxos_group gen_group_reverse
rows_lem n m pinst pos_ h size =
    let (row, e) = get_elem?_lt (gen_group m (count_up 0 n)) (pinst % m) (grind arith) in
    let rows = gen_group m (count_up 0 n) in
    (
      row,
      row_at_lem rows (pinst % m) row e,
      row_at_lem (map (reverse_row n) rows) (pinst % m) (reverse_row n row)
          (get_elem?-map (reverse_row n) rows (pinst % m) row e),
      all_lem (inverse_row n) rows (pinst % m) row h e,
    )

abbrev pub Inverse : PaxosGroup → ℕ → ℤ → Type 0
Inverse g pinst id =
    (get_member_id_by_svr_id g pinst (get_svr_id_by_member_id g pinst id) ≡ id)
    × (get_svr_id_by_member_id g pinst (get_member_id_by_svr_id g pinst id) ≡ id)

server_lem :
    (n m pinst i : ℕ) (row : List ℕ)
    → row_at (paxos_group n m).mapping (pinst % m) ≡ row
    → i < n
    → get_svr_id_by_member_id (paxos_group n m) pinst (pos i) ≡ pos (entry_at row i)
unfolding get_svr_id_by_member_id paxos_group
server_lem n m pinst i row e lt = ground arith

pub member_lem :
    (n m pinst i : ℕ) (row : List ℤ)
    → row_at (paxos_group n m).mapping_reverse (pinst % m) ≡ row
    → i < n
    → get_member_id_by_svr_id (paxos_group n m) pinst (pos i) ≡ position_at row i
unfolding get_member_id_by_svr_id paxos_group
member_lem n m pinst i row e lt = ground arith

pub server_found :
    (n s : ℕ) (row : List ℕ) (z : ℤ)
    → (elim z [ pos p ↦ ltb p n && (entry_at row p == s) | negsuc _ ↦ false ]) ≡ true
    → (p : ℕ) × (z ≡ pos p) × (p < n) × (entry_at row p ≡ s)
server_found n s row (pos p) h = (p, refl, ground arith, ground arith)
server_found n s row (negsuc p) h = cc

paxos_group-Inverse :
    (n m pinst i : ℕ)
    → 0 < m
    → all (inverse_row n) (paxos_group n m).mapping ≡ true
    → length (paxos_group n m).mapping ≡ m
    → i < n
    → Inverse (paxos_group n m) pinst (pos i)
paxos_group-Inverse n m pinst i pos_ h size lt =
    let (row, e, f, g) = rows_lem n m pinst pos_ h size in
    let (a, b) = inverse_row_lem n row i g lt in
    let (in_range, back) = and_lem (ltb (entry_at row i) n) _ a in
    let (p, at, low, is) = server_found n i row (position_at (reverse_row n row) i) b in
    (
      ap (get_member_id_by_svr_id (paxos_group n m) pinst) (server_lem n m pinst i row e lt)
          ∙ member_lem n m pinst (entry_at row i) (reverse_row n row) f (ground arith)
          ∙ eq_lem _ _ back,
      ap (get_svr_id_by_member_id (paxos_group n m) pinst)
            (member_lem n m pinst i (reverse_row n row) f lt ∙ at)
          ∙ server_lem n m pinst p row e low
          ∙ ap pos is,
    )

pub paxos_group-members :
    (n m : ℕ) (g : PaxosGroup) (id : ℕ) → g ≡ paxos_group n m → id < g.members → id < n
unfolding paxos_group
paxos_group-members n m g id e lt = omega (arith, ap (λ (h : PaxosGroup). h.members) e)

pub create_group_cases :
    (type : ℕ) (g : PaxosGroup)
    → create_group type ≡ some g
    → (g ≡ paxos_group 3 6) ⊎ (g ≡ paxos_group 5 120)
unfolding create_group
create_group_cases type g h = ground arith

-- Whatever group `CreateGroup` makes, for every instance and every id from 0 up to the number of
-- members: the member id of the server id of `id` is `id`, and the server id of its member id is.
pub create_group-Inverse :
    (type : ℕ) (g : PaxosGroup) (pinst id : ℕ)
    → create_group type ≡ some g
    → id < g.members
    → Inverse g pinst (pos id)
create_group-Inverse type g pinst id made lt = elim (create_group_cases type g made) [
  | inl e ↦ rw e (
      paxos_group-Inverse 3 6 pinst id (omega arith) rows_3 length_3
        (paxos_group-members 3 6 g id e lt))
  | inr e ↦ rw e (
      paxos_group-Inverse 5 120 pinst id (omega arith) rows_5 length_5
        (paxos_group-members 5 120 g id e lt))
]
