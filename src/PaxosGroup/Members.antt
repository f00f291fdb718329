-- ===== src/PaxosGroup/Members.antt =====
-- The members of a group have different member ids, all below their number.
use quarrel.Prelude.{ℕ, ◌<◌, ◌≤◌, ◌≡◌, ◌≢◌, inl, inr, sym, ◌∙◌, ap, some, true, length, arith}
use quarrel.Prelude.Int.{pos, negsuc}
use quarrel.PaxosGroup.{
  PaxosGroup, paxos_group, get_member_id_by_svr_id, get_svr_id_by_member_id, create_group,
  reverse_row, position_at,
}
use quarrel.PaxosGroup.Laws.{
  all, inverse_row, rows_lem, inverse_row_lem, server_found, member_lem, create_group_cases,
  paxos_group-members, rows_3, rows_5, length_3, length_5, create_group-Inverse,
}

-- The member id of the server.
abbrev pub IsMember : PaxosGroup → ℕ → ℕ → ℕ → Type 0
IsMember g pinst id p = (get_member_id_by_svr_id g pinst (pos id) ≡ pos p) × (p < g.members)

paxos_group-IsMember :
    (n m pinst id : ℕ)
    → 0 < m
    → all (inverse_row n) (paxos_group n m).mapping ≡ true
    → length (paxos_group n m).mapping ≡ m
    → id < n
    → (p : ℕ) × IsMember (paxos_group n m) pinst id p
unfolding paxos_group
paxos_group-IsMember n m pinst id pos_ h size lt =
    let (row, e, f, g) = rows_lem n m pinst pos_ h size in
    let (a, b) = inverse_row_lem n row id g lt in
    let (p, at, low, is) = server_found n id row (position_at (reverse_row n row) id) b in
    (p, (member_lem n m pinst id (reverse_row n row) f lt ∙ at, low))

pub create_group-members :
    (type : ℕ) (g : PaxosGroup) → create_group type ≡ some g → g.members ≡ type
unfolding create_group paxos_group
create_group-members type g h = ground arith

-- A group has three members or five.
pub create_group_small : (type : ℕ) (g : PaxosGroup) → create_group type ≡ some g → g.members ≤ 5
unfolding create_group paxos_group
create_group_small type g h = ground arith

pub create_group-IsMember :
    (type : ℕ) (g : PaxosGroup) (pinst id : ℕ)
    → create_group type ≡ some g
    → id < g.members
    → (p : ℕ) × IsMember g pinst id p
create_group-IsMember type g pinst id made lt = elim (create_group_cases type g made) [
  | inl e ↦ rw e (
      paxos_group-IsMember 3 6 pinst id (omega arith) rows_3 length_3
        (paxos_group-members 3 6 g id e lt))
  | inr e ↦ rw e (
      paxos_group-IsMember 5 120 pinst id (omega arith) rows_5 length_5
        (paxos_group-members 5 120 g id e lt))
]

pub IsMember-apart :
    (type : ℕ) (g : PaxosGroup) (pinst a b p q : ℕ)
    → create_group type ≡ some g
    → a < g.members
    → b < g.members
    → a ≢ b
    → IsMember g pinst a p
    → IsMember g pinst b q
    → p ≢ q
IsMember-apart type g pinst a b p q made lta ltb_ ne ma mb = λ e.
    let back : (x y : ℕ)
        → x < g.members
        → IsMember g pinst x y
        → get_svr_id_by_member_id g pinst (pos y) ≡ pos x =
      λ x y lt m.
        ap (get_svr_id_by_member_id g pinst) (sym m.0)
        ∙ (create_group-Inverse type g pinst x made lt).1 in
    let same : pos a ≡ pos b =
      sym (back a p lta ma)
      ∙ ap (λ x. get_svr_id_by_member_id g pinst (pos x)) e
      ∙ back b q ltb_ mb in
    ne (ap (λ z. elim z [ pos n ↦ n | negsuc n ↦ 0 ]) same)
