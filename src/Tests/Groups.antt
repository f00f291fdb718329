-- ===== src/Tests/Groups.antt =====
-- The mapping of a group at work.
use quarrel.Prelude.{◌<◌, ◌≡◌, refl, some, arith}
use quarrel.Prelude.Int.{pos}
use quarrel.PaxosGroup.{PaxosGroup, paxos_group, create_group}
use quarrel.PaxosGroup.Laws.{Inverse, create_group-Inverse}

abbrev three : PaxosGroup
three = paxos_group 3 6

three_made : create_group 3 ≡ some three
unfolding create_group
three_made = refl

two_below : 2 < three.members
unfolding paxos_group
two_below = omega arith

create_group-Inverse_example : Inverse three 9 (pos 2)
create_group-Inverse_example = create_group-Inverse 3 three 9 2 three_made two_below
