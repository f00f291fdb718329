-- ===== src/Tests/Ids.antt =====
-- Two proposers and their ids.
use quarrel.Prelude.{ℕ, ◌≡◌, ◌≢◌, refl, List, [], ◌∷◌, none, some, get_elem?, arith}
use quarrel.Prelude.Int.{pos}
use quarrel.Config.{Configure}
use quarrel.IdGen.{get_and_inc}
use quarrel.PaxosGroup.{
  paxos_group, create_group, get_member_id_by_svr_id, gen_group, gen_group_reverse, reverse_row,
  next_permutation, position, count_up, row_at, position_at,
}
use quarrel.Proposer.State.{InstanceState, new_state}
use quarrel.Proposer.Propose.{draw_pid}
use quarrel.Proposer.Create.{instance_state, states_from, with_group, new_proposer}
use quarrel.Proposer.Route.{Proposer}
use quarrel.Proposer.Route.Laws.{Event, asked, heard, happen_all}
use quarrel.Proposer.Ids.Apart.{HasRoom, happen_all-apart}
use quarrel.Tests.Logs.{config}

abbrev pub server : ℕ → Configure
server id = record config { local = record { id = id; type = 3; addr = [] } }

abbrev pub proposer : ℕ → Proposer
proposer id = with_group (server id) (λ i. 9) (paxos_group 3 6)

pub created : (id : ℕ) → new_proposer (server id) (λ i. 9) ≡ some (proposer id)
unfolding new_proposer create_group
created id = refl

abbrev pub state : ℕ → InstanceState
state id = instance_state (get_member_id_by_svr_id (paxos_group 3 6) 0 (pos id)) 3 9

pub first_state : (id : ℕ) → get_elem? (proposer id).states 0 ≡ some (state id)
unfolding with_group states_from
first_state id = refl

-- The first server asks for a value and waits in vain.
abbrev events : List Event
events = asked 5 (1 ∷ []) 0 ∷ heard 0 none ∷ []

events-HasRoom : HasRoom (server 0) events (state 0)
unfolding instance_state new_state get_member_id_by_svr_id paxos_group gen_group gen_group_reverse
    reverse_row next_permutation position count_up row_at position_at
events-HasRoom = (omega arith, tt)

happen_all-apart_example :
    (happen_all (server 0) events (state 0)).ig.id ≢ (happen_all (server 1) [] (state 1)).ig.id
happen_all-apart_example =
    happen_all-apart (server 0) (server 1) (λ i. 9) (λ i. 9) (proposer 0) (proposer 1) 0 (state 0)
      (state 1) events [] refl (omega arith) (omega arith) (λ e. omega arith) (created 0)
      (created 1) (first_state 0) (first_state 1) events-HasRoom tt

-- With the cookie 1 in the settings of both, the ids 2 and 3 of two proposers give the same number.
abbrev with_cookie : Configure
with_cookie = record config { pid_cookie = 1 }

cookies_collide :
    (draw_pid with_cookie 1 (new_state 1 3 9)).0 ≡ (draw_pid with_cookie 1 (new_state 2 3 9)).0
unfolding draw_pid get_and_inc new_state
cookies_collide = refl
