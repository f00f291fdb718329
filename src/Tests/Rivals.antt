-- ===== src/Tests/Rivals.antt =====
-- One server of two carries a proposal through.
use quarrel.Prelude.{ℕ, ◌≡◌, inl, inr, refl, ◌∷◌, [], List, true, false, ◌==◌, arith}
use quarrel.Prelude.Assoc.{insert, lookup, erase}
use quarrel.Ptype.{PaxosMsg, alloc_proposal, alloc_proposal_msg, clone_proposal, copy_proposal_meta}
use quarrel.Ptype.MsgType
use quarrel.LruMap
use quarrel.Plog.EntryMng
use quarrel.Plog.PlogMng.{entry_mng, mng_at}
use quarrel.Acceptor.Defs.{
  do_handle_msg, dispatch, handle_accept_req, handle_prepare_req,
  check_local_and_may_trigger_catchup, accept_rsp, accept_value, answer_prepare, execute_accept,
  judge_accept, max_chosen, prepare_rsp, promise_new,
}
use quarrel.LruMap.Nodes.{back, pop_back, find_node, erase_node, update_node}
use quarrel.Plog.Entry
use quarrel.Plog.PlogMng
use quarrel.Proposer.State.{
  InstanceState, new_state, setup_phase, as_accept_req, set_value, set_value_once,
  update_chosen_info,
}
use quarrel.Proposer.Respond.{
  handle_prepare_rsp, judge_promise, count_promise, copy_meta, note_last_vote, enter_accept,
  start_accept, finish_prepare, handle_accept_rsp, judge_accepted, count_accept, finish_accept,
  as_chosen_req,
}
use quarrel.Proposer.Route.{respond}
use quarrel.Proposer.Route.Quorum.{broadcasts}
use quarrel.Proposer.Route.Ballot.{declares}
use quarrel.Protocol.History.{history}
use quarrel.Protocol.Agreement.{exchanges}
use quarrel.Protocol.Delivery.{Answers, none_left, lost, other, heard}
use quarrel.Tests.Logs.{no_disk, config}
use quarrel.Tests.Deliveries.{answers, first, second}
use quarrel.Tests.Cluster.{log-IsReady, request, replica}
use quarrel.IdGen.{id_gen_by_date, set_greater_than, get_and_inc}
use quarrel.PaxosGroup.{
  paxos_group, get_member_id_by_svr_id, gen_group, gen_group_reverse, reverse_row, next_permutation,
  position, count_up, row_at, position_at,
}
use quarrel.Acceptor.Defs.{PaxosRequest}
use quarrel.Proposer.State.{setup_wait_state, can_skip_prepare}
use quarrel.Proposer.Propose.{propose_async, alloc_paxos_msg, draw_pid}
use quarrel.Proposer.Create.{instance_state}
use quarrel.Proposer.Route.Laws.{happen_all}
use quarrel.Protocol.Agreement.{Replica, AllReady}
use quarrel.Protocol.Rivals.{Campaign, rivals_apart}
use quarrel.Tests.Ids.{server, proposer, created, state, first_state}

-- The requests of the first server's first proposal, with its ballot and its value's id.
abbrev asking : ℕ → PaxosRequest
asking type = record {
  cb = 0;
  msg = record (request type 1).msg {
    proposal = record (request type 1).msg.proposal { value_id = (state 0).vig.id };
  };
}

abbrev votes : Replica (Unit {0})
votes = replica (asking MsgType.prepare_req ∷ asking MsgType.accept_req ∷ [])

abbrev voters : List (Replica (Unit {0}))
voters = votes ∷ votes ∷ replica [] ∷ []

voters-AllReady : AllReady 1 voters
voters-AllReady =
    (log-IsReady 2 (omega arith), (log-IsReady 2 (omega arith), (log-IsReady 0 (omega arith), tt)))

abbrev promise : PaxosMsg
promise = first (answers (exchanges no_disk config votes))

abbrev accept : PaxosMsg
accept = second (answers (exchanges no_disk config votes))

abbrev responses : List (ℕ × PaxosMsg)
responses = (0, promise) ∷ (0, promise) ∷ (0, accept) ∷ (0, accept) ∷ []

promise_told :
    Answers MsgType.prepare_req 0 1 (state 0).ig.id promise (exchanges no_disk config votes)
unfolding history do_handle_msg dispatch alloc_proposal alloc_proposal_msg handle_accept_req
    handle_prepare_req check_local_and_may_trigger_catchup accept_rsp accept_value answer_prepare
    execute_accept judge_accept max_chosen prepare_rsp promise_new clone_proposal insert lookup
    erase PlogMng.get_max_chosen_entry PlogMng.on_mng entry_mng mng_at PlogMng.set_accepted
    PlogMng.set_promised PlogMng.clear_promised PlogMng.get_entry_and_create_if_not_exist
    EntryMng.init EntryMng.get_entry_and_create_if_not_exist EntryMng.create_entry
    EntryMng.create_new EntryMng.get_entry EntryMng.load EntryMng.save EntryMng.set_accepted
    EntryMng.set_promised EntryMng.clear_promised Entry.new_entry Entry.set_accepted
    Entry.set_promised LruMap.init LruMap.put LruMap.link LruMap.evict LruMap.get_ptr
    LruMap.write_ptr back pop_back find_node erase_node update_node propose_async alloc_paxos_msg
    draw_pid get_and_inc setup_wait_state can_skip_prepare instance_state id_gen_by_date
    set_greater_than get_member_id_by_svr_id paxos_group gen_group gen_group_reverse reverse_row
    next_permutation position count_up row_at position_at happen_all
promise_told = inl ((asking MsgType.prepare_req).msg, 0, refl, refl)

accept_told : Answers MsgType.accept_req 0 1 (state 0).ig.id accept (exchanges no_disk config votes)
unfolding history do_handle_msg dispatch alloc_proposal alloc_proposal_msg handle_accept_req
    handle_prepare_req check_local_and_may_trigger_catchup accept_rsp accept_value answer_prepare
    execute_accept judge_accept max_chosen prepare_rsp promise_new clone_proposal insert lookup
    erase PlogMng.get_max_chosen_entry PlogMng.on_mng entry_mng mng_at PlogMng.set_accepted
    PlogMng.set_promised PlogMng.clear_promised PlogMng.get_entry_and_create_if_not_exist
    EntryMng.init EntryMng.get_entry_and_create_if_not_exist EntryMng.create_entry
    EntryMng.create_new EntryMng.get_entry EntryMng.load EntryMng.save EntryMng.set_accepted
    EntryMng.set_promised EntryMng.clear_promised Entry.new_entry Entry.set_accepted
    Entry.set_promised LruMap.init LruMap.put LruMap.link LruMap.evict LruMap.get_ptr
    LruMap.write_ptr back pop_back find_node erase_node update_node propose_async alloc_paxos_msg
    draw_pid get_and_inc setup_wait_state can_skip_prepare instance_state id_gen_by_date
    set_greater_than get_member_id_by_svr_id paxos_group gen_group gen_group_reverse reverse_row
    next_permutation position count_up row_at position_at happen_all
accept_told = inr (inl ((asking MsgType.accept_req).msg, 0, refl, refl))

other_types :
    (◌≡◌ (promise.type == MsgType.accept_rsp) false)
    × (◌≡◌ (accept.type == MsgType.prepare_rsp) false)
unfolding history do_handle_msg dispatch alloc_proposal alloc_proposal_msg handle_accept_req
    handle_prepare_req check_local_and_may_trigger_catchup accept_rsp accept_value answer_prepare
    execute_accept judge_accept max_chosen prepare_rsp promise_new clone_proposal insert lookup
    erase PlogMng.get_max_chosen_entry PlogMng.on_mng entry_mng mng_at PlogMng.set_accepted
    PlogMng.set_promised PlogMng.clear_promised PlogMng.get_entry_and_create_if_not_exist
    EntryMng.init EntryMng.get_entry_and_create_if_not_exist EntryMng.create_entry
    EntryMng.create_new EntryMng.get_entry EntryMng.load EntryMng.save EntryMng.set_accepted
    EntryMng.set_promised EntryMng.clear_promised Entry.new_entry Entry.set_accepted
    Entry.set_promised LruMap.init LruMap.put LruMap.link LruMap.evict LruMap.get_ptr
    LruMap.write_ptr back pop_back find_node erase_node update_node
other_types = (refl, refl)

abbrev asked : InstanceState
asked = (propose_async (server 0) 5 (1 ∷ []) 0 (happen_all (server 0) [] (state 0))).state

declared : declares (broadcasts (server 0) responses asked) ≡ true
unfolding history do_handle_msg dispatch alloc_proposal alloc_proposal_msg handle_accept_req
    handle_prepare_req check_local_and_may_trigger_catchup accept_rsp accept_value answer_prepare
    execute_accept judge_accept max_chosen prepare_rsp promise_new clone_proposal insert lookup
    erase PlogMng.get_max_chosen_entry PlogMng.on_mng entry_mng mng_at PlogMng.set_accepted
    PlogMng.set_promised PlogMng.clear_promised PlogMng.get_entry_and_create_if_not_exist
    EntryMng.init EntryMng.get_entry_and_create_if_not_exist EntryMng.create_entry
    EntryMng.create_new EntryMng.get_entry EntryMng.load EntryMng.save EntryMng.set_accepted
    EntryMng.set_promised EntryMng.clear_promised Entry.new_entry Entry.set_accepted
    Entry.set_promised LruMap.init LruMap.put LruMap.link LruMap.evict LruMap.get_ptr
    LruMap.write_ptr back pop_back find_node erase_node update_node broadcasts respond
    handle_prepare_rsp judge_promise count_promise copy_meta note_last_vote enter_accept
    start_accept setup_phase as_accept_req finish_prepare set_value set_value_once
    copy_proposal_meta new_state handle_accept_rsp judge_accepted count_accept finish_accept
    as_chosen_req update_chosen_info propose_async alloc_paxos_msg draw_pid get_and_inc
    setup_wait_state can_skip_prepare instance_state id_gen_by_date set_greater_than
    get_member_id_by_svr_id paxos_group gen_group gen_group_reverse reverse_row next_permutation
    position count_up row_at position_at happen_all
declared = refl

campaign : Campaign no_disk config (server 0) 0 1 voters
unfolding propose_async alloc_paxos_msg draw_pid get_and_inc setup_wait_state can_skip_prepare
    instance_state id_gen_by_date set_greater_than get_member_id_by_svr_id paxos_group gen_group
    gen_group_reverse reverse_row next_permutation position count_up row_at position_at happen_all
    new_state setup_phase
campaign = record {
  now = λ i. 9;
  proposer = proposer 0;
  created = created 0;
  first = state 0;
  is_first = first_state 0;
  events = [];
  room = tt;
  idle = refl;
  opaque = 5;
  val = 1 ∷ [];
  filled = omega arith;
  prepares = refl;
  responses = responses;
  prepared = heard [] _ 0 promise promise_told (
      heard [] _ 0 promise promise_told
        (lost (other [] _ 0 accept other_types.1 (other [] _ 0 accept other_types.1 none_left))));
  answered = other [] _ 0 promise other_types.0 (
      other [] _ 0 promise other_types.0
        (heard [] _ 0 accept accept_told (heard [] _ 0 accept accept_told (lost none_left))));
  chosen = declared;
}

rivals_apart_example : ¬ Campaign no_disk config (server 1) 0 1 voters
rivals_apart_example =
    rivals_apart no_disk config 0 1 voters (server 0) (server 1) 1 (omega arith) refl refl refl refl
      (omega arith) (omega arith) (λ e. omega arith) refl refl voters-AllReady campaign
