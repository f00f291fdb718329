-- ===== src/Tests/Deliveries.antt =====
-- A proposer that carries a proposal through with the answers of two acceptors.
use quarrel.Prelude.{
  ℕ, ◌≡◌, inl, inr, refl, ◌∷◌, [], List, Option, none, some, true, false, ◌==◌, arith,
}
use quarrel.Prelude.Assoc.{insert, lookup, erase}
use quarrel.Ptype.{PaxosMsg, alloc_proposal, alloc_proposal_msg, clone_proposal, copy_proposal_meta}
use quarrel.Ptype.PaxosState
use quarrel.Ptype.MsgType
use quarrel.LruMap
use quarrel.Plog.EntryMng
use quarrel.Plog.PlogMng.{entry_mng, mng_at}
use quarrel.Acceptor.Defs.{
  do_handle_msg, dispatch, handle_accept_req, handle_prepare_req,
  check_local_and_may_trigger_catchup, accept_rsp, accept_value, answer_prepare, execute_accept,
  judge_accept, max_chosen, prepare_rsp, promise_new,
}
use quarrel.LruMap.Nodes.{back, pop_back, find_node, erase_node, update_node}
use quarrel.Plog.Entry
use quarrel.Plog.PlogMng
use quarrel.Proposer.State.{
  InstanceState, new_state, setup_phase, as_accept_req, set_value, set_value_once,
  update_chosen_info,
}
use quarrel.Proposer.Respond.{
  handle_prepare_rsp, judge_promise, count_promise, copy_meta, note_last_vote, enter_accept,
  start_accept, finish_prepare, handle_accept_rsp, judge_accepted, count_accept, finish_accept,
  as_chosen_req,
}
use quarrel.Proposer.Route.{respond}
use quarrel.Proposer.Route.Quorum.{broadcasts}
use quarrel.Proposer.Route.Ballot.{declares}
use quarrel.Protocol.History.{Exchange, history}
use quarrel.Protocol.Agreement.{exchanges}
use quarrel.Protocol.Delivery.{Answers, none_left, lost, other, heard, Declared, Declared-once}
use quarrel.Tests.Logs.{no_disk, config}
use quarrel.Tests.Cluster.{request, replica, both_phases, cluster, cluster-AllReady}

abbrev started : InstanceState
started = record (new_state 0 3 0) {
  req = some (request MsgType.prepare_req 4).msg;
  state = PaxosState.preparing;
  term = 1;
}

abbrev pub answer : Option (ℕ × PaxosMsg) → PaxosMsg
answer none = alloc_proposal_msg 0
answer (some (cb, m)) = m

abbrev pub answers : List Exchange → List PaxosMsg
answers [] = []
answers ((q, o) ∷ xs) = answer o ∷ answers xs

abbrev pub first : List PaxosMsg → PaxosMsg
first [] = alloc_proposal_msg 0
first (m ∷ ms) = m

abbrev pub second : List PaxosMsg → PaxosMsg
second [] = alloc_proposal_msg 0
second (m ∷ ms) = first ms

abbrev promise : PaxosMsg
promise = first (answers (exchanges no_disk config (replica both_phases)))

abbrev accept : PaxosMsg
accept = second (answers (exchanges no_disk config (replica both_phases)))

-- Each of the two acceptors answers in both phases, and the third never.
abbrev responses : List (ℕ × PaxosMsg)
responses = (0, promise) ∷ (0, promise) ∷ (0, accept) ∷ (0, accept) ∷ []

promise-Answers :
    Answers MsgType.prepare_req 0 1 4 promise (exchanges no_disk config (replica both_phases))
unfolding history do_handle_msg dispatch alloc_proposal alloc_proposal_msg handle_accept_req
    handle_prepare_req check_local_and_may_trigger_catchup accept_rsp accept_value answer_prepare
    execute_accept judge_accept max_chosen prepare_rsp promise_new clone_proposal insert lookup
    erase PlogMng.get_max_chosen_entry PlogMng.on_mng entry_mng mng_at PlogMng.set_accepted
    PlogMng.set_promised PlogMng.clear_promised PlogMng.get_entry_and_create_if_not_exist
    EntryMng.init EntryMng.get_entry_and_create_if_not_exist EntryMng.create_entry
    EntryMng.create_new EntryMng.get_entry EntryMng.load EntryMng.save EntryMng.set_accepted
    EntryMng.set_promised EntryMng.clear_promised Entry.new_entry Entry.set_accepted
    Entry.set_promised LruMap.init LruMap.put LruMap.link LruMap.evict LruMap.get_ptr
    LruMap.write_ptr back pop_back find_node erase_node update_node
promise-Answers = inl ((request MsgType.prepare_req 4).msg, 0, refl, refl)

accept-Answers :
    Answers MsgType.accept_req 0 1 4 accept (exchanges no_disk config (replica both_phases))
unfolding history do_handle_msg dispatch alloc_proposal alloc_proposal_msg handle_accept_req
    handle_prepare_req check_local_and_may_trigger_catchup accept_rsp accept_value answer_prepare
    execute_accept judge_accept max_chosen prepare_rsp promise_new clone_proposal insert lookup
    erase PlogMng.get_max_chosen_entry PlogMng.on_mng entry_mng mng_at PlogMng.set_accepted
    PlogMng.set_promised PlogMng.clear_promised PlogMng.get_entry_and_create_if_not_exist
    EntryMng.init EntryMng.get_entry_and_create_if_not_exist EntryMng.create_entry
    EntryMng.create_new EntryMng.get_entry EntryMng.load EntryMng.save EntryMng.set_accepted
    EntryMng.set_promised EntryMng.clear_promised Entry.new_entry Entry.set_accepted
    Entry.set_promised LruMap.init LruMap.put LruMap.link LruMap.evict LruMap.get_ptr
    LruMap.write_ptr back pop_back find_node erase_node update_node
accept-Answers = inr (inl ((request MsgType.accept_req 4).msg, 0, refl, refl))

types_differ :
    (◌≡◌ (promise.type == MsgType.accept_rsp) false)
    × (◌≡◌ (accept.type == MsgType.prepare_rsp) false)
unfolding history do_handle_msg dispatch alloc_proposal alloc_proposal_msg handle_accept_req
    handle_prepare_req check_local_and_may_trigger_catchup accept_rsp accept_value answer_prepare
    execute_accept judge_accept max_chosen prepare_rsp promise_new clone_proposal insert lookup
    erase PlogMng.get_max_chosen_entry PlogMng.on_mng entry_mng mng_at PlogMng.set_accepted
    PlogMng.set_promised PlogMng.clear_promised PlogMng.get_entry_and_create_if_not_exist
    EntryMng.init EntryMng.get_entry_and_create_if_not_exist EntryMng.create_entry
    EntryMng.create_new EntryMng.get_entry EntryMng.load EntryMng.save EntryMng.set_accepted
    EntryMng.set_promised EntryMng.clear_promised Entry.new_entry Entry.set_accepted
    Entry.set_promised LruMap.init LruMap.put LruMap.link LruMap.evict LruMap.get_ptr
    LruMap.write_ptr back pop_back find_node erase_node update_node
types_differ = (refl, refl)

chosen_told : declares (broadcasts config responses started) ≡ true
unfolding history do_handle_msg dispatch alloc_proposal alloc_proposal_msg handle_accept_req
    handle_prepare_req check_local_and_may_trigger_catchup accept_rsp accept_value answer_prepare
    execute_accept judge_accept max_chosen prepare_rsp promise_new clone_proposal insert lookup
    erase PlogMng.get_max_chosen_entry PlogMng.on_mng entry_mng mng_at PlogMng.set_accepted
    PlogMng.set_promised PlogMng.clear_promised PlogMng.get_entry_and_create_if_not_exist
    EntryMng.init EntryMng.get_entry_and_create_if_not_exist EntryMng.create_entry
    EntryMng.create_new EntryMng.get_entry EntryMng.load EntryMng.save EntryMng.set_accepted
    EntryMng.set_promised EntryMng.clear_promised Entry.new_entry Entry.set_accepted
    Entry.set_promised LruMap.init LruMap.put LruMap.link LruMap.evict LruMap.get_ptr
    LruMap.write_ptr back pop_back find_node erase_node update_node broadcasts respond
    handle_prepare_rsp judge_promise count_promise copy_meta note_last_vote enter_accept
    start_accept setup_phase as_accept_req finish_prepare set_value set_value_once
    copy_proposal_meta new_state handle_accept_rsp judge_accepted count_accept finish_accept
    as_chosen_req update_chosen_info
chosen_told = refl

carried : Declared no_disk config config 0 1 4 cluster
unfolding new_state
carried = record {
  state = started;
  responses = responses;
  waits = (((request MsgType.prepare_req 4).msg, refl, refl), refl, omega arith);
  prepared = heard [] _ 0 promise promise-Answers (
      heard [] _ 0 promise promise-Answers
        (lost (other [] _ 0 accept types_differ.1 (other [] _ 0 accept types_differ.1 none_left))));
  answered = other [] _ 0 promise types_differ.0 (
      other [] _ 0 promise types_differ.0
        (heard [] _ 0 accept accept-Answers (heard [] _ 0 accept accept-Answers (lost none_left))));
  chosen = chosen_told;
}

Declared-once_example : ◌≡◌ {A = ℕ} 4 4
Declared-once_example =
    Declared-once no_disk config config config 1 (omega arith) 0 1 4 4 cluster refl refl refl
      cluster-AllReady carried carried
