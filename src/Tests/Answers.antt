-- ===== src/Tests/Answers.antt =====
-- What single answers show.
use quarrel.Prelude.{◌≤◌, ◌≡◌, refl, some, true, arith}
use quarrel.Prelude.Assoc.{insert, lookup, erase}
use quarrel.Ptype.{alloc_proposal, alloc_proposal_msg, clone_proposal}
use quarrel.Ptype.MsgType
use quarrel.LruMap
use quarrel.Plog.EntryMng
use quarrel.Plog.EntryMng.{EntryMng}
use quarrel.Plog.PlogMng.{PlogMng, entry_mng, mng_at}
use quarrel.Util.WorkerPool
use quarrel.Acceptor.Defs.{
  do_handle_msg, dispatch, handle_accept_req, handle_prepare_req,
  check_local_and_may_trigger_catchup, accept_rsp, accept_value, answer_prepare, execute_accept,
  judge_accept, max_chosen, prepare_rsp, promise_new,
}
use quarrel.LruMap.Nodes.{back, pop_back, find_node, erase_node, update_node}
use quarrel.Plog.Entry
use quarrel.Plog.PlogMng
use quarrel.Tests.Logs.{no_disk}
use quarrel.Prelude.Int.{is_zero}
use quarrel.Ptype.{Proposal}
use quarrel.Ptype.PaxosState
use quarrel.Plog.Entry.{Entry}
use quarrel.Plog.Cache.Managers.{logged}
use quarrel.Acceptor.Ballots.{ballot}
use quarrel.Acceptor.Defs.{Acceptor}
use quarrel.Acceptor.Promise.{handle_prepare_req_promised}
use quarrel.Acceptor.Accepted.{handle_accept_req_accepted}
use quarrel.Tests.Cluster.{log, log-IsReady, request}

abbrev idle : Acceptor (Unit {0})
idle = record { plog = log; wpool = WorkerPool.init }

abbrev wanted : Proposal
wanted = (request MsgType.prepare_req 4).msg.proposal

promised_state :
    ((handle_prepare_req no_disk wanted idle).0.proposal.status ≡ PaxosState.promised)
    × (is_zero (handle_prepare_req no_disk wanted idle).0.errcode ≡ true)
unfolding do_handle_msg dispatch alloc_proposal alloc_proposal_msg handle_accept_req
    handle_prepare_req check_local_and_may_trigger_catchup accept_rsp accept_value answer_prepare
    execute_accept judge_accept max_chosen prepare_rsp promise_new clone_proposal insert lookup
    erase PlogMng.get_max_chosen_entry PlogMng.on_mng entry_mng mng_at PlogMng.set_accepted
    PlogMng.set_promised PlogMng.clear_promised PlogMng.get_entry_and_create_if_not_exist
    EntryMng.init EntryMng.get_entry_and_create_if_not_exist EntryMng.create_entry
    EntryMng.create_new EntryMng.get_entry EntryMng.load EntryMng.save EntryMng.set_accepted
    EntryMng.set_promised EntryMng.clear_promised Entry.new_entry Entry.set_accepted
    Entry.set_promised LruMap.init LruMap.put LruMap.link LruMap.evict LruMap.get_ptr
    LruMap.write_ptr back pop_back find_node erase_node update_node
promised_state = (refl, refl)

handle_prepare_req_promised_example :
    (x : Entry) × (logged wanted.pinst wanted.pentry (handle_prepare_req no_disk wanted idle).1.plog
      ≡ some x)
    × (wanted.pid ≤ ballot x)
handle_prepare_req_promised_example =
    handle_prepare_req_promised no_disk 1 7 wanted idle (omega arith) (log-IsReady 8 (omega arith))
      promised_state.1 promised_state.0

accepted_state :
    ((handle_accept_req no_disk wanted idle).0.proposal.status ≡ PaxosState.accepted)
    × (is_zero (handle_accept_req no_disk wanted idle).0.errcode ≡ true)
unfolding do_handle_msg dispatch alloc_proposal alloc_proposal_msg handle_accept_req
    handle_prepare_req check_local_and_may_trigger_catchup accept_rsp accept_value answer_prepare
    execute_accept judge_accept max_chosen prepare_rsp promise_new clone_proposal insert lookup
    erase PlogMng.get_max_chosen_entry PlogMng.on_mng entry_mng mng_at PlogMng.set_accepted
    PlogMng.set_promised PlogMng.clear_promised PlogMng.get_entry_and_create_if_not_exist
    EntryMng.init EntryMng.get_entry_and_create_if_not_exist EntryMng.create_entry
    EntryMng.create_new EntryMng.get_entry EntryMng.load EntryMng.save EntryMng.set_accepted
    EntryMng.set_promised EntryMng.clear_promised Entry.new_entry Entry.set_accepted
    Entry.set_promised LruMap.init LruMap.put LruMap.link LruMap.evict LruMap.get_ptr
    LruMap.write_ptr back pop_back find_node erase_node update_node
accepted_state = (refl, refl)

handle_accept_req_accepted_example :
    ((x : Entry) → logged wanted.pinst wanted.pentry idle.plog ≡ some x → ballot x ≤ wanted.pid)
    × ((y : Entry) × (v : Proposal) × (logged wanted.pinst wanted.pentry
            (handle_accept_req no_disk wanted idle).1.plog
          ≡ some y)
        × (y.accepted ≡ some v))
handle_accept_req_accepted_example =
    handle_accept_req_accepted no_disk 1 7 wanted idle (omega arith) (log-IsReady 8 (omega arith))
      accepted_state.1 accepted_state.0
