-- ===== src/Tests/Cluster.antt =====
-- Three acceptors with empty logs.
use quarrel.Prelude.{ℕ, ◌%◌, ◌≤◌, ◌≡◌, refl, ◌∷◌, [], List, some, true, map, arith}
use quarrel.Prelude.Assoc.{insert, lookup, erase}
use quarrel.Ptype.{alloc_proposal, alloc_proposal_msg, clone_proposal}
use quarrel.Ptype.MsgType
use quarrel.LruMap
use quarrel.LruMap.Laws.{init-IsValid}
use quarrel.Plog.EntryMng
use quarrel.Plog.EntryMng.{EntryMng}
use quarrel.Plog.PlogMng.{PlogMng, entry_mng, mng_at}
use quarrel.Plog.Cache.Managers.{IsReady}
use quarrel.Util.WorkerPool
use quarrel.Acceptor.Defs.{
  PaxosRequest, do_handle_msg, dispatch, handle_accept_req, handle_prepare_req,
  check_local_and_may_trigger_catchup, accept_rsp, accept_value, answer_prepare, execute_accept,
  judge_accept, max_chosen, prepare_rsp, promise_new,
}
use quarrel.LruMap.Nodes.{back, pop_back, find_node, erase_node, update_node}
use quarrel.Plog.Entry
use quarrel.Plog.PlogMng
use quarrel.Protocol.History.{history, any, accepts, promises}
use quarrel.Proposer.State.{majority}
use quarrel.Protocol.Agreement.{Replica, exchanges, accepted_by, promised_by, AllReady, one_ballot}
use quarrel.Tests.Logs.{no_disk, config}

abbrev manager : EntryMng (Unit {0})
manager = EntryMng.init 8 0 tt

abbrev pub log : PlogMng (Unit {0})
log = record { creator = λ i. manager; mngs = some manager ∷ [] }

-- A request for entry 1 under a ballot, with a value of its own.
abbrev pub request : ℕ → ℕ → PaxosRequest
request type pid = record {
  cb = 0;
  msg = record (alloc_proposal_msg 0) {
    type = type;
    proposal = record (alloc_proposal 0) { pid = pid; pentry = 1; value_id = pid };
  };
}

abbrev pub replica : List PaxosRequest → Replica (Unit {0})
replica rs = record { acceptor = record { plog = log; wpool = WorkerPool.init }; requests = rs }

abbrev pub both_phases : List PaxosRequest
both_phases = request MsgType.prepare_req 4 ∷ request MsgType.accept_req 4 ∷ []

abbrev pub cluster : List (Replica (Unit {0}))
cluster = replica both_phases ∷ replica both_phases ∷ replica [] ∷ []

log-manager : (i : ℕ) → entry_mng i log ≡ manager
unfolding entry_mng mng_at
log-manager i = let e : i % 1 ≡ 0 = omega arith in rw e refl

pub log-IsReady : (k : ℕ) → k ≤ 8 → IsReady 1 k log
unfolding LruMap.init EntryMng.init insert lookup
log-IsReady k h = record {
  count = refl;
  valid = λ i. rw (log-manager i) (init-IsValid 8);
  room = λ i. rw (log-manager i) (omega arith);
}

pub cluster-AllReady : AllReady 1 cluster
cluster-AllReady =
    (log-IsReady 2 (omega arith), (log-IsReady 2 (omega arith), (log-IsReady 0 (omega arith), tt)))

cluster_says_accepted : any (accepts 0 1 4) (exchanges no_disk config (replica both_phases)) ≡ true
unfolding history do_handle_msg dispatch alloc_proposal alloc_proposal_msg handle_accept_req
    handle_prepare_req check_local_and_may_trigger_catchup accept_rsp accept_value answer_prepare
    execute_accept judge_accept max_chosen prepare_rsp promise_new clone_proposal insert lookup
    erase PlogMng.get_max_chosen_entry PlogMng.on_mng entry_mng mng_at PlogMng.set_accepted
    PlogMng.set_promised PlogMng.clear_promised PlogMng.get_entry_and_create_if_not_exist
    EntryMng.init EntryMng.get_entry_and_create_if_not_exist EntryMng.create_entry
    EntryMng.create_new EntryMng.get_entry EntryMng.load EntryMng.save EntryMng.set_accepted
    EntryMng.set_promised EntryMng.clear_promised Entry.new_entry Entry.set_accepted
    Entry.set_promised LruMap.init LruMap.put LruMap.link LruMap.evict LruMap.get_ptr
    LruMap.write_ptr back pop_back find_node erase_node update_node
cluster_says_accepted = refl

cluster_says_promised : any (promises 0 1 4) (exchanges no_disk config (replica both_phases)) ≡ true
unfolding history do_handle_msg dispatch alloc_proposal alloc_proposal_msg handle_accept_req
    handle_prepare_req check_local_and_may_trigger_catchup accept_rsp accept_value answer_prepare
    execute_accept judge_accept max_chosen prepare_rsp promise_new clone_proposal insert lookup
    erase PlogMng.get_max_chosen_entry PlogMng.on_mng entry_mng mng_at PlogMng.set_accepted
    PlogMng.set_promised PlogMng.clear_promised PlogMng.get_entry_and_create_if_not_exist
    EntryMng.init EntryMng.get_entry_and_create_if_not_exist EntryMng.create_entry
    EntryMng.create_new EntryMng.get_entry EntryMng.load EntryMng.save EntryMng.set_accepted
    EntryMng.set_promised EntryMng.clear_promised Entry.new_entry Entry.set_accepted
    Entry.set_promised LruMap.init LruMap.put LruMap.link LruMap.evict LruMap.get_ptr
    LruMap.write_ptr back pop_back find_node erase_node update_node
cluster_says_promised = refl

cluster_accepted : majority config ≤ accepted_by no_disk config 0 1 4 cluster
unfolding history
cluster_accepted = rw cluster_says_accepted (omega arith)

cluster_promised : majority config ≤ promised_by no_disk config 0 1 4 cluster
unfolding history
cluster_promised = rw cluster_says_promised (omega arith)

one_ballot_example : ◌≡◌ {A = ℕ} 4 4
one_ballot_example =
    one_ballot no_disk config 1 (omega arith) 0 1 4 4 cluster refl cluster-AllReady cluster_promised
      cluster_accepted cluster_promised cluster_accepted

-- A proposer prepares ballot 1 and has its value accepted. Another skips the prepare phase with
-- ballot 2, as the proposer of the entry before may: its value is accepted too, in place of the
-- first.
abbrev fast_after : List PaxosRequest
fast_after =
    request MsgType.prepare_req 1 ∷ request MsgType.accept_req 1 ∷ request MsgType.accept_req 2 ∷ []

fast_overwrites :
    map
      (λ (p : ℕ). any (accepts 0 1 p) (exchanges no_disk config (replica fast_after)))
      (1 ∷ 2 ∷ [])
    ≡ true ∷ true ∷ []
unfolding history do_handle_msg dispatch alloc_proposal alloc_proposal_msg handle_accept_req
    handle_prepare_req check_local_and_may_trigger_catchup accept_rsp accept_value answer_prepare
    execute_accept judge_accept max_chosen prepare_rsp promise_new clone_proposal insert lookup
    erase PlogMng.get_max_chosen_entry PlogMng.on_mng entry_mng mng_at PlogMng.set_accepted
    PlogMng.set_promised PlogMng.clear_promised PlogMng.get_entry_and_create_if_not_exist
    EntryMng.init EntryMng.get_entry_and_create_if_not_exist EntryMng.create_entry
    EntryMng.create_new EntryMng.get_entry EntryMng.load EntryMng.save EntryMng.set_accepted
    EntryMng.set_promised EntryMng.clear_promised Entry.new_entry Entry.set_accepted
    Entry.set_promised LruMap.init LruMap.put LruMap.link LruMap.evict LruMap.get_ptr
    LruMap.write_ptr back pop_back find_node erase_node update_node
fast_overwrites = refl
