-- ===== src/Tests/Eviction.antt =====
-- An acceptor whose cache holds one entry.
use quarrel.Prelude.{ℕ, ◌≡◌, refl, ◌∷◌, [], List, some, true}
use quarrel.Prelude.Assoc.{insert, lookup, erase}
use quarrel.Ptype.{alloc_proposal, alloc_proposal_msg, clone_proposal}
use quarrel.Ptype.MsgType
use quarrel.LruMap
use quarrel.Plog.EntryMng
use quarrel.Plog.EntryMng.{EntryMng}
use quarrel.Plog.PlogMng.{PlogMng, entry_mng, mng_at}
use quarrel.Util.WorkerPool
use quarrel.Acceptor.Defs.{
  PaxosRequest, do_handle_msg, dispatch, handle_accept_req, handle_prepare_req,
  check_local_and_may_trigger_catchup, accept_rsp, accept_value, answer_prepare, execute_accept,
  judge_accept, max_chosen, prepare_rsp, promise_new,
}
use quarrel.LruMap.Nodes.{back, pop_back, find_node, erase_node, update_node}
use quarrel.Plog.Entry
use quarrel.Plog.PlogMng
use quarrel.Protocol.History.{history, any, accepts, promises}
use quarrel.Protocol.Agreement.{Replica, exchanges}
use quarrel.Tests.Logs.{config}
use quarrel.Prelude.{none, some}
use quarrel.Plog.Entry.{Entry}
use quarrel.Plog.EntryMng.{Storage}
use quarrel.Prelude.Int.{pos, neg}

-- A store that keeps every entry that is saved.
abbrev keeping : Storage (List (ℕ × Entry))
keeping = record {
  load_entry = λ d i e x. (elim (lookup e d) [ none ↦ (neg 1, x) | some y ↦ (pos 0, y) ]);
  save_entry = λ d i e x. (pos 0, insert e x d);
  load_plog_meta_info = λ d i. (neg 1, record { pinst = i; last_committed = 0 });
  batch_load_entry = λ d i a b. (pos 0, []);
}

abbrev manager : EntryMng (List (ℕ × Entry))
manager = EntryMng.init 1 0 []

-- A request for an entry under a ballot, with a value of its own.
abbrev request : ℕ → ℕ → ℕ → PaxosRequest
request type entry pid = record {
  cb = 0;
  msg = record (alloc_proposal_msg 0) {
    type = type;
    proposal = record (alloc_proposal 0) { pid = pid; pentry = entry; value_id = pid };
  };
}

abbrev small : Replica (List (ℕ × Entry))
small = record {
  acceptor = record {
    plog = record { creator = λ i. manager; mngs = some manager ∷ [] };
    wpool = WorkerPool.init;
  };
  requests =
      request MsgType.prepare_req 1 5
      ∷ request MsgType.prepare_req 2 5
      ∷ request MsgType.accept_req 1 3
      ∷ [];
}

-- It promises ballot 5 for entry 1, promises something for entry 2, and then accepts ballot 3 for
-- entry 1, though the store keeps the promise.
promise_forgotten :
    (any (promises 0 1 5) (exchanges keeping config small) ≡ true)
    × (any (accepts 0 1 3) (exchanges keeping config small) ≡ true)
unfolding history do_handle_msg dispatch alloc_proposal alloc_proposal_msg handle_accept_req
    handle_prepare_req check_local_and_may_trigger_catchup accept_rsp accept_value answer_prepare
    execute_accept judge_accept max_chosen prepare_rsp promise_new clone_proposal insert lookup
    erase PlogMng.get_max_chosen_entry PlogMng.on_mng entry_mng mng_at PlogMng.set_accepted
    PlogMng.set_promised PlogMng.clear_promised PlogMng.get_entry_and_create_if_not_exist
    EntryMng.init EntryMng.get_entry_and_create_if_not_exist EntryMng.create_entry
    EntryMng.create_new EntryMng.get_entry EntryMng.load EntryMng.save EntryMng.set_accepted
    EntryMng.set_promised EntryMng.clear_promised Entry.new_entry Entry.set_accepted
    Entry.set_promised LruMap.init LruMap.put LruMap.link LruMap.evict LruMap.get_ptr
    LruMap.write_ptr back pop_back find_node erase_node update_node
promise_forgotten = (refl, refl)
