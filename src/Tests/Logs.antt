-- ===== src/Tests/Logs.antt =====
-- An acceptor of one instance, whose log holds one chosen entry.
use quarrel.Prelude.{false, ℕ, ◌%◌, ◌≡◌, refl, ◌∷◌, [], List, none, some, arith}
use quarrel.Prelude.Int.{pos, neg}
use quarrel.Prelude.Assoc.{insert, lookup}
use quarrel.Config.{Configure}
use quarrel.Ptype.{Proposal, alloc_proposal, alloc_proposal_msg, clone_proposal}
use quarrel.Ptype.PaxosState
use quarrel.Ptype.MsgType
use quarrel.LruMap
use quarrel.LruMap.Laws.{init-IsValid}
use quarrel.LruMap.Laws.Put.{put-IsValid}
use quarrel.Plog.Entry
use quarrel.Plog.Entry.{Entry}
use quarrel.Plog.EntryMng
use quarrel.Plog.EntryMng.{EntryMng, Storage, PlogMetaInfo}
use quarrel.Plog.PlogMng
use quarrel.Plog.PlogMng.{PlogMng, entry_mng, mng_at}
use quarrel.Plog.Cache.Managers.{logged, IsReady, Logs}
use quarrel.Plog.Cache.Logs.{create-Logs, set_accepted-Logs, set_chosen-Logs}
use quarrel.Plog.Cache.Choose.{with_status}
use quarrel.Util.WorkerPool
use quarrel.Acceptor.{Acceptor, PaxosRequest, run}
use quarrel.Protocol.{handle_prepare_req_accepted}
use quarrel.Acceptor.Defs.{handle_prepare_req}
use quarrel.Proposer.Respond.Quorum.{is_promise}
use quarrel.Acceptor.Ballots.{IsReady-fewer, AllEvolve}
use quarrel.Acceptor.Stable.{run-AllEvolve, run-chosen}

-- A store that keeps nothing and refuses no write.
abbrev pub no_disk : Storage (Unit {0})
no_disk = record {
  load_entry = λ d i e x. (neg 1, x);
  save_entry = λ d i e x. (pos 0, d);
  load_plog_meta_info = λ d i. (neg 1, record { pinst = i; last_committed = 0 });
  batch_load_entry = λ d i a b. (pos 0, []);
}

abbrev pub config : Configure
config = record {
  timeout = 100;
  pid_cookie = 0;
  total_acceptor = 3;
  total_proposer = 3;
  acceptor_worker_count = 1;
  proposer_worker_count = 1;
  entry_cache_num = 8;
  worker_msg_queue_sz = 8;
  msg_version = 1;
  plog_inst_num = 1;
  pg_type = 3;
  local = record { id = 0; type = 3; addr = [] };
  peer = [];
}

abbrev chosen_value : Proposal
chosen_value = record (alloc_proposal 0) {
  pid = 1;
  pentry = 1;
  proposer = 1;
  status = PaxosState.chosen;
  value_id = 7;
}

abbrev chosen_entry : Entry
chosen_entry = record { pinst = 0; entry = 1; accepted = some chosen_value; promised = none }

abbrev manager : EntryMng (Unit {0})
manager = record (EntryMng.init 8 0 tt) {
  entries = LruMap.put 1 chosen_entry (LruMap.init 8);
  last_chosen_entry = 1;
  max_in_used_entry = 1;
}

abbrev log : PlogMng (Unit {0})
log = record { creator = λ i. manager; mngs = some manager ∷ [] }

abbrev server : Acceptor (Unit {0})
server = record { plog = log; wpool = WorkerPool.init }

-- A rival asks for a promise of the chosen entry, and then to accept another value there.
abbrev rival : ℕ → ℕ → PaxosRequest
rival type status = record {
  cb = 0;
  msg = record (alloc_proposal_msg 0) {
    type = type;
    proposal = record (alloc_proposal 0) {
      pid = 9;
      pentry = 1;
      proposer = 2;
      status = status;
      value_id = 5;
    };
  };
}

abbrev rivals : List PaxosRequest
rivals =
    rival MsgType.prepare_req PaxosState.prepared
    ∷ rival MsgType.accept_req PaxosState.accepted
    ∷ []

log-manager : (i : ℕ) → entry_mng i log ≡ manager
unfolding entry_mng mng_at
log-manager i = let e : i % 1 ≡ 0 = omega arith in rw e refl

log-IsReady : IsReady 1 2 log
unfolding LruMap.put LruMap.link LruMap.evict LruMap.init EntryMng.init insert lookup
log-IsReady = record {
  count = refl;
  valid = λ i. rw (log-manager i) (put-IsValid 1 chosen_entry (LruMap.init 8) (init-IsValid 8));
  room = λ i. rw (log-manager i) (omega arith);
}

log-logged : logged 0 1 log ≡ some chosen_entry
unfolding LruMap.put LruMap.link LruMap.evict LruMap.init EntryMng.init entry_mng mng_at insert
    lookup
log-logged = refl

run-AllEvolve_example : AllEvolve log (run no_disk config rivals server).plog
run-AllEvolve_example = run-AllEvolve no_disk 1 (omega arith) config rivals server log-IsReady

run-chosen_example :
    (y : Entry) × (w : Proposal) × (logged 0 1 (run no_disk config rivals server).plog ≡ some y)
    × (y.accepted ≡ some w)
    × (w.status ≡ PaxosState.chosen)
    × (w.pid ≡ chosen_value.pid)
    × (w.value_id ≡ chosen_value.value_id)
run-chosen_example =
    run-chosen no_disk 1 (omega arith) config rivals server 0 1 chosen_entry chosen_value
      log-IsReady log-logged refl refl

create-Logs_example :
    Logs 1 1 0 1
      (PlogMng.get_entry_and_create_if_not_exist no_disk 0 1 log).0
      log
      (PlogMng.get_entry_and_create_if_not_exist no_disk 0 1 log).1
    × ((w : Entry)
        → logged 0 1 log ≡ some w
        → (PlogMng.get_entry_and_create_if_not_exist no_disk 0 1 log).0 ≡ w)
create-Logs_example = create-Logs no_disk 1 1 (omega arith) log 0 1 log-IsReady

set_accepted-Logs_example :
    Logs 1 2 0 1
      (Entry.set_accepted (some (clone_proposal chosen_value)) chosen_entry)
      log
      (PlogMng.set_accepted no_disk chosen_value log).1
unfolding alloc_proposal
set_accepted-Logs_example =
    set_accepted-Logs no_disk 1 2 (omega arith) log chosen_value chosen_entry log-IsReady log-logged

set_chosen-Logs_example :
    Logs 1 2 0 1
      (with_status chosen_entry chosen_value PaxosState.chosen)
      log
      (PlogMng.set_chosen no_disk 0 1 log).1
set_chosen-Logs_example =
    set_chosen-Logs no_disk 1 2 (omega arith) log 0 1 chosen_entry chosen_value log-IsReady
      log-logged refl

abbrev late_prepare : Proposal
late_prepare = record (alloc_proposal 0) {
  pid = 9;
  pentry = 1;
  proposer = 2;
  status = PaxosState.prepared;
  value_id = 5;
}

handle_prepare_req_accepted_example :
    is_promise 9 (handle_prepare_req no_disk late_prepare server).0 ≡ false
unfolding alloc_proposal
handle_prepare_req_accepted_example =
    handle_prepare_req_accepted no_disk 1 9 late_prepare chosen_entry chosen_value server
      (omega arith) (IsReady-fewer 1 1 log log-IsReady) log-logged refl
