-- ===== src/Tests/Servers.antt =====
-- A server that starts and stops.
use quarrel.Prelude.{ℕ, ◌≡◌, refl, List, [], ◌∷◌, some, none, false}
use quarrel.Plog.EntryMng
use quarrel.Util.WorkerPool
use quarrel.PaxosGroup.{paxos_group}
use quarrel.Proposer.Create.{with_group}
use quarrel.Ptype.{PaxosMsg, alloc_proposal_msg}
use quarrel.Acceptor.{start_worker}
use quarrel.Paxos.{Paxos, start}
use quarrel.Paxos.Restart.{Call, starting, stopping, message}
use quarrel.Tests.Logs.{config}

abbrev server : Paxos (Unit {0}) ℕ
server = record {
  started = false;
  config = record config { plog_inst_num = 2 };
  conn_mng = record { config = config; conn = [] };
  pg_mapper = paxos_group 3 6;
  acceptor = record {
    plog = record {
      creator = λ i. EntryMng.init 8 0 tt;
      mngs = some (EntryMng.init 8 0 tt) ∷ some (EntryMng.init 8 0 tt) ∷ [];
    };
    wpool = WorkerPool.init;
  };
  proposer = with_group config (λ i. 9) (paxos_group 3 6);
}

abbrev hello : PaxosMsg
hello = alloc_proposal_msg 5

-- Two starts with a message before, between and after.
abbrev calls : List Call
calls = message hello 1 ∷ starting ∷ message hello 2 ∷ stopping ∷ starting ∷ message hello 3 ∷ []

-- As many workers as instances: the assertion fails.
too_many_workers : start (record server { config = config }) ≡ none
unfolding start start_worker
too_many_workers = refl
