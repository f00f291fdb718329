-- ===== src/Proposer/Create.antt =====
-- The constructor of Proposer.
use quarrel.Prelude.{ℕ, zero, suc, ◌+◌, ◌-◌, ◌^◌, ◌%◌, List, [], ◌∷◌, Option, none, some}
use quarrel.Prelude.Int.{ℤ, pos, negsuc}
use quarrel.Config.{Configure}
use quarrel.PaxosGroup.{PaxosGroup, create_group, get_member_id_by_svr_id}
use quarrel.Util.WorkerPool
use quarrel.Proposer.State.{InstanceState, new_state}
use quarrel.Proposer.Route.{Proposer}

-- `InstanceState(pid, proposer_count)` at an int: a server that is no member has -1, which wraps.
unfoldable pub instance_state : ℤ → ℕ → ℕ → InstanceState
unfolding new_state
instance_state (pos pid) proposer_count seconds = new_state pid proposer_count seconds
instance_state (negsuc n) proposer_count seconds = record (new_state 0 proposer_count seconds) {
  proposer_id = 2 ^ 32 - suc n;
  ig = record { id = (2 ^ 64 - n) % 2 ^ 64; step = proposer_count };
}

-- The states of `n` instances from the `i`-th on; `now i` is the time of day when it is set up.
unfoldable pub states_from : Configure → PaxosGroup → (ℕ → ℕ) → ℕ → ℕ → List InstanceState
unfolding instance_state
states_from cfg mapper now i zero = []
states_from cfg mapper now i (suc n) =
    instance_state (get_member_id_by_svr_id mapper i (pos cfg.local.id)) cfg.total_proposer (now i)
    ∷ states_from cfg mapper now (i + 1) n

-- The wheel of the timeouts is not part of the state.
unfoldable pub with_group : Configure → (ℕ → ℕ) → PaxosGroup → Proposer
unfolding states_from
with_group cfg now mapper = record {
  states = states_from cfg mapper now 0 cfg.plog_inst_num;
  wpool = WorkerPool.start_worker cfg.proposer_worker_count cfg.worker_msg_queue_sz WorkerPool.init;
}

-- No result is a group that does not exist.
unfoldable pub new_proposer : Configure → (ℕ → ℕ) → Option Proposer
unfolding with_group
new_proposer cfg now = elim (create_group cfg.total_proposer) [
  | none ↦ none
  | some mapper ↦ some (with_group cfg now mapper)
]
