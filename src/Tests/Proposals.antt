-- ===== src/Tests/Proposals.antt =====
-- Instances of a proposer with three acceptors.
use quarrel.Prelude.{
  ℕ, ◌≤◌, ◌≡◌, ◌≢◌, ◌⊎◌, refl, ap, length, ◌∷◌, [], List, none, some, true, arith,
}
use quarrel.Ptype.{Proposal, PaxosMsg, alloc_proposal, alloc_proposal_msg, copy_proposal_meta}
use quarrel.Ptype.ErrCode
use quarrel.Ptype.PaxosState
use quarrel.Ptype.MsgType
use quarrel.Proposer.State.{
  InstanceState, new_state, majority, setup_phase, as_accept_req, set_value, set_value_once,
  update_chosen_info,
}
use quarrel.Proposer.Respond.{
  handle_prepare_rsp, judge_promise, count_promise, copy_meta, note_last_vote, enter_accept,
  start_accept, finish_prepare, handle_accept_rsp, judge_accepted, count_accept, finish_accept,
  as_chosen_req,
}
use quarrel.Proposer.Route.{respond}
use quarrel.Proposer.Propose.{propose_async}
use quarrel.Proposer.Respond.Once.{IsServed}
use quarrel.Proposer.Respond.Quorum.{Waits}
use quarrel.Proposer.Respond.Chosen.{Awaits}
use quarrel.Proposer.Route.Laws.{Event, asked, heard, happen, happen_all, propose_async-IsServed}
use quarrel.Proposer.Route.Quorum.{broadcasts, promises, broadcast_needs_quorum}
use quarrel.Proposer.Route.Ballot.{declares, HasAccepts, declared_needs_quorums}
use quarrel.Proposer.Route.Chosen.{accepts, OneChosen, chosen_needs_quorum}
use quarrel.Tests.Logs.{config}

-- The proposal that the tests are about.
abbrev value : Proposal
value = record (alloc_proposal 0) { pid = 4; pentry = 1; value_id = 7 }

abbrev message : ℕ → ℕ → PaxosMsg
message type status = record (alloc_proposal_msg 0) {
  type = type;
  proposal = record value { status = status };
}

abbrev pub idle : InstanceState
idle = new_state 0 3 0

abbrev preparing : InstanceState
preparing = record idle {
  req = some (message MsgType.prepare_req PaxosState.prepared);
  state = PaxosState.preparing;
  term = 1;
}

abbrev accepting : InstanceState
accepting = record preparing { state = PaxosState.accepting }

abbrev promise : ℕ × PaxosMsg
promise = (0, message MsgType.prepare_rsp PaxosState.promised)

abbrev accept : ℕ × PaxosMsg
accept = (0, message MsgType.accept_rsp PaxosState.accepted)

preparing-Waits : Waits 4 0 preparing
unfolding new_state
preparing-Waits = ((message MsgType.prepare_req PaxosState.prepared, refl, refl), refl, omega arith)

accepting-Awaits : Awaits value 0 accepting
unfolding new_state
accepting-Awaits =
    ((message MsgType.prepare_req PaxosState.prepared, refl, refl, refl), refl, omega arith)

two_promises : broadcasts config (promise ∷ promise ∷ []) preparing ≢ []
unfolding broadcasts respond handle_prepare_rsp judge_promise count_promise copy_meta note_last_vote
    enter_accept start_accept setup_phase as_accept_req finish_prepare set_value set_value_once
    copy_proposal_meta alloc_proposal_msg alloc_proposal new_state
two_promises = λ e. let one = ap length e in omega arith

broadcast_needs_quorum_example : majority config ≤ promises 4 (promise ∷ promise ∷ [])
broadcast_needs_quorum_example =
    broadcast_needs_quorum config (promise ∷ promise ∷ []) 4 preparing preparing-Waits two_promises

abbrev whole_run : List (ℕ × PaxosMsg)
whole_run = promise ∷ promise ∷ accept ∷ accept ∷ []

value_declared : declares (broadcasts config whole_run preparing) ≡ true
unfolding broadcasts respond handle_prepare_rsp judge_promise count_promise copy_meta note_last_vote
    enter_accept start_accept setup_phase as_accept_req finish_prepare set_value set_value_once
    copy_proposal_meta alloc_proposal_msg alloc_proposal new_state handle_accept_rsp judge_accepted
    count_accept finish_accept as_chosen_req update_chosen_info
value_declared = refl

declared_needs_quorums_example :
    (majority config ≤ promises 4 whole_run) × HasAccepts config 4 whole_run
declared_needs_quorums_example =
    declared_needs_quorums config whole_run 4 preparing preparing-Waits value_declared

chosen_needs_quorum_example :
    (broadcasts config (accept ∷ accept ∷ []) accepting ≡ [])
    ⊎ ((majority config ≤ accepts value (accept ∷ accept ∷ []))
        × OneChosen config value (broadcasts config (accept ∷ accept ∷ []) accepting))
chosen_needs_quorum_example =
    chosen_needs_quorum config (accept ∷ accept ∷ []) value accepting accepting-Awaits

-- A second request while the first is open, then two promises and a timeout.
abbrev events : List Event
events =
    asked 6 (1 ∷ []) 0 ∷ heard 0 (some promise.1) ∷ heard 0 (some promise.1) ∷ heard 0 none ∷ []

propose_async-IsServed_example :
    IsServed (happen_all config events (propose_async config 5 (2 ∷ []) 0 idle).state)
unfolding new_state
propose_async-IsServed_example = propose_async-IsServed config 5 (2 ∷ []) 0 events idle refl

-- Two acceptors refuse and the third, the last to answer, promises: there is no quorum, nothing is
-- broadcast, and the client is told that all is well.
abbrev refusal : PaxosMsg
refusal = message MsgType.prepare_rsp PaxosState.promised_failed

no_quorum_told_ok :
    (happen_all config
      (heard 0 (some refusal) ∷ heard 0 (some refusal) ∷ heard 0 (some promise.1) ∷ [])
      preparing).ret
    ≡ ErrCode.ok ∷ []
unfolding happen_all happen respond handle_prepare_rsp judge_promise count_promise copy_meta
    note_last_vote enter_accept start_accept setup_phase as_accept_req finish_prepare set_value
    set_value_once copy_proposal_meta alloc_proposal_msg alloc_proposal new_state
no_quorum_told_ok = refl
