-- ===== src/Proposer/Route.antt =====
-- `Propose`, `ProposeAsync` and `handleRpcResponse` over all instances, and `addRpcResponse`.
pub mod Laws
pub mod Quorum
pub mod Chosen
pub mod Ballot
use quarrel.Prelude.{
  ℕ, ◌+◌, ◌%◌, List, [], ◌∷◌, Option, none, some, Bool, true, false, ◌||◌, ◌&&◌, not, ◌==◌,
  if◌then◌else◌, length, get_elem?, set,
}
use quarrel.Prelude.Int.{ℤ, pos, is_zero}
use quarrel.Prelude.Words.{sub_u64}
use quarrel.Config.{Configure}
use quarrel.Ptype.{PaxosMsg}
use quarrel.Ptype.ErrCode
use quarrel.Ptype.PaxosState
use quarrel.Util.WorkerPool
use quarrel.Util.WorkerPool.{WorkerPool}
use quarrel.Proposer.State.{InstanceState, Outcome, phase, set_value_once, on_entry_chosen}
use quarrel.Proposer.Propose.{propose_async}
use quarrel.Proposer.Respond.{handle_prepare_rsp, handle_accept_rsp}

-- No message is a timeout.
pub record RpcResponseMsg : Type 0 where
  pub term : ℕ  -- uint64_t
  pub pinst : ℕ  -- uint64_t
  pub entry : ℕ  -- uint64_t
  pub msg : Option PaxosMsg

-- An outcome that leaves the state as it is.
abbrev pub ignored : InstanceState → Outcome
ignored s = record { state = s; sent = []; timers = []; value = ErrCode.ok }

-- The early return of `handleRpcResponse`: the response is late.
abbrev pub is_late : ℕ → InstanceState → Bool
is_late term s = not (term == sub_u64 s.term 1) || elim s.req [ none ↦ true | some _ ↦ false ]

-- The branch of `handleRpcResponse` on a timeout.
unfoldable pub expire : InstanceState → InstanceState
unfolding set_value_once
expire s = set_value_once ErrCode.timeout (record s { req = none; lastv = none })

-- `handleRpcResponse` on the state of the instance.
unfoldable pub respond : Configure → ℕ → Option PaxosMsg → InstanceState → Outcome
unfolding expire handle_prepare_rsp handle_accept_rsp
respond cfg term msg s = if is_late term s then ignored s else elim msg [
  | none ↦ ignored (expire s)
  | some m ↦
      if phase s.state == PaxosState.preparing
      then handle_prepare_rsp cfg m s
      else if phase s.state == PaxosState.accepting
      then handle_accept_rsp cfg m s
      else ignored s
]

-- `states_` and the thread pool of the responses.
pub record Proposer : Type 0 where
  pub states : List InstanceState
  pub wpool : WorkerPool RpcResponseMsg

-- Put the state of an outcome back.
unfoldable pub store : ℕ → Outcome → Proposer → Outcome × Proposer
store i o p = (o, record p { states = set p.states i o.state })

-- `ProposeAsync`; no result is an index that is out of range.
unfoldable pub propose : Configure → ℕ → List ℕ → ℕ → Proposer → Option (Outcome × Proposer)
unfolding propose_async store
propose cfg opaque val pinst p =
    let i = pinst % length p.states in
    elim (get_elem? p.states i) [
      | none ↦ none
      | some s ↦ some (store i (propose_async cfg opaque val i s) p)
    ]

-- A message that reaches a handler, which will look for another instance than `i`.
abbrev pub is_stray : ℕ → Option PaxosMsg → InstanceState → Bool
is_stray i none s = false
is_stray i (some m) s =
    ((phase s.state == PaxosState.preparing) || (phase s.state == PaxosState.accepting))
    && not (m.proposal.pinst == i)

-- `handleRpcResponse`. The handlers find the state by the instance in the message, which they do not
-- reduce: no result is an index that is out of range, or another instance's state, which the lock
-- that is held does not guard.
unfoldable pub handle_rpc_response :
    Configure → RpcResponseMsg → Proposer → Option (Outcome × Proposer)
unfolding respond store
handle_rpc_response cfg m p =
    let i = m.pinst % length p.states in
    elim (get_elem? p.states i) [
      | none ↦ none
      | some s ↦
          if is_stray i m.msg s && not (is_late m.term s)
          then none
          else some (store i (respond cfg m.term m.msg s) p)
    ]

-- `OnEntryChosen`
unfoldable pub notify_chosen : PaxosMsg → Bool → Proposer → Option (ℤ × Proposer)
unfolding on_entry_chosen
notify_chosen msg from_plog p =
    let i = msg.proposal.pinst % length p.states in
    elim (get_elem? p.states i) [
      | none ↦ none
      | some s ↦
          let (code, s') = on_entry_chosen msg from_plog s in
          some (code, record p { states = set p.states i s' })
    ]

-- `addRpcResponse`; no result is a call that waits for ever.
unfoldable pub add_rpc_response : ℕ → ℕ → Option PaxosMsg → ℕ → Proposer → Option ℤ × Proposer
add_rpc_response pinst entry msg term p =
    let m : RpcResponseMsg = record { term = term; pinst = pinst; entry = entry; msg = msg } in
    let (code, wpool) = WorkerPool.add_work pinst m p.wpool in
    let p' = record p { wpool = wpool } in
    elim code [
      | none ↦ (none, p')
      | some c ↦ (some (if is_zero c then ErrCode.ok else ErrCode.proposer_queue_full), p')
    ]
