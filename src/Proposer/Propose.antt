-- ===== src/Proposer/Propose.antt =====
-- `allocPaxosMsg` and `ProposeAsync`: the start of a proposal.
use Prim.Native.Nat.{bit_or}
use quarrel.Prelude.{ℕ, ◌+◌, List, [], ◌∷◌, none, some, ◌||◌, not, ◌==◌, if◌then◌else◌, length}
use quarrel.Prelude.Words.{u16, u32, u64, sub_u32}
use quarrel.Config.{Configure}
use quarrel.IdGen
use quarrel.Ptype.{PaxosMsg, alloc_proposal_msg, clone_proposal_msg}
use quarrel.Ptype.ErrCode
use quarrel.Ptype.PaxosState
use quarrel.Ptype.MsgType
use quarrel.Proposer.State.{
  InstanceState, Outcome, setup_wait_state, can_skip_prepare, as_accept_req,
}

-- The id of the proposal and the generator afterwards; a read probe has id 0 and uses none up.
unfoldable pub draw_pid : Configure → ℕ → InstanceState → ℕ × InstanceState
draw_pid cfg value_size s =
    let (id, ig) = IdGen.get_and_inc s.ig in
    if value_size == 0 then (0, s) else (bit_or id cfg.pid_cookie, record s { ig = ig })

unfoldable pub alloc_paxos_msg : Configure → ℕ → ℕ → ℕ → InstanceState → PaxosMsg × InstanceState
unfolding draw_pid
alloc_paxos_msg cfg pinst opaque value_size s =
    let pm = alloc_proposal_msg value_size in
    let (pid, s') = draw_pid cfg value_size s in
    let (value_id, vig) = IdGen.get_and_inc s.vig in
    (
      record pm {
        from = cfg.local.id;
        type = MsgType.prepare_req;
        version = cfg.msg_version;
        proposal = record pm.proposal {
          pid = pid;
          pinst = pinst;
          pentry = u64 (s.last_chosen_entry + 1);
          opaque = opaque;
          status = PaxosState.prepared;
          proposer = u16 s.proposer_id;
          term = s.term;
          value_id = value_id;
          last_chosen = s.last_chosen_entry;
          last_chosen_from = u16 s.last_chosen_from;
        };
      },
      record s' { term = u64 (s.term + 1); vig = vig },
    )

-- The prepare request: the message with no value, cloned while its sizes leave the value out.
unfoldable pub prepare_copy : ℕ → PaxosMsg → PaxosMsg
unfolding clone_proposal_msg
prepare_copy value_size pm = clone_proposal_msg (record pm {
  size = sub_u32 pm.size value_size;
  proposal = record pm.proposal { size = sub_u32 pm.proposal.size value_size };
})

-- `ProposeAsync` on the state of the instance. Its value is the code of a future that is ready at
-- once, or `working_in_propgress` for one that the promise in the state will make ready.
unfoldable pub propose_async : Configure → ℕ → List ℕ → ℕ → InstanceState → Outcome
unfolding alloc_paxos_msg prepare_copy setup_wait_state as_accept_req
propose_async cfg opaque val pinst s = elim s.req [
  | some _ ↦ record { state = s; sent = []; timers = []; value = ErrCode.working_in_propgress }
  | none ↦
      let size = u32 (length val) in
      let (blank, s') = alloc_paxos_msg cfg pinst opaque size s in
      let pm = record blank { proposal = record blank.proposal { payload = val } } in
      if (length val == 0) || not (can_skip_prepare pm.proposal s')
      then record {
        state = setup_wait_state PaxosState.preparing pm s';
        sent = prepare_copy size pm ∷ [];
        timers = pm.proposal.term ∷ [];
        value = ErrCode.working_in_propgress;
      }
      else (let am = as_accept_req cfg s' pm in
          record {
            state = setup_wait_state PaxosState.accepting am s';
            sent = am ∷ [];
            timers = am.proposal.term ∷ [];
            value = ErrCode.working_in_propgress;
          })
]
