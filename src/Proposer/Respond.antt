-- ===== src/Proposer/Respond.antt =====
-- `handlePrepareRsp` and `handleAcceptRsp`: the answers of the acceptors.
pub mod Once
pub mod Quorum
pub mod Chosen
pub mod Turns
use quarrel.Prelude.{
  ℕ, ◌+◌, ◌-◌, List, [], ◌∷◌, Option, none, some, Bool, true, false, ◌||◌, ◌&&◌, not, ltb, leb,
  ◌==◌, if◌then◌else◌,
}
use quarrel.Prelude.Int.{ℤ, pos, neg, is_zero, is_neg}
use quarrel.Prelude.Words.{u8, sub_u32}
use quarrel.Config.{Configure}
use quarrel.Ptype.{Proposal, PaxosMsg, alloc_proposal, clone_proposal_msg, copy_proposal_meta}
use quarrel.Ptype.ErrCode
use quarrel.Ptype.PaxosState
use quarrel.Ptype.MsgType
use quarrel.Proposer.State.{
  InstanceState, Outcome, phase, is_returned, returned, set_value, set_value_once, majority,
  update_prepare_id, update_chosen_info, setup_phase, as_accept_req,
}

-- The local variables at the label `out`.
pub record Local : Type 0 where
  pub state : InstanceState
  pub sent : List PaxosMsg
  pub ret : ℤ
  pub done : Bool
  pub first_got_lastv : Bool

-- `CopyProposalMeta(*req_proposal, *rsp_proposal)`
unfoldable pub copy_meta : PaxosMsg → Proposal → InstanceState → InstanceState
copy_meta req rsp s = record s {
  req = some (record req { proposal = (copy_proposal_meta req.proposal rsp).1 });
}

-- The branch on a response that shows another value: whether it is the first one, and the state.
-- The assertion that this value is not empty is left out, and a null `lastv_` counts as the lower id.
unfoldable pub note_last_vote : PaxosMsg → Proposal → InstanceState → Bool × InstanceState
note_last_vote rsp req s =
    let has_last_vote = is_returned s.state in
    let lower : Bool = elim s.lastv [
      | none ↦ true
      | some v ↦ ltb v.proposal.pid rsp.proposal.pid
    ] in
    if rsp.proposal.value_id == req.value_id
    then (false, s)
    else if not has_last_vote || lower
    then (
      not has_last_vote,
      record s { state = returned s.state; lastv = some (clone_proposal_msg rsp) },
    )
    else (false, s)

-- The message that becomes the accept request, and where it is kept. In place of a null pointer
-- stands a message of zeros.
unfoldable pub start_accept : Configure → InstanceState → PaxosMsg × InstanceState
start_accept cfg s = elim (if is_returned s.state then s.lastv else s.req) [
  | none ↦ (
    record {
      magic = 0;
      size = 0;
      type = 0;
      version = 0;
      from = 0;
      errcode = pos 0;
      reqid = 0;
      proposal = alloc_proposal 0;
    },
    s,
  )
  | some m ↦
      let am = as_accept_req cfg s m in
      (
        am,
        if is_returned s.state
            then record s { lastv = none }
            else record s { req = some am; lastv = none },
      )
]

-- `handlePrepareRsp` once enough acceptors have promised. A response with `pid` 0 is a read probe's.
unfoldable pub enter_accept : Configure → Proposal → Bool → ℤ → InstanceState → Local
unfolding start_accept setup_phase
enter_accept cfg rsp first ret s =
    let (am, s') = start_accept cfg s in
    if ltb 0 rsp.pid
    then record {
      state =
          setup_phase
            (if is_returned s.state then PaxosState.accepting + 128 else PaxosState.accepting) s';
      sent = am ∷ [];
      ret = ret;
      done = false;
      first_got_lastv = first;
    }
    else record { state = s; sent = []; ret = ErrCode.ok; done = true; first_got_lastv = first }

-- `handlePrepareRsp` from the last vote to the label `out`.
unfoldable pub count_promise : Configure → PaxosMsg → Proposal → Bool → InstanceState → Local
unfolding note_last_vote enter_accept
count_promise cfg rsp req done s =
    let (first, s1) = note_last_vote rsp req s in
    let s2 = record s1 { valid_rsp_count = u8 (s1.valid_rsp_count + 1) } in
    let enough = leb (majority cfg) s2.valid_rsp_count in
    let should_do_accept = if is_returned s2.state && enough then done else enough in
    if should_do_accept
    then enter_accept cfg rsp.proposal first rsp.errcode s2
    else record { state = s2; sent = []; ret = rsp.errcode; done = done; first_got_lastv = first }

-- `handlePrepareRsp` up to the label `out`, for the request `req`.
unfoldable pub judge_promise : Configure → PaxosMsg → PaxosMsg → InstanceState → Local
unfolding count_promise copy_meta
judge_promise cfg rsp req s =
    if not (rsp.type == MsgType.prepare_rsp)
    then record { state = s; sent = []; ret = neg 1; done = false; first_got_lastv = false }
    else (let s1 = record s { rsp_count = u8 (s.rsp_count + 1) } in
        let done = s1.rsp_count == cfg.total_acceptor in
        let s2 = copy_meta req rsp.proposal s1 in
        if not (is_zero rsp.errcode)
        then record {
          state = s1;
          sent = [];
          ret = rsp.errcode;
          done = done;
          first_got_lastv = false;
        }
        else if not (rsp.proposal.status == PaxosState.promised)
        then record { state = s1; sent = []; ret = neg 2; done = done; first_got_lastv = false }
        else if ltb req.proposal.pid rsp.proposal.pid
        then record {
          state = update_prepare_id rsp.proposal.pid s2;
          sent = [];
          ret = neg 3;
          done = done;
          first_got_lastv = false;
        }
        else count_promise cfg rsp req.proposal done s2)

-- The label `out` of `handlePrepareRsp`.
unfoldable pub finish_prepare : Local → Outcome
unfolding set_value set_value_once
finish_prepare l =
    let s =
      if l.first_got_lastv && is_returned l.state.state
      then set_value ErrCode.prepare_peer_value l.state
      else l.state in
    let ret = if is_neg l.ret then ErrCode.prepare_not_quoraum else l.ret in
    if l.done
    then record {
      state = set_value_once ret (record s { req = none });
      sent = l.sent;
      timers = [];
      value = ret;
    }
    else record { state = s; sent = l.sent; timers = []; value = l.ret }

unfoldable pub handle_prepare_rsp : Configure → PaxosMsg → InstanceState → Outcome
unfolding judge_promise finish_prepare
handle_prepare_rsp cfg rsp s = elim s.req [
  | none ↦ record { state = s; sent = []; timers = []; value = pos 0 }
  | some req ↦ finish_prepare (judge_promise cfg rsp req s)
]

-- The response as the chosen request that is broadcast.
unfoldable pub as_chosen_req : Configure → PaxosMsg → PaxosMsg
as_chosen_req cfg rsp = record rsp {
  size = sub_u32 rsp.size rsp.proposal.size;
  from = cfg.local.id;
  type = MsgType.chosen_req;
  proposal = record rsp.proposal { size = 0; status = PaxosState.chosen };
}

-- `handleAcceptRsp` once the response was found to be for the request's value.
unfoldable pub count_accept : Configure → PaxosMsg → Bool → InstanceState → Local
unfolding as_chosen_req
count_accept cfg rsp done s =
    let s1 = record s { valid_rsp_count = u8 (s.valid_rsp_count + 1) } in
    let pp = rsp.proposal in
    if leb (majority cfg) s1.valid_rsp_count
    then record {
      state = (update_chosen_info pp.pentry pp.proposer s1).1;
      sent = as_chosen_req cfg rsp ∷ [];
      ret = rsp.errcode;
      done = true;
      first_got_lastv = false;
    }
    else record { state = s1; sent = []; ret = rsp.errcode; done = done; first_got_lastv = false }

-- `handleAcceptRsp` up to the label `out`, for the request `req`.
unfoldable pub judge_accepted : Configure → PaxosMsg → PaxosMsg → InstanceState → Local
unfolding count_accept copy_meta
judge_accepted cfg rsp req s =
    if not (rsp.type == MsgType.accept_rsp)
    then record {
      state = s;
      sent = [];
      ret = ErrCode.invalid_accept_rsp;
      done = false;
      first_got_lastv = false;
    }
    else (let s1 = record s { rsp_count = u8 (s.rsp_count + 1) } in
        let done = s1.rsp_count == cfg.total_acceptor in
        let s2 = copy_meta req rsp.proposal s1 in
        if not (is_zero rsp.errcode)
        then record {
          state = s1;
          sent = [];
          ret = rsp.errcode;
          done = done;
          first_got_lastv = false;
        }
        else if not (rsp.proposal.status == PaxosState.accepted)
        then record {
          state = s1;
          sent = [];
          ret = ErrCode.peer_accept_fail;
          done = done;
          first_got_lastv = false;
        }
        else if not (rsp.proposal.pid == req.proposal.pid)
        then record {
          state = update_prepare_id rsp.proposal.pid s2;
          sent = [];
          ret = ErrCode.peer_accept_rejected;
          done = done;
          first_got_lastv = false;
        }
        else if not (rsp.proposal.value_id == req.proposal.value_id)
        then record {
          state = s2;
          sent = [];
          ret = ErrCode.peer_accept_other_value;
          done = done;
          first_got_lastv = false;
        }
        else count_accept cfg rsp done s2)

-- The label `out` of `handleAcceptRsp`.
unfoldable pub finish_accept : Local → Outcome
unfolding set_value_once
finish_accept l = record {
  state = if l.done then set_value_once l.ret (record l.state { req = none }) else l.state;
  sent = l.sent;
  timers = [];
  value = l.ret;
}

unfoldable pub handle_accept_rsp : Configure → PaxosMsg → InstanceState → Outcome
unfolding judge_accepted finish_accept
handle_accept_rsp cfg rsp s = elim s.req [
  | none ↦ record { state = s; sent = []; timers = []; value = pos 0 }
  | some req ↦ finish_accept (judge_accepted cfg rsp req s)
]
