-- ===== src/Acceptor/Defs/Accept.antt =====
-- `handleAcceptReq`
use quarrel.Prelude.{ℕ, none, some, Bool, true, false, ◌&&◌, not, ltb, leb, ◌==◌, if◌then◌else◌}
use quarrel.Prelude.Int.{ℤ, is_zero}
use quarrel.Prelude.Words.{all_ones_16}
use quarrel.Ptype.{Proposal, PaxosMsg, alloc_proposal_msg, copy_bytes}
use quarrel.Ptype.ErrCode
use quarrel.Ptype.PaxosState
use quarrel.Ptype.MsgType
use quarrel.Plog.Entry.{Entry}
use quarrel.Plog.EntryMng.{Storage}
use quarrel.Plog.PlogMng
use quarrel.Plog.PlogMng.{PlogMng, on_mng, entry_mng}
use quarrel.Acceptor.Defs.State.{Acceptor, max_chosen, check_local_and_may_trigger_catchup}

-- What `handleAcceptReq` finds out about a request, one constructor for each of its branches.
pub data Verdict : Type 0 where
  corrupt duplicate renew already_chosen stale promise_kept promise_broken fast : Verdict

unfoldable pub judge_accept : Entry → Proposal → Verdict
judge_accept ent pp = elim ent.accepted [
  | some e ↦
      if not (e.status == PaxosState.chosen) && not (e.status == PaxosState.accepted)
      then corrupt
      else if (e.pid == pp.pid) && (e.value_id == pp.value_id)
      then duplicate
      else if ltb e.pid pp.pid
      then (if not (e.status == PaxosState.chosen) then renew else already_chosen)
      else stale
  | none ↦ elim ent.promised [
    | some q ↦ if leb q.pid pp.pid then promise_kept else promise_broken
    | none ↦ fast
  ]
]

-- The tail of `handleAcceptReq`.
unfoldable pub accept_rsp : ℤ → Proposal → Bool → ℕ → PaxosMsg
unfolding alloc_proposal_msg
accept_rsp errcode accepted_pp accepted last_chosen = record (alloc_proposal_msg 0) {
  errcode = errcode;
  type = MsgType.accept_rsp;
  proposal = record (copy_bytes 0 accepted_pp) {
    size = 0;
    last_chosen_from = all_ones_16;
    last_chosen = last_chosen;
    status = if accepted then PaxosState.accepted else PaxosState.accepted_failed;
  };
}

module _ {D : Type 0} (st : Storage D) where
  -- `SetAccepted` of the request as accepted: whether it was saved, and the log.
  unfoldable pub accept_value : Proposal → PlogMng D → Bool × PlogMng D
  accept_value pp s =
      let (ret, s') = PlogMng.set_accepted st (record pp { status = PaxosState.accepted }) s in
      (is_zero ret, s')

  -- The branches of `handleAcceptReq`: the error code, the proposal that the answer shows, whether
  -- it is accepted, and the log. `existed_pp` refers to the entry's field, so after `SetAccepted`
  -- it shows the new proposal.
  unfoldable pub execute_accept :
      Verdict → Proposal → Entry → PlogMng D → ℤ × Proposal × Bool × PlogMng D
  unfolding accept_value
  execute_accept corrupt pp ent s = (ErrCode.invalid_plog_data, pp, false, s)
  execute_accept duplicate pp ent s =
      (ErrCode.duplicate_proposal_req, elim ent.accepted [ none ↦ pp | some e ↦ e ], true, s)
  execute_accept renew pp ent s =
      let (saved, s') = accept_value pp s in
      if saved
      then (ErrCode.ok, record pp { status = PaxosState.accepted }, true, s')
      else (ErrCode.write_plog_fail, record pp { status = PaxosState.accepted }, false, s')
  execute_accept already_chosen pp ent s =
      (ErrCode.invalid_proposal_req, elim ent.accepted [ none ↦ pp | some e ↦ e ], false, s)
  execute_accept stale pp ent s =
      (ErrCode.invalid_proposal_req, elim ent.accepted [ none ↦ pp | some e ↦ e ], false, s)
  execute_accept promise_kept pp ent s =
      let (saved, s') = accept_value pp s in
      if saved
      then (ErrCode.ok, record pp { status = PaxosState.accepted }, true, s')
      else (ErrCode.write_plog_fail, record pp { status = PaxosState.promised }, false, s')
  execute_accept promise_broken pp ent s = (ErrCode.ok, pp, false, s)
  execute_accept fast pp ent s =
      let (saved, s') = accept_value pp s in
      if saved then (ErrCode.ok, record pp { status = PaxosState.accepted }, true, s') else (
        ErrCode.write_plog_fail,
        record pp { status = PaxosState.fast_accept_failed },
        false,
        s',
      )

  unfoldable pub handle_accept_req : Proposal → Acceptor D → PaxosMsg × Acceptor D
  unfolding execute_accept judge_accept
  handle_accept_req pp a =
      let (ret, a') = check_local_and_may_trigger_catchup pp a in
      if is_zero ret
      then (let (ent, s) =
            PlogMng.get_entry_and_create_if_not_exist st pp.pinst pp.pentry a'.plog in
          let (errcode, accepted_pp, accepted, s') =
            execute_accept (judge_accept ent pp) pp ent s in
          let rsp =
            accept_rsp errcode accepted_pp accepted
              (max_chosen pp.pinst (record a' { plog = s' })) in
          (
            rsp,
            record a' {
              plog = if accepted then (PlogMng.clear_promised st pp.pinst pp.pentry s').1 else s';
            },
          ))
      else (let rsp = alloc_proposal_msg 0 in
          (
            record rsp {
              type = MsgType.accept_rsp;
              errcode = ret;
              proposal = record rsp.proposal {
                status = PaxosState.local_lag_behind;
                last_chosen_from = all_ones_16;
                last_chosen = max_chosen pp.pinst a';
              };
            },
            a',
          ))
