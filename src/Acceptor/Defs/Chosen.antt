-- ===== src/Acceptor/Defs/Chosen.antt =====
-- `handleChosenReq`
use quarrel.Prelude.{none, some, ◌||◌, not, ◌==◌, if◌then◌else◌}
use quarrel.Prelude.Int.{is_zero}
use quarrel.Prelude.Words.{all_ones_16}
use quarrel.Ptype.{Proposal, PaxosMsg, alloc_proposal_msg, copy_bytes}
use quarrel.Ptype.ErrCode
use quarrel.Ptype.PaxosState
use quarrel.Plog.Entry.{Entry}
use quarrel.Plog.EntryMng.{Storage}
use quarrel.Plog.PlogMng
use quarrel.Plog.PlogMng.{PlogMng, on_mng, entry_mng}
use quarrel.Acceptor.Defs.State.{Acceptor, write_status}

-- What `handleChosenReq` answers if nothing is wrong.
unfoldable pub chosen_rsp : Proposal → PaxosMsg
unfolding alloc_proposal_msg
chosen_rsp pp = record (alloc_proposal_msg 0) {
  proposal = record (copy_bytes 0 pp) { size = 0; status = PaxosState.chosen };
}

module _ {D : Type 0} (st : Storage D) where
  -- `handleChosenReq` from the test of the status of `existed_pp` on; `rsp` is the answer so far.
  unfoldable pub commit_chosen :
      Proposal → Entry → Proposal → PaxosMsg → PlogMng D → PaxosMsg × PlogMng D
  commit_chosen pp ent e rsp s =
      if e.status == PaxosState.chosen
      then (record rsp { proposal = record rsp.proposal { status = PaxosState.already_chosen } }, s)
      else (let s' = write_status pp.pinst pp.pentry ent e PaxosState.chosen s in
          let (err, s'') = PlogMng.set_chosen st pp.pinst pp.pentry s' in
          let rpp = record rsp.proposal {
            last_chosen_from = all_ones_16;
            last_chosen = (PlogMng.get_max_chosen_entry pp.pinst s'').0;
          } in
          if is_zero err then (record rsp { proposal = rpp }, s'') else (
            record rsp {
              errcode = ErrCode.write_plog_fail;
              proposal = record rpp { status = PaxosState.commit_failed };
            },
            write_status pp.pinst pp.pentry ent e PaxosState.accepted s'',
          ))

  unfoldable pub handle_chosen_req : Proposal → Acceptor D → PaxosMsg × Acceptor D
  unfolding commit_chosen
  handle_chosen_req pp a =
      let (ent, s) = PlogMng.get_entry_and_create_if_not_exist st pp.pinst pp.pentry a.plog in
      let rsp = chosen_rsp pp in
      let refused : PaxosMsg × Acceptor D = (
        record rsp {
          errcode = ErrCode.invalid_proposal_req;
          proposal = record rsp.proposal { status = PaxosState.invalid_proposal };
        },
        record a { plog = s },
      ) in
      elim ent.accepted [
        | none ↦ refused
        | some e ↦
            if not (pp.pid == e.pid) || not (pp.value_id == e.value_id)
            then refused
            else (let (rsp', s') = commit_chosen pp ent e rsp s in (rsp', record a { plog = s' }))
      ]
