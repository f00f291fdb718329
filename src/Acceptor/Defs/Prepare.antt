-- ===== src/Acceptor/Defs/Prepare.antt =====
-- `handlePrepareReq`
use quarrel.Prelude.{ℕ, none, some, ltb, leb, if◌then◌else◌}
use quarrel.Prelude.Int.{ℤ, is_zero, eq}
use quarrel.Prelude.Words.{all_ones_16}
use quarrel.Ptype.{Proposal, PaxosMsg, alloc_proposal_msg, copy_bytes}
use quarrel.Ptype.ErrCode
use quarrel.Ptype.PaxosState
use quarrel.Ptype.MsgType
use quarrel.Plog.Entry.{Entry}
use quarrel.Plog.EntryMng.{Storage}
use quarrel.Plog.PlogMng
use quarrel.Plog.PlogMng.{PlogMng, on_mng, entry_mng}
use quarrel.Acceptor.Defs.State.{Acceptor, max_chosen, check_local_and_may_trigger_catchup}

-- The answer that `handlePrepareReq` gives: an error, the bytes copied, from where, the status.
pub record Answer : Type 0 where
  pub errcode : ℤ
  pub vsize : ℕ
  pub from_pp : Proposal
  pub status : ℕ

-- The tail of `handlePrepareReq`.
unfoldable pub prepare_rsp : Answer → ℕ → PaxosMsg
unfolding alloc_proposal_msg
prepare_rsp ans last_chosen = record (alloc_proposal_msg ans.vsize) {
  errcode = ans.errcode;
  type = MsgType.prepare_rsp;
  proposal = record (copy_bytes ans.vsize ans.from_pp) {
    status = ans.status;
    last_chosen = last_chosen;
    last_chosen_from = all_ones_16;
  };
}

module _ {D : Type 0} (st : Storage D) where
  -- The last branch of `handlePrepareReq`; a proposal with `pid` 0 is a read probe.
  unfoldable pub promise_new : Proposal → Acceptor D → Answer × Acceptor D
  promise_new pp a =
      let pp' = record pp { status = PaxosState.promised } in
      let (ret, plog) = PlogMng.set_promised st pp' a.plog in
      if ltb 0 pp.pid
      then (if is_zero ret
          then (
            record {
              errcode = ErrCode.ok;
              vsize = pp.size;
              from_pp = pp';
              status = PaxosState.promised;
            },
            record a { plog = plog },
          )
          else (
            record {
              errcode = ErrCode.write_plog_fail;
              vsize = 0;
              from_pp = pp';
              status = PaxosState.promised_failed;
            },
            record a { plog = plog },
          ))
      else (
        record {
          errcode = ErrCode.ok;
          vsize = pp.size;
          from_pp = pp;
          status = PaxosState.promised;
        },
        a,
      )

  -- The branches of `handlePrepareReq` on the entry that was found or created.
  unfoldable pub answer_prepare : Proposal → Entry → Acceptor D → Answer × Acceptor D
  unfolding promise_new
  answer_prepare pp ent a = elim ent.accepted [
    | some e ↦ (
      record { errcode = ErrCode.ok; vsize = e.size; from_pp = e; status = PaxosState.accepted },
      a,
    )
    | none ↦ elim ent.promised [
      | none ↦ promise_new pp a
      | some q ↦
          if leb pp.pid q.pid
          then (
            record {
              errcode = ErrCode.ok;
              vsize = q.size;
              from_pp = q;
              status = PaxosState.promised;
            },
            a,
          )
          else promise_new pp a
    ]
  ]

  unfoldable pub handle_prepare_req : Proposal → Acceptor D → PaxosMsg × Acceptor D
  unfolding answer_prepare
  handle_prepare_req pp a =
      let (ret, a') = check_local_and_may_trigger_catchup pp a in
      if is_zero ret
      then (let (ent, plog) =
            PlogMng.get_entry_and_create_if_not_exist st pp.pinst pp.pentry a'.plog in
          let (ans, a'') = answer_prepare pp ent (record a' { plog = plog }) in
          (prepare_rsp ans (max_chosen pp.pinst a''), a''))
      else (
        prepare_rsp
            (record {
              errcode = ret;
              vsize = 0;
              from_pp = pp;
              status =
                  if eq ret ErrCode.need_catchup
                  then PaxosState.local_lag_behind
                  else PaxosState.remote_lag_behind;
            })
            (max_chosen pp.pinst a'),
        a',
      )
