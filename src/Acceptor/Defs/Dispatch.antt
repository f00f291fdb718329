-- ===== src/Acceptor/Defs/Dispatch.antt =====
-- How a message reaches its handler.
use quarrel.Prelude.{ℕ, List, [], ◌∷◌, Option, none, some, ◌==◌, if◌then◌else◌}
use quarrel.Config.{Configure}
use quarrel.Ptype.{Proposal, PaxosMsg, alloc_proposal}
use quarrel.Ptype.MsgType
use quarrel.Plog.EntryMng.{Storage}
use quarrel.Plog.PlogMng
use quarrel.Plog.PlogMng.{PlogMng, on_mng, entry_mng}
use quarrel.Acceptor.Defs.State.{PaxosRequest, Acceptor}
use quarrel.Acceptor.Defs.Prepare.{handle_prepare_req}
use quarrel.Acceptor.Defs.Accept.{handle_accept_req}
use quarrel.Acceptor.Defs.Chosen.{handle_chosen_req}

module _ {D : Type 0} (st : Storage D) where
  -- The message that `doHandleMsg` answers an unknown type with: the header alone.
  unfoldable pub invalid_rsp : PaxosMsg → PaxosMsg
  invalid_rsp msg = record msg { size = 0; type = MsgType.invalid_req; proposal = alloc_proposal 0 }

  -- `doCatchupFromPeer` reads three counters and does nothing with them.
  unfoldable pub do_catchup_from_peer : Proposal → Acceptor D → Acceptor D
  do_catchup_from_peer pp a =
      let s = (PlogMng.get_max_chosen_entry pp.pinst a.plog).1 in
      let s' = (PlogMng.get_max_committed_entry pp.pinst s).1 in
      record a { plog = (PlogMng.get_global_max_chosen_entry pp.pinst s').1 }

  -- The handler of each type, with the type that it gives its answer.
  unfoldable pub dispatch : PaxosMsg → Acceptor D → Option PaxosMsg × Acceptor D
  dispatch msg a =
      let pp = msg.proposal in
      if msg.type == MsgType.prepare_req
      then (let (rsp, a') = handle_prepare_req st pp a in
          (some (record rsp { type = MsgType.prepare_rsp }), a'))
      else if msg.type == MsgType.accept_req
      then (let (rsp, a') = handle_accept_req st pp a in
          (some (record rsp { type = MsgType.accept_rsp }), a'))
      else if msg.type == MsgType.chosen_req
      then (let (rsp, a') = handle_chosen_req st pp a in
          (some (record rsp { type = MsgType.chosen_rsp }), a'))
      else if msg.type == MsgType.chore_catchup
      then (none, do_catchup_from_peer pp a)
      else (some (invalid_rsp msg), a)

  -- `doHandleMsg`: the callback that is called and its argument, if one is.
  unfoldable pub do_handle_msg :
      Configure → PaxosRequest → Acceptor D → Option (ℕ × PaxosMsg) × Acceptor D
  do_handle_msg cfg req a =
      let (rsp, a') = dispatch req.msg a in
      elim rsp [
        | none ↦ (none, a')
        | some m ↦ (
          some (
            req.cb,
            record m {
              from = cfg.local.id;
              version = req.msg.version;
              magic = req.msg.magic;
              reqid = req.msg.reqid;
            },
          ),
          a',
        )
      ]

  -- Requests one after the other, as one worker handles them.
  unfoldable pub run : Configure → List PaxosRequest → Acceptor D → Acceptor D
  run cfg [] a = a
  run cfg (req ∷ reqs) a = run cfg reqs (do_handle_msg cfg req a).1
