-- ===== src/Acceptor/Defs/State.antt =====
-- The acceptor's state, its queue of requests, and the test whether it lags behind.
use quarrel.Prelude.{ℕ, ◌+◌, Option, none, some, ◌&&◌, not, ltb, leb, ◌==◌, if◌then◌else◌}
use quarrel.Prelude.Int.{ℤ, is_zero}
use quarrel.Prelude.Words.{u64, all_ones}
use quarrel.Config.{Configure}
use quarrel.Ptype.{Proposal, PaxosMsg, alloc_proposal_msg}
use quarrel.Ptype.ErrCode
use quarrel.Ptype.MsgType
use quarrel.Plog.Entry.{Entry}
use quarrel.Plog.EntryMng.{write_entry}
use quarrel.Plog.PlogMng
use quarrel.Plog.PlogMng.{PlogMng, on_mng, entry_mng}
use quarrel.Util.WorkerPool
use quarrel.Util.WorkerPool.{WorkerPool}

-- A callback is a number that names it; 0 is the one that does nothing.
pub record PaxosRequest : Type 0 where
  pub cb : ℕ
  pub msg : PaxosMsg

pub record Acceptor (D : Type 0) : Type 0 where
  pub plog : PlogMng D
  pub wpool : WorkerPool PaxosRequest

module _ {D : Type 0} where
  -- No result is the failed assertion on the number of the workers. The other assertion, that the log
  -- was set, holds: the log is part of the state.
  unfoldable pub start_worker : Configure → Acceptor D → Option (Acceptor D)
  start_worker cfg a =
      if ltb cfg.acceptor_worker_count cfg.plog_inst_num
      then some (record a {
        wpool = WorkerPool.start_worker cfg.acceptor_worker_count cfg.worker_msg_queue_sz a.wpool;
      })
      else none

  unfoldable pub stop_worker : Acceptor D → Acceptor D
  stop_worker a = record a { wpool = WorkerPool.stop_worker a.wpool }

  -- No result is a call that waits for ever.
  unfoldable pub add_msg : PaxosMsg → ℕ → Acceptor D → Option ℤ × Acceptor D
  add_msg msg cb a =
      let (ret, wpool) =
        WorkerPool.add_work msg.proposal.pinst (record { cb = cb; msg = msg }) a.wpool in
      let a' = record a { wpool = wpool } in
      elim ret [
        | none ↦ (none, a')
        | some r ↦ (some (if is_zero r then ErrCode.ok else ErrCode.acceptor_queue_full), a')
      ]

  unfoldable pub trigger_local_catchup : ℕ → ℕ → Acceptor D → Acceptor D
  unfolding add_msg
  trigger_local_catchup pinst target_entry a =
      let req = alloc_proposal_msg 0 in
      let pp = record req.proposal { pinst = pinst; pentry = target_entry } in
      (add_msg (record req { type = MsgType.chore_catchup; proposal = pp }) 0 a).1

  unfoldable pub max_chosen : ℕ → Acceptor D → ℕ
  max_chosen pinst a = (PlogMng.get_max_chosen_entry pinst a.plog).0

  unfoldable pub check_local_and_may_trigger_catchup : Proposal → Acceptor D → ℤ × Acceptor D
  unfolding trigger_local_catchup max_chosen
  check_local_and_may_trigger_catchup pp a =
      let local = max_chosen pp.pinst a in
      if not (local == all_ones) && leb pp.pentry local
      then (ErrCode.remote_need_catchup, a)
      else if ltb local pp.last_chosen
      then (
        ErrCode.ok,
        trigger_local_catchup pp.pinst (u64 (local + 1)) (record a {
          plog = PlogMng.set_global_max_chosen_entry pp.pinst pp.last_chosen a.plog;
        }),
      )
      else (ErrCode.ok, a)

  -- `existed_pp->status_ = status`, through the pointer to the accepted proposal of a cached entry.
  unfoldable pub write_status : ℕ → ℕ → Entry → Proposal → ℕ → PlogMng D → PlogMng D
  write_status pinst entry ent e status s =
      (on_mng pinst
        (λ m.
          (tt, write_entry entry (record ent { accepted = some (record e { status = status }) }) m))
        s).1
