-- ===== src/Paxos.antt =====
-- core/paxos.h and core/paxos.cpp: one server, with its two roles.
pub mod Restart
use quarrel.Prelude.{ℕ, List, Option, none, some, Bool, true, false, if◌then◌else◌}
use quarrel.Prelude.Int.{ℤ}
use quarrel.Config.{Configure}
use quarrel.Ptype.ErrCode
use quarrel.Conn.Manager.{ConnMng}
use quarrel.PaxosGroup.{PaxosGroup, create_group}
use quarrel.Plog.PlogMng
use quarrel.Plog.PlogMng.{PlogMng}
use quarrel.Util.WorkerPool
use quarrel.Acceptor
use quarrel.Acceptor.{Acceptor}
use quarrel.Proposer.State.{Outcome}
use quarrel.Proposer.Create.{new_proposer}
use quarrel.Proposer.Route
use quarrel.Proposer.Route.{Proposer}

-- `C` is a connection.
pub record Paxos (D : Type 0) (C : Type 0) : Type 0 where
  pub started : Bool
  pub config : Configure
  pub conn_mng : ConnMng C
  pub pg_mapper : PaxosGroup
  pub acceptor : Acceptor D
  pub proposer : Proposer

module _ {D : Type 0} {C : Type 0} where
  -- `Start`; no result is a failed assertion of `Acceptor::StartWorker`.
  unfoldable pub start : Paxos D C → Option (ℤ × Paxos D C)
  start p =
      if p.started then some (ErrCode.ok, p) else elim (Acceptor.start_worker p.config p.acceptor) [
        | none ↦ none
        | some a ↦ some (ErrCode.ok, record p { started = true; acceptor = a })
      ]

  -- `Stop`; `started_` stays as it is.
  unfoldable pub stop : Paxos D C → ℤ × Paxos D C
  stop p =
      if p.started
      then (ErrCode.ok, record p { acceptor = Acceptor.stop_worker p.acceptor })
      else (ErrCode.ok, p)

  -- `ProposeAsync` forwards to the proposer.
  unfoldable pub propose : ℕ → List ℕ → ℕ → Paxos D C → Option (Outcome × Paxos D C)
  propose opaque value pinst p = elim (Route.propose p.config opaque value pinst p.proposer) [
    | none ↦ none
    | some (o, q) ↦ some (o, record p { proposer = q })
  ]
