-- ===== src/Paxos/Restart.antt =====
-- Starting and stopping a server.
use quarrel.Prelude.{ℕ, ◌≡◌, List, [], ◌∷◌, Option, none, some, true, false}
use quarrel.Ptype.{PaxosMsg}
use quarrel.Ptype.ErrCode
use quarrel.Util.WorkerPool
use quarrel.Util.WorkerPool.{WorkerPool}
use quarrel.Acceptor
use quarrel.Acceptor.{Acceptor}
use quarrel.Paxos.{Paxos, start, stop}

-- What is done to a server: `Start`, `Stop`, and a message for its acceptor.
pub data Call : Type 0 where
  starting : Call
  stopping : Call
  message : PaxosMsg → ℕ → Call

-- What becomes of a server: it never ran, it serves, or its time is over.
pub data Phase : Type 0 where
  fresh : Phase
  serving : Phase
  over : Phase

abbrev pub next_phase : Call → Phase → Phase
next_phase starting fresh = serving
next_phase starting serving = serving
next_phase starting over = over
next_phase stopping fresh = fresh
next_phase stopping serving = over
next_phase stopping over = over
next_phase (message msg cb) ph = ph

abbrev pub phase_after : List Call → Phase → Phase
phase_after [] ph = ph
phase_after (c ∷ calls) ph = phase_after calls (next_phase c ph)

module _ {D : Type 0} where
  -- The acceptor takes no message and does not change.
  abbrev pub Refuses : Acceptor D → Type 0
  Refuses a =
      (msg : PaxosMsg) (cb : ℕ) → Acceptor.add_msg msg cb a ≡ (some ErrCode.acceptor_queue_full, a)

module _ {D : Type 0} {C : Type 0} where
  -- What a call leaves; no result is a failed assertion. A message that waits for a worker for ever
  -- leaves the state in which it waits.
  unfoldable pub call : Call → Paxos D C → Option (Paxos D C)
  unfolding start stop
  call starting p = elim (start p) [ none ↦ none | some (code, q) ↦ some q ]
  call stopping p = some (stop p).1
  call (message msg cb) p = some (record p { acceptor = (Acceptor.add_msg msg cb p.acceptor).1 })

  unfoldable pub run_calls : List Call → Paxos D C → Option (Paxos D C)
  unfolding call
  run_calls [] p = some p
  run_calls (c ∷ calls) p = elim (call c p) [ none ↦ none | some q ↦ run_calls calls q ]

  -- The state of a server in each phase.
  abbrev pub IsIn : Phase → Paxos D C → Type 0
  IsIn fresh p = (p.acceptor.wpool.status ≡ 0) × (p.started ≡ false) × Refuses p.acceptor
  IsIn serving p = (p.acceptor.wpool.status ≡ 1) × (p.started ≡ true)
  IsIn over p = (p.acceptor.wpool.status ≡ 2) × (p.started ≡ true) × Refuses p.acceptor

  -- A server after a call.
  abbrev Follows : Paxos D C → Phase → Paxos D C → Type 0
  Follows p ph q = (q.config ≡ p.config) × IsIn ph q
