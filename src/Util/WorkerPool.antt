-- ===== src/Util/WorkerPool.antt =====
-- util/worker_pool.hpp: the queues of the workers, and what one turn of a worker does to them.
pub mod Order
use quarrel.Prelude.{
  ℕ, ◌+◌, ◌%◌, List, [], Option, none, some, ◌==◌, if◌then◌else◌, get_elem?, set, replicate, length,
}
use quarrel.Prelude.Int.{ℤ, pos, neg}
use quarrel.Prelude.Words.{u64, sub_u64}
use quarrel.Util.LockFreeQueue
use quarrel.Util.LockFreeQueue.{LockFreeQueue, rt_ok, rt_empty}
use quarrel.Util.WaitGroup
use quarrel.Util.WaitGroup.{WaitGroup}

pub record WorkerData (T : Type 0) : Type 0 where
  pub wg : WaitGroup
  pub mq : LockFreeQueue T
  pub pending : ℕ  -- uint64_t

-- `status_`: 0 new, 1 started, 2 stopped.
pub record WorkerPool (T : Type 0) : Type 0 where
  pub status : ℕ
  pub workers : List (WorkerData T)

module _ {T : Type 0} where
  unfoldable pub init : WorkerPool T
  init = record { status = 0; workers = [] }

  unfoldable pub fresh_worker : ℕ → WorkerData T
  fresh_worker queue_sz = record {
    wg = WaitGroup.reset 1 (WaitGroup.init 0);
    mq = LockFreeQueue.init queue_sz LockFreeQueue.blank;
    pending = 0;
  }

  unfoldable pub start_worker : ℕ → ℕ → WorkerPool T → WorkerPool T
  unfolding fresh_worker
  start_worker worker_count queue_sz p =
      if p.status == 1
      then p
      else record { status = 1; workers = replicate worker_count (fresh_worker queue_sz) }

  -- The threads end at their next test of `status_`.
  unfoldable pub stop_worker : WorkerPool T → WorkerPool T
  stop_worker p = if p.status == 1 then record p { status = 2 } else p

  -- `AddWork` once the value is in the queue `mq`.
  unfoldable pub announce : LockFreeQueue T → WorkerData T → WorkerData T
  announce mq w = record {
    mq = mq;
    pending = u64 (w.pending + 1);
    wg = if w.pending == 0 then (WaitGroup.notify w.wg).1 else w.wg;
  }

  -- No result is a call that waits for ever. With no worker, C++ divides by zero.
  unfoldable pub add_work : ℕ → T → WorkerPool T → Option ℤ × WorkerPool T
  unfolding announce
  add_work wid datum p =
      let at = wid % length p.workers in
      if p.status == 1
      then elim (get_elem? p.workers at) [
        | none ↦ (none, p)
        | some w ↦ elim (LockFreeQueue.enqueue datum w.mq) [
          | none ↦ (none, p)
          | some (code, mq) ↦ elim code [
            | rt_ok ↦ (some (pos 0), record p { workers = set p.workers at (announce mq w) })
            | _ ↦ (some (neg 2), record p { workers = set p.workers at (record w { mq = mq }) })
          ]
        ]
      ]
      else (some (neg 1), p)

  -- One turn of `workerProc`: the request that the handler is called with, if there is one. The
  -- pending count falls after the handler has returned.
  unfoldable pub take_work : ℕ → WorkerPool T → Option T × WorkerPool T
  take_work wid p = elim (get_elem? p.workers wid) [
    | none ↦ (none, p)
    | some w ↦ elim (LockFreeQueue.dequeue w.mq) [
      | none ↦ (none, p)
      | some (code, datum, mq) ↦ elim code [
        | rt_empty ↦ (
          none,
          record p {
            workers = set p.workers wid (record w { mq = mq; wg = (WaitGroup.try_wait w.wg).1 });
          },
        )
        | _ ↦ (datum, record p { workers = set p.workers wid (record w { mq = mq }) })
      ]
    ]
  ]

  unfoldable pub finish_work : ℕ → WorkerPool T → WorkerPool T
  finish_work wid p = elim (get_elem? p.workers wid) [
    | none ↦ p
    | some w ↦ record p { workers = set p.workers wid (record w { pending = sub_u64 w.pending 1 }) }
  ]
