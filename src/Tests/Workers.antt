-- ===== src/Tests/Workers.antt =====
-- The worker pool at work.
use quarrel.Prelude.{ℕ, ◌%◌, ◌≡◌, ◌⊎◌, refl, ap, List, [], ◌∷◌, ◌++◌, some, set, length, arith}
use mathlib.Core.Option.{some-injective}
use quarrel.Prelude.Int.{pos, neg}
use quarrel.Util.LockFreeQueue
use quarrel.Util.LockFreeQueue.Fifo.Cells.{filled, filled-Holds}
use quarrel.Util.LockFreeQueue.Fifo.{init-Holds}
use quarrel.Util.WaitGroup
use quarrel.Util.WorkerPool.{WorkerPool, WorkerData, add_work}
use quarrel.Util.WorkerPool.Order.{
  HasWork, HasRoom, work_of, Takes, add_work-HasWork, take_work-HasWork,
}

abbrev worker : WorkerData ℕ
worker = record {
  wg = WaitGroup.init 1;
  mq = filled 4 (LockFreeQueue.init 2 LockFreeQueue.blank);
  pending = 1;
}

abbrev pool : WorkerPool ℕ
pool = record { status = 1; workers = worker ∷ worker ∷ [] }

abbrev works : List (List ℕ)
works = (4 ∷ []) ∷ (4 ∷ []) ∷ []

pool-HasWork : HasWork works pool
unfolding LockFreeQueue.init LockFreeQueue.blank
pool-HasWork =
    let held =
      filled-Holds 4 [] (LockFreeQueue.init 2 LockFreeQueue.blank) (init-Holds 2 (omega arith))
        (omega arith) (omega arith) in
    record { started = refl; queues = (held, (held, tt)) }

pool-HasRoom : HasRoom 1 pool
unfolding LockFreeQueue.init LockFreeQueue.blank
pool-HasRoom w e = omega (arith, ap (λ (x : WorkerData ℕ). x.mq.head) (some-injective worker w e))

add_work-HasWork_example :
    (((add_work 5 9 pool).0 ≡ some (pos 0))
      × HasWork
          (set works
            (5 % length pool.workers)
            (work_of (5 % length pool.workers) works ++ (9 ∷ [])))
          (add_work 5 9 pool).1)
    ⊎ (add_work 5 9 pool ≡ (some (neg 2), pool))
add_work-HasWork_example = add_work-HasWork 5 9 works pool pool-HasWork (omega arith) pool-HasRoom

take_work-HasWork_example : Takes 1 works pool (work_of 1 works)
take_work-HasWork_example = take_work-HasWork 1 works pool pool-HasWork (omega arith) pool-HasRoom
