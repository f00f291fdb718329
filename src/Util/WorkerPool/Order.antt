-- ===== src/Util/WorkerPool/Order.antt =====
-- Each worker takes the work of its queue in the order in which it was added.
use quarrel.Prelude.{
  ℕ, zero, suc, ◌+◌, ◌%◌, ◌^◌, ◌<◌, ◌≡◌, ◌⊎◌, inl, inr, refl, sym, ap, subst, List, [], ◌∷◌, ◌++◌,
  none, some, true, ◌==◌, get_elem?, set, length, arith,
}
use mathlib.Core.Option.{some-injective}
use quarrel.Prelude.Int.{pos, neg}
use native.Mathlib.Nat.{mod-lt}
use quarrel.Util.LockFreeQueue
use quarrel.Util.LockFreeQueue.{LockFreeQueue, rt_ok, rt_full, rt_empty}
use quarrel.Util.LockFreeQueue.Fifo.Cells.{Holds}
use quarrel.Util.LockFreeQueue.Fifo.{enqueue-Holds, dequeue-Holds}
use quarrel.Util.WaitGroup
use quarrel.Util.WorkerPool.{WorkerPool, WorkerData, add_work, take_work, announce}

module _ {T : Type 0} where
  -- The queue of each worker holds the work that the list has for it, and its counter is below 2 ^ 64.
  abbrev HoldsAll : List (List T) → List (WorkerData T) → Type 0
  HoldsAll [] [] = Unit {0}
  HoldsAll [] (w ∷ ws) = ⊥
  HoldsAll (xs ∷ works) [] = ⊥
  HoldsAll (xs ∷ works) (w ∷ ws) = Holds xs w.mq × HoldsAll works ws

  -- A started pool whose workers have this work to do.
  pub record HasWork (works : List (List T)) (p : WorkerPool T) : Type 0 where
    pub started : p.status ≡ 1
    pub queues : HoldsAll works p.workers

  -- The queue of a worker, and its work.
  record At (i : ℕ) (works : List (List T)) (ws : List (WorkerData T)) : Type 0 where
    worker : WorkerData T
    work : List T
    this : get_elem? ws i ≡ some worker
    its : get_elem? works i ≡ some work
    holds : Holds work worker.mq

  HoldsAll-At :
      (i : ℕ) (works : List (List T)) (ws : List (WorkerData T))
      → HoldsAll works ws
      → i < length ws
      → At i works ws
  HoldsAll-At i [] [] h lt = absurd (omega arith)
  HoldsAll-At i [] (w ∷ ws) h lt = absurd h
  HoldsAll-At i (xs ∷ works) [] h lt = absurd h
  HoldsAll-At zero (xs ∷ works) (w ∷ ws) h lt = record {
    worker = w;
    work = xs;
    this = refl;
    its = refl;
    holds = h.0;
  }
  HoldsAll-At (suc i) (xs ∷ works) (w ∷ ws) h lt =
      let a = HoldsAll-At i works ws h.1 (omega arith) in
      record { worker = a.worker; work = a.work; this = a.this; its = a.its; holds = a.holds }

  set-HoldsAll :
      (i : ℕ) (works : List (List T)) (ws : List (WorkerData T)) (xs : List T) (w : WorkerData T)
      → HoldsAll works ws
      → Holds xs w.mq
      → HoldsAll (set works i xs) (set ws i w)
  set-HoldsAll i [] [] xs w h q = h
  set-HoldsAll i [] (y ∷ ws) xs w h q = absurd h
  set-HoldsAll i (ys ∷ works) [] xs w h q = absurd h
  set-HoldsAll zero (ys ∷ works) (y ∷ ws) xs w h q = (q, h.1)
  set-HoldsAll (suc i) (ys ∷ works) (y ∷ ws) xs w h q = (h.0, set-HoldsAll i works ws xs w h.1 q)

  set_self :
      (i : ℕ) (ws : List (WorkerData T)) (w : WorkerData T)
      → get_elem? ws i ≡ some w
      → set ws i w ≡ ws
  set_self i [] w this = refl
  set_self zero (y ∷ ws) w this = ap (λ z. z ∷ ws) (sym (some-injective y w this))
  set_self (suc i) (y ∷ ws) w this = ap (λ zs. y ∷ zs) (set_self i ws w this)

  add_work_ok :
      (wid : ℕ) (v : T) (p : WorkerPool T) (w : WorkerData T) (mq : LockFreeQueue T)
      → p.status ≡ 1
      → get_elem? p.workers (wid % length p.workers) ≡ some w
      → LockFreeQueue.enqueue v w.mq ≡ some (rt_ok, mq)
      → add_work wid v p ≡ (
        some (pos 0),
        record p { workers = set p.workers (wid % length p.workers) (announce mq w) },
      )
  unfolding add_work
  add_work_ok wid v p w mq on this e =
      let test : (p.status == 1) ≡ true = ground arith in rw (add_work, test, this, e) refl

  add_work_full :
      (wid : ℕ) (v : T) (p : WorkerPool T) (w : WorkerData T)
      → p.status ≡ 1
      → get_elem? p.workers (wid % length p.workers) ≡ some w
      → LockFreeQueue.enqueue v w.mq ≡ some (rt_full, w.mq)
      → add_work wid v p ≡ (some (neg 2), p)
  unfolding add_work
  add_work_full wid v p w on this e =
      let test : (p.status == 1) ≡ true = ground arith in
      rw (add_work, test, this, e)
        (ap (λ (ws : List (WorkerData T)). (some (neg 2), record p { workers = ws }))
          (set_self (wid % length p.workers) p.workers w this))

  turn_with_work :
      (i : ℕ) (p : WorkerPool T) (w : WorkerData T) (x : T) (mq : LockFreeQueue T)
      → get_elem? p.workers i ≡ some w
      → LockFreeQueue.dequeue w.mq ≡ some (rt_ok, some x, mq)
      → take_work i p ≡ (some x, record p { workers = set p.workers i (record w { mq = mq }) })
  unfolding take_work
  turn_with_work i p w x mq this e = rw (take_work, this, e) refl

  turn_without_work :
      (i : ℕ) (p : WorkerPool T) (w : WorkerData T)
      → get_elem? p.workers i ≡ some w
      → LockFreeQueue.dequeue w.mq ≡ some (rt_empty, none, w.mq)
      → take_work i p ≡ (
        none,
        record p { workers = set p.workers i (record w { wg = (WaitGroup.try_wait w.wg).1 }) },
      )
  unfolding take_work
  turn_without_work i p w this e = rw (take_work, this, e) refl

  -- The work that the list has for the worker `i`.
  abbrev pub work_of : ℕ → List (List T) → List T
  work_of i works = elim (get_elem? works i) [ none ↦ [] | some xs ↦ xs ]

  -- The counter of the worker's queue stays below 2 ^ 64 in one more operation.
  abbrev pub HasRoom : ℕ → WorkerPool T → Type 0
  HasRoom i p = (w : WorkerData T) → get_elem? p.workers i ≡ some w → w.mq.head + 1 < 2 ^ 64

  -- In a started pool with at least one worker, while no other thread is at work and the counter of
  -- the queue stays below 2 ^ 64: `AddWork` returns 0, and the work of the worker that the id, modulo
  -- the number of the workers, names has the value behind it, and no other worker's work changes; or
  -- it returns -2 and changes nothing.
  pub add_work-HasWork :
      (wid : ℕ) (v : T) (works : List (List T)) (p : WorkerPool T)
      → HasWork works p
      → 0 < length p.workers
      → HasRoom (wid % length p.workers) p
      → (((add_work wid v p).0 ≡ some (pos 0))
          × HasWork
              (set works
                (wid % length p.workers)
                (work_of (wid % length p.workers) works ++ (v ∷ [])))
              (add_work wid v p).1)
        ⊎ (add_work wid v p ≡ (some (neg 2), p))
  unfolding announce
  add_work-HasWork wid v works p h some_ room =
      let i = wid % length p.workers in
      let a = HoldsAll-At i works p.workers h.queues (mod-lt wid some_) in
      elim (enqueue-Holds v a.work a.worker.mq a.holds (room a.worker a.this)) [
        | inr (_, e) ↦ inr (add_work_full wid v p a.worker h.started a.this e)
        | inl (_, mq, e, _, q) ↦
            let done = add_work_ok wid v p a.worker mq h.started a.this e in
            let its : work_of i works ≡ a.work =
              ap (λ o. elim o [ none ↦ [] | some xs ↦ xs ]) a.its in
            inl (
              rw (done, its)
                (
                  refl,
                  record {
                    started = h.started;
                    queues =
                        set-HoldsAll i works p.workers (a.work ++ (v ∷ [])) (announce mq a.worker)
                          h.queues q;
                  },
                ))
      ]

  -- What a turn of the worker `i` takes of its work, and what is left.
  abbrev pub Takes : ℕ → List (List T) → WorkerPool T → List T → Type 0
  Takes i works p [] = ((take_work i p).0 ≡ none) × HasWork (set works i []) (take_work i p).1
  Takes i works p (x ∷ xs) =
      ((take_work i p).0 ≡ some x) × HasWork (set works i xs) (take_work i p).1

  taken :
      (i : ℕ) (works : List (List T)) (p : WorkerPool T) (w : WorkerData T) (xs : List T)
      → HasWork works p
      → get_elem? p.workers i ≡ some w
      → Holds xs w.mq
      → w.mq.head < 2 ^ 64
      → Takes i works p xs
  taken i works p w [] h this q small =
      let done = turn_without_work i p w this (dequeue-Holds [] w.mq q small) in
      rw done (
        refl,
        record {
          started = h.started;
          queues =
              set-HoldsAll i works p.workers [] (record w { wg = (WaitGroup.try_wait w.wg).1 })
                h.queues q;
        },
      )
  taken i works p w (x ∷ xs) h this q small =
      let (mq, e, _, q') = dequeue-Holds (x ∷ xs) w.mq q small in
      let done = turn_with_work i p w x mq this e in
      rw done (
        refl,
        record {
          started = h.started;
          queues = set-HoldsAll i works p.workers xs (record w { mq = mq }) h.queues q';
        },
      )

  -- In a started pool, while no other thread is at work and the counter of the queue stays below
  -- 2 ^ 64: a turn of a worker calls the handler with the first value of its work and leaves the
  -- others, in their order, or calls no handler if there is no work; no other worker's work changes.
  pub take_work-HasWork :
      (i : ℕ) (works : List (List T)) (p : WorkerPool T)
      → HasWork works p
      → i < length p.workers
      → HasRoom i p
      → Takes i works p (work_of i works)
  take_work-HasWork i works p h lt room =
      let a = HoldsAll-At i works p.workers h.queues lt in
      let its : work_of i works ≡ a.work = ap (λ o. elim o [ none ↦ [] | some xs ↦ xs ]) a.its in
      subst (Takes i works p) (sym its)
        (taken i works p a.worker a.work h a.this a.holds (omega (arith, room a.worker a.this)))
