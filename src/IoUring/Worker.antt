-- ===== src/IoUring/Worker.antt =====
-- util/iouring.cc: the state of a worker, and `issueRequest`.
use quarrel.Prelude.{
  ℕ, ◌+◌, ◌-◌, ◌≡◌, List, [], ◌∷◌, ◌++◌, Option, none, some, Bool, true, false, ◌==◌, if◌then◌else◌,
  get_elem?, set,
}
use quarrel.Prelude.Int.{ℤ, pos}
use quarrel.Prelude.Words.{u32, u64}
use quarrel.Util.FixCountAllocator.{FixCountAllocator}
use quarrel.IoUring.{PendingReq}
use quarrel.IoUring.UringErr

-- The queue `LockFreeQueueV2`, which no file of the repository declares, with its two calls that do
-- not wait: bounded, in the order of the arrival.
pub record ReqQueue (Q : Type 0) : Type 0 where
  pub items : Q → List PendingReq
  pub enqueue : PendingReq → Q → Option Q
  pub dequeue : Q → Option (PendingReq × Q)
  pub items-enqueue :
      (x : PendingReq) (q q' : Q) → enqueue x q ≡ some q' → items q' ≡ items q ++ x ∷ []
  pub items-dequeue :
      (x : PendingReq) (q q' : Q) → dequeue q ≡ some (x, q') → items q ≡ x ∷ items q'

-- `user_data`: the address of the notifier's request, or of a context.
pub data UserData : Type 0 where
  notifier : UserData
  context : ℕ → UserData

-- Where the buffers of a request stand: in the context itself, or with the user.
pub data Iovec : Type 0 where
  own : ℕ → ℕ → Iovec
  given : ℕ → Iovec

-- What was prepared in a submission entry.
pub data Sqe : Type 0 where
  poll_add : Sqe
  readv : ℤ → Iovec → ℕ → ℕ → ℕ → Sqe
  writev : ℤ → Iovec → ℕ → ℕ → ℕ → Sqe

-- `WorkerInfo`, with the two flags that `pollLoop` keeps from turn to turn. `contexts` are the
-- contexts in use, by address, and `waiting_req` and `next` the pool that they come from with the
-- address of the next new one. `prepared` are the entries of the ring that the kernel has not taken,
-- `flying` those that it has taken and not completed. `called` are the calls of callbacks, the last
-- one first, and `signals` the value of the notifier's event.
pub record WorkerInfo (Q : Type 0) : Type 0 where
  pub req_queue : Q
  pub uncompleted : ℕ
  pub unsubmit : ℕ  -- uint32_t
  pub statistic : List ℕ
  pub wait_block : Bool
  pub rearm_notifier : Bool
  pub contexts : List (ℕ × PendingReq)
  pub waiting_req : FixCountAllocator ℕ
  pub next : ℕ
  pub prepared : List Sqe
  pub flying : List UserData
  pub called : List (PendingReq × ℤ)
  pub signals : ℕ

-- `Start` for one worker, once the ring was made: the notifier is submitted.
unfoldable pub new_worker : {Q : Type 0} → Q → FixCountAllocator ℕ → WorkerInfo Q
new_worker q pool = record {
  req_queue = q;
  uncompleted = 1;
  unsubmit = 0;
  statistic = 0 ∷ 0 ∷ 0 ∷ 0 ∷ 0 ∷ 0 ∷ 0 ∷ 0 ∷ [];
  wait_block = true;
  rearm_notifier = false;
  contexts = [];
  waiting_req = pool;
  next = 0;
  prepared = [];
  flying = notifier ∷ [];
  called = [];
  signals = 0;
}

module _ {Q : Type 0} where
  -- `wk->statistic_[type - 1] += n`
  unfoldable pub bump : ℕ → ℕ → WorkerInfo Q → WorkerInfo Q
  bump type n w = record w {
    statistic = elim (get_elem? w.statistic (type - 1)) [
      | none ↦ w.statistic
      | some x ↦ set w.statistic (type - 1) (u64 (x + n))
    ];
  }

  -- `done_(ret, ud_)`
  unfoldable pub notify : PendingReq → ℤ → WorkerInfo Q → WorkerInfo Q
  notify req ret w = record w { called = (req, ret) ∷ w.called }

  -- `issueRequest` at the worker of the request.
  unfoldable pub issue_request : ReqQueue Q → PendingReq → WorkerInfo Q → ℤ × WorkerInfo Q
  issue_request queue req w = elim (queue.enqueue req w.req_queue) [
    | none ↦ (UringErr.queue_full, w)
    | some q ↦ (
      pos 0,
      record w {
        req_queue = q;
        unsubmit = u32 (w.unsubmit + 1);
        signals = if w.unsubmit == 0 then w.signals + 1 else w.signals;
      },
    )
  ]
