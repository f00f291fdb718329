-- ===== src/IoUring/Service.antt =====
-- util/iouring.cc: the workers together, from `Start` to `Stop`. The threads are the turns of the
-- workers.
use quarrel.Prelude.{
  ℕ, zero, suc, List, [], ◌∷◌, Option, none, some, Bool, true, false, ◌&&◌, ◌||◌, ◌==◌,
  if◌then◌else◌, length, get_elem?, set, map,
}
use quarrel.Prelude.Int.{ℤ, pos, neg, is_neg, is_zero, eq}
use quarrel.Util.FixCountAllocator.{FixCountAllocator, init}
use quarrel.IoUring.{
  UringOptions, ReqType, make_request, magnitude, not_positive, sanitize_options,
  get_worker_idx_by_fd,
}
use quarrel.IoUring.UringErr
use quarrel.IoUring.Sync.{do_io_op_sync}
use quarrel.IoUring.Worker.{ReqQueue, WorkerInfo, new_worker, issue_request}

-- An element of `workers_`: null, made with no thread, running, or joined by `Stop`. The shard of
-- `waiting_req_` outlives the worker, so one with no thread keeps it, with the next address.
pub data Slot (Q : Type 0) : Type 0 where
  null : Slot Q
  broken : FixCountAllocator ℕ → ℕ → Slot Q
  running : WorkerInfo Q → Slot Q
  joined : WorkerInfo Q → Slot Q

-- `stop` has no value before the first `Start`; `reporting` is a reporter thread that runs.
pub record IoUring (Q : Type 0) : Type 0 where
  pub opt : UringOptions
  pub stop : Bool
  pub reporting : Bool
  pub workers : List (Slot Q)
  pub waiting_req : FixCountAllocator ℕ

-- `reportLoop` for the counters of the worker `i` from the number `j` on: the calls of the reporter,
-- which says whether to reset the counter, and the counters.
unfoldable pub report_counters : (ℕ → ℕ → ℕ → Bool) → ℕ → ℕ → List ℕ → List (ℕ × ℕ × ℕ) × List ℕ
report_counters reporter i j [] = ([], [])
report_counters reporter i j (x ∷ xs) =
    let (calls, ys) = report_counters reporter i (suc j) xs in
    if x == 0
    then (calls, x ∷ ys)
    else ((i, suc j, x) ∷ calls, (if reporter i (suc j) x then 0 else x) ∷ ys)

module _ {Q : Type 0} where
  -- The constructor; `stop` is the value that `stop_` happens to have.
  unfoldable pub io_uring : Bool → UringOptions → IoUring Q
  unfolding sanitize_options init
  io_uring stop options =
      let opt = sanitize_options options in
      record {
        opt = opt;
        stop = stop;
        reporting = false;
        workers = [];
        waiting_req = init (magnitude opt.instances) (magnitude opt.iodepth);
      }

  -- `workers_.resize(n)`. It only grows: the number of instances does not change.
  unfoldable pub resize : ℕ → List (Slot Q) → List (Slot Q)
  resize zero slots = []
  resize (suc n) [] = null ∷ resize n []
  resize (suc n) (slot ∷ slots) = slot ∷ resize n slots

  -- The contexts that the shard has for the next worker, and the next address.
  abbrev pub contexts_of : FixCountAllocator ℕ → Slot Q → FixCountAllocator ℕ × ℕ
  contexts_of pool null = (pool, 0)
  contexts_of pool (broken kept next) = (kept, next)
  contexts_of pool (running w) = (w.waiting_req, w.next)
  contexts_of pool (joined w) = (w.waiting_req, w.next)

  abbrev pub is_running : Slot Q → Bool
  is_running null = false
  is_running (broken kept next) = false
  is_running (running w) = true
  is_running (joined w) = false

  -- The loop of `Start` over the elements of `workers_` that are left, where `answers` are what
  -- `eventfd` and `io_uring_queue_init` return for each. No result is the end of the process: a new
  -- worker in the place of one that runs destroys its thread, which was not joined.
  unfoldable pub start_workers :
      (ℕ → Q) → ℕ → FixCountAllocator ℕ → List (Slot Q) → List (ℤ × ℤ) → Option (ℤ × List (Slot Q))
  unfolding new_worker
  start_workers queue depth pool [] answers = some (pos 0, [])
  start_workers queue depth pool (slot ∷ slots) [] =
      some (UringErr.register_efd_failed, slot ∷ slots)
  start_workers queue depth pool (slot ∷ slots) ((efd, ret) ∷ answers) =
      let rest = start_workers queue depth pool slots answers in
      let (kept, next) = contexts_of pool slot in
      if is_neg efd
      then some (UringErr.register_efd_failed, slot ∷ slots)
      else if is_running slot
      then none
      else if is_zero ret
      then elim rest [
        | none ↦ none
        | some (code, slots') ↦
            some (code, running (record (new_worker (queue depth) kept) { next = next }) ∷ slots')
      ]
      else some
          (if eq ret (neg 12) then UringErr.lock_mem_not_enough else ret, broken kept next ∷ slots)

  -- `Start`. No result is the end of the process: a worker's thread is destroyed, or that of the
  -- reporter, by the assignment of the new one, while it was not joined.
  unfoldable pub start : (ℕ → Q) → List (ℤ × ℤ) → IoUring Q → Option (ℤ × IoUring Q)
  unfolding resize start_workers
  start queue answers r =
      if not_positive r.opt.instances
      then some (UringErr.init_failed, r)
      else elim (start_workers queue (magnitude r.opt.iodepth) r.waiting_req
          (resize (magnitude r.opt.instances) r.workers) answers) [
            | none ↦ none
            | some (code, slots) ↦
                if is_zero code && r.reporting
                then none
                else some (
                  code,
                  record r {
                    stop = false;
                    reporting = r.reporting || is_zero code;
                    workers = slots;
                  },
                )
          ]

  abbrev pub all_running : List (Slot Q) → Bool
  all_running [] = true
  all_running (slot ∷ slots) = is_running slot && all_running slots

  -- The worker's thread has ended.
  abbrev pub join : Slot Q → Slot Q
  join null = null
  join (broken kept next) = broken kept next
  join (running w) = joined w
  join (joined w) = joined w

  -- `Stop`; no result is a null pointer that is followed, or a thread that is joined and was not
  -- started or was joined before.
  unfoldable pub stop : IoUring Q → Option (ℤ × IoUring Q)
  stop r =
      if r.stop
      then some (pos 0, r)
      else if all_running r.workers && r.reporting
      then some (pos 0, record r { stop = true; reporting = false; workers = map join r.workers })
      else none

  -- `Add...ReqAsync`: the request is built and issued; `rand` is what `rand()` returns. A worker that
  -- was joined still takes it, and no thread handles it. No result is a worker that is not there, or
  -- whose queue was not initialised.
  unfoldable pub add_req_async :
      ReqQueue Q → ReqType → ℕ → ℤ → ℕ → ℕ → ℕ → ℕ → IoUring Q → Option (ℤ × IoUring Q)
  unfolding make_request get_worker_idx_by_fd issue_request
  add_req_async queue type rand fd offset buff size done r =
      let i = get_worker_idx_by_fd r.opt (length r.workers) rand fd in
      elim (get_elem? r.workers i) [
        | none ↦ none
        | some slot ↦ elim slot [
          | null ↦ none
          | broken kept next ↦ none
          | running w ↦
              let (code, w') = issue_request queue (make_request type fd offset buff size done) w in
              some (code, record r { workers = set r.workers i (running w') })
          | joined w ↦
              let (code, w') = issue_request queue (make_request type fd offset buff size done) w in
              some (code, record r { workers = set r.workers i (joined w') })
        ]
      ]

  -- `Add...ReqSync`; the callback is known by its event. No service is a worker that is not there.
  unfoldable pub add_req_sync :
      {P : Type 0}
      → (ℤ → P → ℤ × P)
      → (ℤ → ℤ → P → P)
      → ReqQueue Q
      → ReqType
      → ℕ
      → ℤ
      → ℕ
      → ℕ
      → ℕ
      → (ℤ → ℕ)
      → ℤ
      → ℤ
      → P
      → IoUring Q
      → Option ℤ × (P × Option (IoUring Q))
  unfolding do_io_op_sync add_req_async
  add_req_sync alloc release queue type rand fd offset buff size done polled answer pool r =
      do_io_op_sync alloc release fd
        (λ notifier s. elim s [
          | none ↦ (pos 0, none)
          | some x ↦ elim (add_req_async queue type rand fd offset buff size (done notifier) x) [
            | none ↦ (pos 0, none)
            | some (code, x') ↦ (code, some x')
          ]
        ])
        polled answer pool (some r)
