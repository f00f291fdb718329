-- ===== src/Tests/Rings.antt =====
-- A worker of the ring, with a queue of two requests.
use quarrel.Prelude.{
  ◌≡◌, refl, List, [], ◌∷◌, ◌++◌, Option, none, some, true, false, ltb, arith, if◌then◌else◌,
  length,
}
use quarrel.Prelude.Int.{ℤ, pos, neg, is_zero}
use quarrel.Util.FixCountAllocator.{
  init, init_vector, alloc_by_shard, release_by_shard, dequeue, enqueue, size,
}
use quarrel.IoUring.{
  PendingReq, UringOptions, read, wriet_batch, make_request, sanitize_options, magnitude,
}
use quarrel.IoUring.Worker.{
  ReqQueue, notifier, context, WorkerInfo, new_worker, bump, notify, issue_request,
}
use quarrel.IoUring.Kernel.{Kernel, failed, cqe, prepare, release_context, finish, complete}
use quarrel.IoUring.Poll.{
  rearm, put_request, fill_step, fill, fail_all, submitted, submit_batch, end_turn, submit_phase,
  poll_turn,
}
use quarrel.IoUring.Service.{IoUring, io_uring, resize, start_workers, start, all_running, stop}
use quarrel.IoUring.Laws.Restart.{IsIdle, stopped, start_decides_stop}
use quarrel.IoUring.Laws.Submit.{TakesAll, Turned, poll_turn-IsSound}
use quarrel.IoUring.Laws.Runs.{Reach, begin, issue, turn, Serves, Reach-Serves}

-- At most two requests wait.
abbrev push : PendingReq → List PendingReq → Option (List PendingReq)
push x q = if ltb (length q) 2 then some (q ++ x ∷ []) else none

abbrev pop : List PendingReq → Option (PendingReq × List PendingReq)
pop [] = none
pop (x ∷ q) = some (x, q)

push_items : (x : PendingReq) (q q' : List PendingReq) → push x q ≡ some q' → q' ≡ q ++ x ∷ []
push_items x q q' h = ground arith

pop_items : (x : PendingReq) (q q' : List PendingReq) → pop q ≡ some (x, q') → q ≡ x ∷ q'
pop_items x [] q' h = ground arith
pop_items x (y ∷ q) q' h = ground arith

abbrev two_slots : ReqQueue (List PendingReq)
two_slots = record {
  items = λ q. q;
  enqueue = push;
  dequeue = pop;
  items-enqueue = push_items;
  items-dequeue = pop_items;
}

abbrev options : UringOptions
options = record {
  iodepth = pos 1;
  instances = pos 1;
  max_batch_num = pos 1;
  dispatch_type = pos 1;
  enable_sq_thread = false;
  enable_io_dev_poll = false;
  enable_no_drop = false;
}

abbrev started : WorkerInfo (List PendingReq)
started = new_worker [] (init 1 2)

abbrev reading : PendingReq
reading = make_request read (pos 3) 0 100 4096 1

abbrev writing : PendingReq
writing = make_request wriet_batch (pos 3) 8 200 2 2

-- The notifier's event is completed, then the first request.
abbrev woken : Kernel
woken = record { polled = cqe notifier (pos 1); vacant = 4; submit = λ n. pos n }

abbrev served : Kernel
served = record { polled = cqe (context 0) (pos 4096); vacant = 4; submit = λ n. pos n }

-- The submission fails.
abbrev refused : Kernel
refused = record { polled = cqe notifier (pos 1); vacant = 4; submit = λ n. neg 5 }

abbrev issued : PendingReq → WorkerInfo (List PendingReq) → WorkerInfo (List PendingReq)
issued req w = (issue_request two_slots req w).1

abbrev after : Kernel → WorkerInfo (List PendingReq) → WorkerInfo (List PendingReq)
after kernel w = elim (poll_turn two_slots (sanitize_options options) 0 kernel w) [
  | none ↦ w
  | some w' ↦ w'
]

abbrev asked : WorkerInfo (List PendingReq)
asked = issued writing (issued reading started)

woken-TakesAll : TakesAll woken
woken-TakesAll n h = refl

asked_Reach : Reach two_slots options 0 (writing ∷ reading ∷ []) asked
unfolding new_worker issue_request make_request sanitize_options poll_turn complete finish notify
    release_context release_by_shard enqueue size submit_phase rearm fill fill_step put_request
    prepare alloc_by_shard dequeue submit_batch submitted fail_all end_turn bump init init_vector
asked_Reach = issue writing _ (issue reading _ (begin [] (init 1 2) refl) refl) refl

turned_Reach : Reach two_slots options 0 (writing ∷ reading ∷ []) (after woken asked)
unfolding new_worker issue_request make_request sanitize_options poll_turn complete finish notify
    release_context release_by_shard enqueue size submit_phase rearm fill fill_step put_request
    prepare alloc_by_shard dequeue submit_batch submitted fail_all end_turn bump init init_vector
turned_Reach = turn woken asked_Reach (omega arith) woken-TakesAll refl

Reach-Serves_example : Serves two_slots options 0 (writing ∷ reading ∷ []) (after woken asked)
Reach-Serves_example = Reach-Serves two_slots options 0 turned_Reach

poll_turn-IsSound_example :
    Turned two_slots
      (sanitize_options options)
      0
      asked
      (poll_turn two_slots (sanitize_options options) 0 woken asked)
unfolding new_worker issue_request make_request sanitize_options poll_turn complete finish notify
    release_context release_by_shard enqueue size submit_phase rearm fill fill_step put_request
    prepare alloc_by_shard dequeue submit_batch submitted fail_all end_turn bump init init_vector
poll_turn-IsSound_example =
    poll_turn-IsSound two_slots (sanitize_options options) 0 woken asked
      (Reach-Serves two_slots options 0 asked_Reach).0 (omega arith) (omega arith) woken-TakesAll

-- The check against `iodepth` does not count the batch in the making: 3 entries are in flight where
-- `iodepth` is 2.
exceeds_iodepth :
    (magnitude (sanitize_options options).iodepth ≡ 2)
    × ((after served (issued reading (after woken asked))).uncompleted ≡ 3)
unfolding new_worker issue_request make_request sanitize_options poll_turn complete finish notify
    release_context release_by_shard enqueue size submit_phase rearm fill fill_step put_request
    prepare alloc_by_shard dequeue submit_batch submitted fail_all end_turn bump init init_vector
exceeds_iodepth = (refl, refl)

-- After a submission that failed, the entries stay in the ring with contexts that were released, and
-- the next turn with a request fails at the assertion that just its own entries were submitted.
stale_entries :
    (length (after refused asked).prepared ≡ 2)
    × ((after refused asked).contexts ≡ [])
    × (poll_turn two_slots
          (sanitize_options options)
          0
          (record woken { polled = failed })
          (record (after refused asked) { wait_block = false })
        ≡ none)
unfolding new_worker issue_request make_request sanitize_options poll_turn complete finish notify
    release_context release_by_shard enqueue size submit_phase rearm fill fill_step put_request
    prepare alloc_by_shard dequeue submit_batch submitted fail_all end_turn bump init init_vector
stale_entries = (refl, refl, refl)

abbrev two_instances : IoUring (List PendingReq)
two_instances = io_uring false (record options { instances = pos 2 })

-- The ring of the second worker cannot be made.
abbrev short_of_memory : List (ℤ × ℤ)
short_of_memory = (pos 5, pos 0) ∷ (pos 6, neg 12) ∷ []

start_decides_stop_example :
    (code : ℤ) × (r : IoUring (List PendingReq)) × (start (λ n. []) short_of_memory two_instances
      ≡ some (code, r))
    × (all_running r.workers ≡ is_zero code)
    × (stop r ≡ (if is_zero code then some (pos 0, stopped r) else none))
    × IsIdle (stopped r)
unfolding io_uring sanitize_options
start_decides_stop_example =
    start_decides_stop (λ n. []) short_of_memory two_instances (omega arith)
      (record { quiet = refl; none_runs = tt })

-- The first `Start` fails at the second worker; the next one destroys the first worker, which runs.
abbrev retried : Option (ℤ × IoUring (List PendingReq))
retried = elim (start (λ n. []) short_of_memory two_instances) [
  | none ↦ none
  | some (code, r) ↦ if is_zero code then none else start (λ n. []) ((pos 7, pos 0) ∷ []) r
]

retry_ends : retried ≡ none
unfolding start start_workers resize io_uring sanitize_options new_worker
retry_ends = refl

-- `Start`, `Stop`, a `Start` that gets no descriptor, and the destructor: the worker is joined twice.
abbrev restarted : Option (ℤ × IoUring (List PendingReq))
restarted = elim (start (λ n. []) ((pos 5, pos 0) ∷ (pos 6, pos 0) ∷ []) two_instances) [
  | none ↦ none
  | some (code, r) ↦ elim (stop r) [ none ↦ none | some (code', r') ↦ start (λ n. []) [] r' ]
]

joined_twice :
    elim restarted [
      | none ↦ false
      | some (code, r) ↦ elim (stop r) [ none ↦ true | some x ↦ false ]
    ]
    ≡ true
unfolding start stop start_workers resize io_uring sanitize_options new_worker
joined_twice = refl
