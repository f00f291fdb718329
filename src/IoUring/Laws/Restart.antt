-- ===== src/IoUring/Laws/Restart.antt =====
-- The starts and the stops of the service, and what a failed start leaves to the destructor.
use quarrel.Prelude.{
  ℕ, zero, suc, ◌<◌, ◌≡◌, inl, inr, refl, List, [], ◌∷◌, map, none, some, true, false, ◌||◌, arith,
  if◌then◌else◌, Bool-cases,
}
use quarrel.Prelude.Int.{ℤ, pos, negsuc, neg, is_neg, is_zero, eq}
use quarrel.Util.FixCountAllocator.{FixCountAllocator}
use quarrel.IoUring.UringErr
use quarrel.IoUring.{magnitude, not_positive}
use quarrel.IoUring.Worker.{new_worker}
use quarrel.IoUring.Service.{
  Slot, null, broken, running, joined, IoUring, contexts_of, is_running, resize, start_workers,
  start, all_running, join, stop,
}

not_positive_of : (x : ℤ) → 0 < magnitude x → not_positive x ≡ false
not_positive_of (pos n) h = ground arith
not_positive_of (negsuc n) h = absurd (omega arith)

module _ {Q : Type 0} where
  -- No worker runs.
  abbrev pub NoneRuns : List (Slot Q) → Type 0
  NoneRuns [] = Unit {0}
  NoneRuns (slot ∷ slots) = (is_running slot ≡ false) × NoneRuns slots

  resize-NoneRuns : (n : ℕ) (slots : List (Slot Q)) → NoneRuns slots → NoneRuns (resize n slots)
  unfolding resize
  resize-NoneRuns zero slots h = tt
  resize-NoneRuns (suc n) [] h = (refl, resize-NoneRuns n [] tt)
  resize-NoneRuns (suc n) (slot ∷ slots) h = (h.0, resize-NoneRuns n slots h.1)

  join-NoneRuns : (slots : List (Slot Q)) → NoneRuns (map join slots)
  join-NoneRuns [] = tt
  join-NoneRuns (null ∷ slots) = (refl, join-NoneRuns slots)
  join-NoneRuns (broken kept next ∷ slots) = (refl, join-NoneRuns slots)
  join-NoneRuns (running w ∷ slots) = (refl, join-NoneRuns slots)
  join-NoneRuns (joined w ∷ slots) = (refl, join-NoneRuns slots)

  -- What the loop of `Start` makes of elements: its code tells whether all workers run.
  record Made (queue : ℕ → Q) (depth : ℕ) (pool : FixCountAllocator ℕ) (slots : List (Slot Q))
      (answers : List (ℤ × ℤ)) : Type 0 where
    code : ℤ
    made : List (Slot Q)
    runs : start_workers queue depth pool slots answers ≡ some (code, made)
    tells : all_running made ≡ is_zero code

  start_workers-Made :
      (queue : ℕ → Q) (depth : ℕ) (pool : FixCountAllocator ℕ) (slots : List (Slot Q))
      (answers : List (ℤ × ℤ))
      → NoneRuns slots
      → Made queue depth pool slots answers
  unfolding start_workers
  start_workers-Made queue depth pool [] answers h = record {
    code = pos 0;
    made = [];
    runs = refl;
    tells = refl;
  }
  start_workers-Made queue depth pool (slot ∷ slots) [] (idle, h) = record {
    code = UringErr.register_efd_failed;
    made = slot ∷ slots;
    runs = refl;
    tells = rw idle refl;
  }
  start_workers-Made queue depth pool (slot ∷ slots) ((efd, ret) ∷ answers) (idle, h) =
      elim (Bool-cases (is_neg efd)) [
        | inl e ↦ record {
          code = UringErr.register_efd_failed;
          made = slot ∷ slots;
          runs = rw (start_workers, e) refl;
          tells = rw idle refl;
        }
        | inr e ↦ elim (Bool-cases (is_zero ret)) [
          | inl f ↦
              let m = start_workers-Made queue depth pool slots answers h in
              record {
                code = m.code;
                made =
                    (let (kept, next) = contexts_of pool slot in
                      running (record (new_worker (queue depth) kept) { next = next }) ∷ m.made);
                runs = rw (start_workers, e, idle, f, m.runs) refl;
                tells = m.tells;
              }
          | inr f ↦ record {
            code = if eq ret (neg 12) then UringErr.lock_mem_not_enough else ret;
            made = (let (kept, next) = contexts_of pool slot in broken kept next ∷ slots);
            runs = rw (start_workers, e, idle, f) refl;
            tells = elim (Bool-cases (eq ret (neg 12))) [
              | inl g ↦ rw g refl
              | inr g ↦ rw (g, f) refl
            ];
          }
        ]
      ]

  -- No thread of the service runs.
  pub record IsIdle (r : IoUring Q) : Type 0 where
    pub quiet : r.reporting ≡ false
    pub none_runs : NoneRuns r.workers

  -- The service that `Stop` leaves, once it has joined all threads.
  abbrev pub stopped : IoUring Q → IoUring Q
  stopped r = record r { stop = true; reporting = false; workers = map join r.workers }

  -- The service once the loop of `Start` has ended so.
  abbrev ended : ℤ → List (Slot Q) → IoUring Q → IoUring Q
  ended code slots r = record r {
    stop = false;
    reporting = r.reporting || is_zero code;
    workers = slots;
  }

  start-ended :
      (queue : ℕ → Q) (answers : List (ℤ × ℤ)) (r : IoUring Q) (code : ℤ) (slots : List (Slot Q))
      → 0 < magnitude r.opt.instances
      → r.reporting ≡ false
      → start_workers queue
          (magnitude r.opt.iodepth)
          r.waiting_req
          (resize (magnitude r.opt.instances) r.workers)
          answers
        ≡ some (code, slots)
      → start queue answers r ≡ some (code, ended code slots r)
  unfolding start
  start-ended queue answers r code slots some_ quiet e = elim (Bool-cases (is_zero code)) [
    | inl f ↦ rw (start, not_positive_of r.opt.instances some_, e, quiet, f) refl
    | inr f ↦ rw (start, not_positive_of r.opt.instances some_, e, quiet, f) refl
  ]

  stop-ended :
      (code : ℤ) (slots : List (Slot Q)) (r : IoUring Q)
      → r.reporting ≡ false
      → all_running slots ≡ is_zero code
      → stop (ended code slots r)
        ≡ (if is_zero code then some (pos 0, stopped (ended code slots r)) else none)
  unfolding stop
  stop-ended code slots r quiet e = elim (Bool-cases (is_zero code)) [
    | inl f ↦ rw (stop, e, quiet, f) refl
    | inr f ↦ rw (stop, e, quiet, f) refl
  ]

  -- `Start` and then `Stop` of a service of at least one instance in which no thread runs, as before
  -- the first `Start` and after any `Start` and `Stop` that returned 0, whatever the system answers to
  -- `eventfd` and `io_uring_queue_init` for each instance: `Start` returns a code and does not end the
  -- process; if the code is 0, then all workers run, and `Stop` joins them and the reporter, returns 0
  -- and leaves a service in which again no thread runs; if it is any other code, then `Stop`, which
  -- the destructor calls, follows a null pointer or joins a thread that never ran or was joined
  -- before.
  pub start_decides_stop :
      (queue : ℕ → Q) (answers : List (ℤ × ℤ)) (r : IoUring Q)
      → 0 < magnitude r.opt.instances
      → IsIdle r
      → (code : ℤ) × (r' : IoUring Q) × (start queue answers r ≡ some (code, r'))
        × (all_running r'.workers ≡ is_zero code)
        × (stop r' ≡ (if is_zero code then some (pos 0, stopped r') else none))
        × IsIdle (stopped r')
  start_decides_stop queue answers r some_ idle =
      let m =
        start_workers-Made queue (magnitude r.opt.iodepth) r.waiting_req
          (resize (magnitude r.opt.instances) r.workers) answers
          (resize-NoneRuns (magnitude r.opt.instances) r.workers idle.none_runs) in
      (
        m.code,
        ended m.code m.made r,
        start-ended queue answers r m.code m.made some_ idle.quiet m.runs,
        m.tells,
        stop-ended m.code m.made r idle.quiet m.tells,
        record { quiet = refl; none_runs = join-NoneRuns m.made },
      )
