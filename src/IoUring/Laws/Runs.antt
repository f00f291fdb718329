-- ===== src/IoUring/Laws/Runs.antt =====
-- All that can happen to a worker, from its start.
use quarrel.Prelude.{
  ℕ, ◌≤◌, ◌<◌, ◌≡◌, refl, sym, subst, ◌∙◌, ap, List, [], ◌∷◌, Option, none, some, Bool, arith,
  tally, tally-append,
}
use quarrel.Prelude.Int.{ℤ, pos, negsuc}
use quarrel.Util.FixCountAllocator.{FixCountAllocator}
use quarrel.IoUring.{PendingReq, UringOptions, magnitude, sanitize_options, default_to}
use quarrel.IoUring.Worker.{ReqQueue, WorkerInfo, new_worker, issue_request}
use quarrel.IoUring.Kernel.{Kernel}
use quarrel.IoUring.Poll.{poll_turn}
use quarrel.IoUring.Laws.{held}
use quarrel.IoUring.Laws.Sound.{IsSound}
use quarrel.IoUring.Laws.Submit.{TakesAll, InFlight, poll_turn-IsSound}

default_to_positive : (n : ℕ) (x : ℤ) → 0 < n → 0 < default_to n x
default_to_positive n (pos k) h = ground arith
default_to_positive n (negsuc k) h = h

pub sanitize_options_lem :
    (opt : UringOptions)
    → let o = sanitize_options opt in
      (0 < magnitude o.instances)
      × (1 < magnitude o.max_batch_num)
      × (magnitude o.max_batch_num ≤ magnitude o.iodepth)
unfolding sanitize_options
sanitize_options_lem opt =
    let a = default_to_positive 1 opt.instances (omega arith) in
    let b = default_to_positive 256 opt.iodepth (omega arith) in
    let c = default_to_positive 256 opt.max_batch_num (omega arith) in ground arith

module _ {Q : Type 0} (queue : ReqQueue Q) (opt : UringOptions) (wid : ℕ) where
  -- The states that a worker reaches, with the requests that `issueRequest` took, the last one first.
  pub data Reach : List PendingReq → WorkerInfo Q → Type 0 where
    begin : (q : Q) (pool : FixCountAllocator ℕ) → queue.items q ≡ [] → Reach [] (new_worker q pool)
    issue :
        {xs : List PendingReq} {w : WorkerInfo Q} (req : PendingReq) (q : Q)
        → Reach xs w
        → queue.enqueue req w.req_queue ≡ some q
        → Reach (req ∷ xs) (issue_request queue req w).1
    turn :
        {xs : List PendingReq} {w w' : WorkerInfo Q} (kernel : Kernel)
        → Reach xs w
        → InFlight kernel.polled w.flying
        → TakesAll kernel
        → poll_turn queue (sanitize_options opt) wid kernel w ≡ some w'
        → Reach xs w'

  -- What is known of a state that is reached.
  abbrev pub Serves : List PendingReq → WorkerInfo Q → Type 0
  Serves xs w =
      let o = sanitize_options opt in
      IsSound (magnitude o.iodepth) (magnitude o.max_batch_num) w
      × ((p : PendingReq → Bool) → held queue p w ≡ tally p xs)

  new_worker-Serves :
      (q : Q) (pool : FixCountAllocator ℕ) → queue.items q ≡ [] → Serves [] (new_worker q pool)
  unfolding new_worker
  new_worker-Serves q pool e = (
    record {
      taken = refl;
      counted = refl;
      matched = λ a. refl;
      armed = omega arith;
      bounded = omega (arith, sanitize_options_lem opt);
    },
    λ p. omega (arith, ap (tally p) e),
  )

  issue_request-Serves :
      (xs : List PendingReq) (w : WorkerInfo Q) (req : PendingReq) (q : Q)
      → queue.enqueue req w.req_queue ≡ some q
      → Serves xs w
      → Serves (req ∷ xs) (issue_request queue req w).1
  unfolding issue_request
  issue_request-Serves xs w req q e (s, h) =
      rw (issue_request, e)
        (
          record {
            taken = s.taken;
            counted = s.counted;
            matched = s.matched;
            armed = s.armed;
            bounded = s.bounded;
          },
          λ p. omega (
            arith,
            h p,
            ap (tally p) (queue.items-enqueue req w.req_queue q e),
            tally-append p (queue.items w.req_queue) (req ∷ []),
          ),
        )

  -- Some result of a turn is the result.
  only_result : (a b : WorkerInfo Q) → some a ≡ some b → a ≡ b
  only_result a b e = ap (λ (o : Option (WorkerInfo Q)). elim o [ none ↦ a | some x ↦ x ]) e

  -- In whatever order a worker, started with an empty queue and the sanitized options, is given
  -- requests and makes turns, with a kernel that completes only what is in flight and takes all that
  -- is submitted: `uncompleted` is the number of entries in flight and stays below the sum of
  -- `iodepth` and `max_batch_num`; the notifier is armed or to be armed; each context in use belongs
  -- to one entry in flight; and each request that `issueRequest` took, counted as often as it was
  -- taken, is in exactly one place: in the queue, in a context in flight, or called back.
  pub Reach-Serves : {xs : List PendingReq} {w : WorkerInfo Q} → Reach xs w → Serves xs w
  Reach-Serves (begin q pool e) = new_worker-Serves q pool e
  Reach-Serves (issue {xs} {w} req q r e) = issue_request-Serves xs w req q e (Reach-Serves r)
  Reach-Serves (turn {xs} {w} {w'} kernel r fly takes e) =
      let (s, h) = Reach-Serves r in
      let o = sanitize_options opt in
      let (x, run, t, k) =
        poll_turn-IsSound queue o wid kernel w s (omega (arith, sanitize_options_lem opt)) fly
          takes in
      let same : x ≡ w' = only_result x w' (sym run ∙ e) in
      subst (Serves xs) same (t, λ p. k p ∙ h p)
