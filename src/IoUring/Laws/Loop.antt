-- ===== src/IoUring/Laws/Loop.antt =====
-- The loop that fills a batch.
use quarrel.Prelude.{
  ℕ, zero, suc, ◌+◌, ◌≤◌, ◌<◌, ◌≡◌, ◌⊎◌, inl, inr, refl, ◌∙◌, ap, Bool, ltb, arith, tally,
  Bool-cases, Option-cases,
}
use quarrel.Prelude.Words.{sub_u32}
use quarrel.Util.FixCountAllocator.{alloc_by_shard}
use quarrel.IoUring.{PendingReq}
use quarrel.IoUring.UringErr
use quarrel.IoUring.Statistic
use quarrel.IoUring.Worker.{ReqQueue, bump, notify}
use quarrel.IoUring.Kernel.{heap}
use quarrel.IoUring.Poll.{Batch, put_request, fill_step, fill}
use quarrel.IoUring.Laws.{held}
use quarrel.IoUring.Laws.Sound.{one}
use quarrel.IoUring.Laws.Fill.{IsFilled, size, SameHeld, Grows, moved-IsFilled, put_request-Grows}

module _ {Q : Type 0} (queue : ReqQueue Q) (depth batch wid : ℕ) where
  Grows-from :
      (more : (PendingReq → Bool) → ℕ) (b b' : Batch Q) (r : Batch Q ⊎ Batch Q)
      → size b' ≡ size b
      → ((p : PendingReq → Bool) → held queue p b.worker ≡ more p + held queue p b'.worker)
      → Grows queue depth batch wid more b' r
      → Grows queue depth batch wid (λ p. 0) b r
  Grows-from more b b' (inl x) same less (s, e, h) = (s, e ∙ same, λ p. omega (arith, h p, less p))
  Grows-from more b b' (inr x) same less (s, e, h) =
      (s, e ∙ ap suc same, λ p. omega (arith, h p, less p))

  fill_step-Grows :
      (b : Batch Q)
      → IsFilled depth batch b
      → Grows queue depth batch wid (λ p. 0) b (fill_step queue wid depth b)
  unfolding fill_step bump notify
  fill_step-Grows b s = elim (Bool-cases (ltb b.worker.uncompleted depth)) [
    | inr e ↦ rw (fill_step, e) (s, refl, λ p. omega arith)
    | inl e ↦ elim (Option-cases (queue.dequeue b.worker.req_queue)) [
      | inl n ↦ rw (fill_step, e, n) (s, refl, λ p. omega arith)
      | inr ((req, q), n) ↦
          let lt : b.worker.uncompleted < depth = ground arith in
          elim (Option-cases (alloc_by_shard heap wid (b.worker.waiting_req, b.worker.next))) [
            | inl m ↦
                rw (fill_step, e, n, m)
                  (
                    moved-IsFilled queue depth batch wid
                        (notify req UringErr.alloc_io_ctx_failed (
                          bump Statistic.alloc_ctx_fail 1 (record b.worker {
                            req_queue = q;
                            unsubmit = sub_u32 b.worker.unsubmit 1;
                          })))
                        b s,
                    refl,
                    λ p.
                        omega
                          (arith, ap (tally p) (queue.items-dequeue req b.worker.req_queue q n)),
                  )
            | inr ((ctx, (pool, next)), m) ↦
                let b' : Batch Q = record b {
                  worker = record b.worker {
                    req_queue = q;
                    unsubmit = sub_u32 b.worker.unsubmit 1;
                    waiting_req = pool;
                    next = next;
                  };
                } in
                rw (fill_step, e, n, m)
                  (Grows-from (λ p. one (p req)) b b' (put_request wid req ctx b') refl
                    (λ p.
                      omega (arith, ap (tally p) (queue.items-dequeue req b.worker.req_queue q n)))
                    (put_request-Grows queue depth batch wid req ctx b'
                      (moved-IsFilled queue depth batch wid b'.worker b s) lt))
          ]
    ]
  ]

  fill_once :
      (room : ℕ) (b : Batch Q) (r : Batch Q ⊎ Batch Q)
      → Grows queue depth batch wid (λ p. 0) b r
      → ((x : Batch Q)
          → IsFilled depth batch x
          → let b' = fill queue wid depth room x in
            IsFilled depth batch b'
            × (size b' ≤ size x + room)
            × SameHeld queue depth batch wid x.worker b'.worker)
      → let b' : Batch Q = elim r [ inl x ↦ x | inr x ↦ fill queue wid depth room x ] in
        IsFilled depth batch b'
        × (size b' ≤ size b + suc room)
        × SameHeld queue depth batch wid b.worker b'.worker
  fill_once room b (inl x) (f, e, h) ih = (f, omega arith, λ p. omega (arith, h p))
  fill_once room b (inr x) (f, e, h) ih =
      let (g, le, k) = ih x f in (g, omega arith, λ p. omega (arith, h p, k p))

  -- The loop ends with a batch of at most `batch` entries.
  pub fill_lem :
      (room : ℕ) (b : Batch Q)
      → IsFilled depth batch b
      → let b' = fill queue wid depth room b in
        IsFilled depth batch b'
        × (size b' ≤ size b + room)
        × SameHeld queue depth batch wid b.worker b'.worker
  unfolding fill
  fill_lem zero b s = (s, omega arith, λ p. refl)
  fill_lem (suc room) b s =
      fill_once room b (fill_step queue wid depth b) (fill_step-Grows b s)
        (λ x f. fill_lem room x f)
