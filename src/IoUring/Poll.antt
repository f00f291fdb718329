-- ===== src/IoUring/Poll.antt =====
-- util/iouring.cc: `pollLoop`, one turn of its loop. What the kernel answers is given.
use quarrel.Prelude.{
  ℕ, zero, suc, ◌+◌, ◌-◌, List, [], ◌∷◌, ◌++◌, Option, none, some, false, ◌⊎◌, inl, inr, ◌&&◌, ◌==◌,
  ltb, if◌then◌else◌, length, map, take, drop,
}
use quarrel.Prelude.Int.{ℤ, pos, neg, eq}
use quarrel.Prelude.Words.{sub_u32}
use quarrel.Util.FixCountAllocator.{alloc_by_shard}
use quarrel.IoUring.{PendingReq, UringOptions, magnitude, not_positive}
use quarrel.IoUring.UringErr
use quarrel.IoUring.Statistic
use quarrel.IoUring.Worker.{ReqQueue, poll_add, WorkerInfo, bump, notify}
use quarrel.IoUring.Kernel.{
  failed, cqe, Kernel, heap, data_of, prepare, release_context, finish, complete,
}

-- The worker inside of a turn: the entries still vacant, the notifier's entries, and `unsubmitted`.
pub record Batch (Q : Type 0) : Type 0 where
  pub worker : WorkerInfo Q
  pub vacant : ℕ
  pub notifier_sqe : ℕ
  pub unsubmitted : List ℕ

module _ {Q : Type 0} where
  -- The notifier is armed again, if an entry is vacant.
  unfoldable pub rearm : ℕ → WorkerInfo Q → Batch Q
  rearm vacant w =
      if w.rearm_notifier && ltb 0 vacant
      then record {
        worker = record w { prepared = w.prepared ++ poll_add ∷ [] };
        vacant = vacant - 1;
        notifier_sqe = 1;
        unsubmitted = [];
      }
      else record { worker = w; vacant = vacant; notifier_sqe = 0; unsubmitted = [] }

  -- A request that was dequeued, with the context for it: the first result ends the loop.
  unfoldable pub put_request : ℕ → PendingReq → ℕ → Batch Q → Batch Q ⊎ Batch Q
  unfolding prepare notify release_context bump
  put_request wid req ctx b =
      if b.vacant == 0
      then inl (record b {
        worker =
            bump Statistic.get_sqe_fail 1
              (release_context wid ctx (notify req UringErr.alloc_sqe_failed b.worker));
      })
      else inr (record b {
        worker = record b.worker {
          contexts = (ctx, req) ∷ b.worker.contexts;
          prepared = b.worker.prepared ++ prepare ctx req ∷ [];
        };
        vacant = b.vacant - 1;
        unsubmitted = b.unsubmitted ++ ctx ∷ [];
      })

  -- One turn of the loop that fills the batch.
  unfoldable pub fill_step : ReqQueue Q → ℕ → ℕ → Batch Q → Batch Q ⊎ Batch Q
  unfolding alloc_by_shard notify put_request bump
  fill_step queue wid iodepth b =
      if ltb b.worker.uncompleted iodepth
      then elim (queue.dequeue b.worker.req_queue) [
        | none ↦ inl b
        | some (req, q) ↦
            let w = record b.worker { req_queue = q; unsubmit = sub_u32 b.worker.unsubmit 1 } in
            elim (alloc_by_shard heap wid (w.waiting_req, w.next)) [
              | none ↦ inl (record b {
                worker =
                    notify req UringErr.alloc_io_ctx_failed (bump Statistic.alloc_ctx_fail 1 w);
              })
              | some (ctx, (pool, next)) ↦
                  put_request wid req ctx
                    (record b { worker = record w { waiting_req = pool; next = next } })
            ]
      ]
      else inl b

  -- The loop, with room for so many requests more.
  unfoldable pub fill : ReqQueue Q → ℕ → ℕ → ℕ → Batch Q → Batch Q
  unfolding fill_step
  fill queue wid iodepth zero b = b
  fill queue wid iodepth (suc room) b = elim (fill_step queue wid iodepth b) [
    | inl b' ↦ b'
    | inr b' ↦ fill queue wid iodepth room b'
  ]

  -- The callbacks of a batch that was not submitted.
  unfoldable pub fail_all : ℕ → ℤ → List ℕ → WorkerInfo Q → Option (WorkerInfo Q)
  unfolding finish
  fail_all wid ret [] w = some w
  fail_all wid ret (ctx ∷ cs) w = elim (finish wid ctx ret w) [
    | none ↦ none
    | some w' ↦ fail_all wid ret cs w'
  ]

  -- `io_uring_submit` took the batch: `total` entries, of which the loop knows.
  unfoldable pub submitted : ℕ → WorkerInfo Q → WorkerInfo Q
  submitted total w = record w {
    rearm_notifier = false;
    uncompleted = w.uncompleted + total;
    flying = w.flying ++ map data_of (take total w.prepared);
    prepared = drop total w.prepared;
  }

  -- The submission of a batch that is not empty. No result is the assertion that all of the batch was
  -- submitted, or a context that is not in use.
  unfoldable pub submit_batch : ℕ → ℤ → ℕ → Batch Q → Option (WorkerInfo Q)
  unfolding fail_all submitted bump
  submit_batch wid ret total b =
      if not_positive ret
      then (let code = if eq ret (neg 16) then UringErr.submit_queue_full else ret in
          elim (fail_all wid code b.unsubmitted b.worker) [
            | none ↦ none
            | some w ↦ some (bump Statistic.submit 1 (bump Statistic.submit_fail 1 w))
          ])
      else if eq ret (pos total)
      then some (bump Statistic.submit 1 (submitted total b.worker))
      else none

  -- The end of a turn.
  unfoldable pub end_turn : ℕ → Batch Q → WorkerInfo Q → WorkerInfo Q
  unfolding bump
  end_turn max_batch b w =
      let user_req = length b.unsubmitted in
      let total = user_req + b.notifier_sqe in
      let w' = record w { wait_block = ltb total max_batch } in
      if ltb 0 user_req then bump Statistic.req user_req w' else w'

  -- What a turn does after the completion.
  unfoldable pub submit_phase :
      ReqQueue Q → UringOptions → ℕ → Kernel → WorkerInfo Q → Option (WorkerInfo Q)
  unfolding rearm fill submit_batch end_turn
  submit_phase queue opt wid kernel w =
      let armed = rearm kernel.vacant w in
      let max_batch = magnitude opt.max_batch_num in
      let b = fill queue wid (magnitude opt.iodepth) (max_batch - armed.notifier_sqe) armed in
      let total = length b.unsubmitted + b.notifier_sqe in
      let ret = kernel.submit (length b.worker.prepared) in
      if ltb 0 total
      then elim (submit_batch wid ret total b) [
        | none ↦ none
        | some w' ↦ some (end_turn max_batch b w')
      ]
      else some (end_turn max_batch b b.worker)

  -- One turn of `pollLoop`.
  unfoldable pub poll_turn :
      ReqQueue Q → UringOptions → ℕ → Kernel → WorkerInfo Q → Option (WorkerInfo Q)
  unfolding complete submit_phase bump
  poll_turn queue opt wid kernel w = elim kernel.polled [
    | failed ↦
        if w.wait_block
        then some (bump Statistic.poll_fail 1 w)
        else submit_phase queue opt wid kernel w
    | cqe u res ↦ elim (complete wid u res w) [
      | none ↦ none
      | some w' ↦ submit_phase queue opt wid kernel w'
    ]
  ]
