-- ===== src/IoUring/Sync.antt =====
-- util/iouring.cc: `doIoOpSync`, on which the four synchronous operations stand. The pool of the
-- events is over the queue that no file declares, so its two operations are given.
use quarrel.Prelude.{Option, none, some, if◌then◌else◌}
use quarrel.Prelude.Int.{ℤ, neg, is_zero, eq}
use quarrel.IoUring.{not_positive}
use quarrel.IoUring.UringErr

module _ {P : Type 0} {S : Type 0} (alloc_by_shard : ℤ → P → ℤ × P)
    (release_by_shard : ℤ → ℤ → P → P) where
  -- `op` issues the request for the event `notifier`, `polled` is what `poll` returns, and `answer`
  -- what the callback is called with. No value is one that the callback has not written.
  unfoldable pub do_io_op_sync : ℤ → (ℤ → S → ℤ × S) → ℤ → ℤ → P → S → Option ℤ × (P × S)
  do_io_op_sync fd op polled answer pool s =
      let (notifier, pool') = alloc_by_shard fd pool in
      if eq notifier (neg 1)
      then (some UringErr.notifier_fd_empty, (pool', s))
      else (let (ret, s') = op notifier s in
          let back = release_by_shard fd notifier pool' in
          if is_zero ret
          then (if not_positive polled then none else some answer, (back, s'))
          else (some ret, (back, s')))
