-- ===== src/IoUring/UringErr.antt =====
-- The error codes of util/iouring.h.
use quarrel.Prelude.Int.{ℤ, neg}

abbrev pub init_failed : ℤ
init_failed = neg 1001

abbrev pub queue_full : ℤ
queue_full = neg 1002

abbrev pub notifier_fd_empty : ℤ
notifier_fd_empty = neg 1003

abbrev pub register_efd_failed : ℤ
register_efd_failed = neg 1004

abbrev pub alloc_sqe_failed : ℤ
alloc_sqe_failed = neg 1005

abbrev pub alloc_io_ctx_failed : ℤ
alloc_io_ctx_failed = neg 1006

abbrev pub lock_mem_not_enough : ℤ
lock_mem_not_enough = neg 1007

abbrev pub submit_queue_full : ℤ
submit_queue_full = neg 1008
