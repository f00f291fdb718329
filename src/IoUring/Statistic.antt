-- ===== src/IoUring/Statistic.antt =====
-- `UringStatisticType` of util/iouring.h; the counters stand at these numbers less one.
use quarrel.Prelude.{ℕ}

abbrev pub req : ℕ
req = 1

abbrev pub rsp : ℕ
rsp = 2

abbrev pub submit : ℕ
submit = 3

abbrev pub poll_fail : ℕ
poll_fail = 4

abbrev pub submit_fail : ℕ
submit_fail = 5

abbrev pub get_sqe_fail : ℕ
get_sqe_fail = 6

abbrev pub alloc_ctx_fail : ℕ
alloc_ctx_fail = 7

abbrev pub internal_req : ℕ
internal_req = 8

abbrev pub end : ℕ
end = 9
