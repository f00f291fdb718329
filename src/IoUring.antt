-- ===== src/IoUring.antt =====
-- util/iouring.h and util/iouring.cc: the options and the requests. A file descriptor and a buffer
-- are numbers, a callback with its argument is a number too.
pub mod UringErr
pub mod Statistic
pub mod Worker
pub mod Kernel
pub mod Poll
pub mod Sync
pub mod Service
pub mod Laws
use quarrel.Prelude.{ℕ, ◌+◌, ◌-◌, ◌%◌, ◌^◌, Bool, true, false, ◌==◌, ltb, if◌then◌else◌}
use quarrel.Prelude.Int.{ℤ, pos, negsuc, neg, is_neg, eq}
use quarrel.Prelude.Words.{u64}

pub record UringOptions : Type 0 where
  pub iodepth : ℤ
  pub instances : ℤ
  pub max_batch_num : ℤ
  pub dispatch_type : ℤ
  pub enable_sq_thread : Bool
  pub enable_io_dev_poll : Bool
  pub enable_no_drop : Bool

-- `x <= 0`
abbrev pub not_positive : ℤ → Bool
not_positive (pos n) = n == 0
not_positive (negsuc n) = true

-- The value of an `int` that is not negative.
abbrev pub magnitude : ℤ → ℕ
magnitude (pos n) = n
magnitude (negsuc n) = 0

abbrev pub default_to : ℕ → ℤ → ℕ
default_to n x = if not_positive x then n else magnitude x

-- `SanitizeOptions`; the two increments stay within an `int` where `iodepth` is not its maximum.
unfoldable pub sanitize_options : UringOptions → UringOptions
sanitize_options opt =
    let depth = default_to 256 opt.iodepth in
    let batch = default_to 256 opt.max_batch_num in
    record opt {
      instances = pos (default_to 1 opt.instances);
      iodepth = pos (depth + 1);
      max_batch_num = pos ((if ltb depth batch then depth else batch) + 1);
      enable_sq_thread = false;
      enable_io_dev_poll = false;
    }

-- The types of the requests in the queues. REQ_TYPE_INTERNAL_REQ is only that of the notifier, and
-- the bounds of the enumeration are no request's.
pub data ReqType : Type 0 where
  read : ReqType
  wriet : ReqType
  read_batch : ReqType
  wriet_batch : ReqType

-- `PendingReq`; `done` stands for `done_` with its argument `ud_`.
pub record PendingReq : Type 0 where
  pub fd : ℤ
  pub type : ReqType
  pub buff : ℕ
  pub size : ℕ  -- uint64_t
  pub offset : ℕ  -- uint64_t
  pub done : ℕ

-- The request that each of the four asynchronous operations issues.
unfoldable pub make_request : ReqType → ℤ → ℕ → ℕ → ℕ → ℕ → PendingReq
make_request type fd offset buff size done = record {
  fd = fd;
  type = type;
  buff = buff;
  size = size;
  offset = offset;
  done = done;
}

-- `fd` as a `size_t`
abbrev as_size : ℤ → ℕ
as_size (pos n) = u64 n
as_size (negsuc n) = u64 (2 ^ 64 - 1 - n)

-- `getWorkerIdxByFd` for `workers` workers; `rand` is what `rand()` returns.
unfoldable pub get_worker_idx_by_fd : UringOptions → ℕ → ℕ → ℤ → ℕ
get_worker_idx_by_fd opt workers rand fd =
    (if eq opt.dispatch_type (pos 1) then as_size fd else rand) % workers
