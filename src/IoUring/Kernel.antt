-- ===== src/IoUring/Kernel.antt =====
-- util/iouring.cc: what the kernel answers, and what `pollLoop` does with a completion.
use quarrel.Prelude.{
  ℕ, suc, ◌-◌, List, [], ◌∷◌, Option, none, some, Bool, true, false, ◌==◌, if◌then◌else◌,
}
use quarrel.Prelude.Int.{ℤ}
use quarrel.Prelude.Words.{u32}
use quarrel.Util.FixCountAllocator.{Backing, release_by_shard}
use quarrel.IoUring.{PendingReq, read, wriet, read_batch, wriet_batch}
use quarrel.IoUring.Statistic
use quarrel.IoUring.Worker.{
  UserData, notifier, context, own, given, Sqe, poll_add, readv, writev, WorkerInfo, bump, notify,
}

-- What `io_uring_wait_cqe` or `io_uring_peek_cqe` finds: nothing, or a completion.
pub data Polled : Type 0 where
  failed : Polled
  cqe : UserData → ℤ → Polled

-- The kernel in one turn: the completion, how many entries of the ring are vacant, and what
-- `io_uring_submit` returns for so many prepared entries, once it is not interrupted any more.
pub record Kernel : Type 0 where
  pub polled : Polled
  pub vacant : ℕ
  pub submit : ℕ → ℤ

-- `req_alloc` and `req_release`, for contexts known by their addresses.
abbrev pub heap : Backing ℕ ℕ
heap = record { alloc = λ next. (next, suc next); release = λ ctx next. next }

abbrev pub user_data : Sqe → Option ℕ
user_data poll_add = none
user_data (readv fd iov num offset ctx) = some ctx
user_data (writev fd iov num offset ctx) = some ctx

abbrev pub data_of : Sqe → UserData
data_of s = elim (user_data s) [ none ↦ notifier | some ctx ↦ context ctx ]

-- Is this the entry of the notifier, or of the context at an address?
abbrev pub is_notifier : UserData → Bool
is_notifier notifier = true
is_notifier (context a) = false

abbrev pub is_context : ℕ → UserData → Bool
is_context a notifier = false
is_context a (context b) = a == b

-- Take the request out of the context at an address. No result is a context that is not in use.
abbrev pub take_context : ℕ → List (ℕ × PendingReq) → Option (PendingReq × List (ℕ × PendingReq))
take_context a [] = none
take_context a ((b, req) ∷ cs) =
    let rest = take_context a cs in
    if a == b
    then some (req, cs)
    else elim rest [ none ↦ none | some (r, cs') ↦ some (r, (b, req) ∷ cs') ]

-- The kernel completes an entry.
abbrev pub land : (UserData → Bool) → List UserData → List UserData
land f [] = []
land f (d ∷ ds) = let rest = land f ds in if f d then ds else d ∷ rest

-- The entry that is prepared for a request in the context `ctx`.
unfoldable pub prepare : ℕ → PendingReq → Sqe
prepare ctx req = elim req.type [
  | read ↦ readv req.fd (own req.buff req.size) 1 req.offset ctx
  | wriet ↦ writev req.fd (own req.buff req.size) 1 req.offset ctx
  | read_batch ↦ readv req.fd (given req.buff) (u32 req.size) req.offset ctx
  | wriet_batch ↦ writev req.fd (given req.buff) (u32 req.size) req.offset ctx
]

module _ {Q : Type 0} where
  -- `waiting_req_.ReleaseByShard(wid, ctx)` for a context that is not in use any more.
  unfoldable pub release_context : ℕ → ℕ → WorkerInfo Q → WorkerInfo Q
  unfolding release_by_shard
  release_context wid ctx w = elim (release_by_shard heap wid ctx (w.waiting_req, w.next)) [
    | none ↦ w
    | some (pool, next) ↦ record w { waiting_req = pool; next = next }
  ]

  -- A context is done with: its callback is called, and it is released. No result is a context that
  -- is not in use.
  unfoldable pub finish : ℕ → ℕ → ℤ → WorkerInfo Q → Option (WorkerInfo Q)
  unfolding notify release_context
  finish wid ctx ret w = elim (take_context ctx w.contexts) [
    | none ↦ none
    | some (req, cs) ↦ some (release_context wid ctx (notify req ret (record w { contexts = cs })))
  ]

  -- The branch on a completion.
  unfoldable pub complete : ℕ → UserData → ℤ → WorkerInfo Q → Option (WorkerInfo Q)
  unfolding finish bump
  complete wid notifier res w = some (
      bump Statistic.internal_req 1 (record w {
        uncompleted = w.uncompleted - 1;
        flying = land is_notifier w.flying;
        rearm_notifier = true;
        signals = 0;
      }))
  complete wid (context a) res w =
      let w' = record w {
        uncompleted = w.uncompleted - 1;
        flying = land (is_context a) w.flying;
      } in
      elim (finish wid a res w') [ none ↦ none | some w'' ↦ some (bump Statistic.rsp 1 w'') ]
