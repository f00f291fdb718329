-- ===== src/Util/LockFreeQueue.antt =====
-- util/queue.h, one thread at a time: the ring of cells, with its flags and its wrapping counters.
-- A compare-and-swap succeeds, and a loop that waits for another thread's flag is `none`.
pub mod Fifo
use quarrel.Prelude.{
  ℕ, suc, ◌+◌, ◌-◌, ◌%◌, List, [], Option, none, some, Bool, true, false, ltb, leb, if◌then◌else◌,
  get_elem?, set, replicate,
}
use quarrel.Prelude.Words.{u64, all_ones}

-- `RT_OK`, `RT_FULL`, `RT_EMPTY`, `RT_ERR`
pub data Code : Type 0 where
  rt_ok rt_full rt_empty rt_err : Code

-- `FLAG_NULL`, `FLAG_SETTOOK`, `FLAG_SETED`, `FLAG_GETTOOK`
pub data Flag : Type 0 where
  flag_null flag_settook flag_seted flag_gettook : Flag

-- `data` is memory with no value until the first write.
pub record Cell (T : Type 0) : Type 0 where
  pub flag : Flag
  pub datum : Option T

pub record LockFreeQueue (T : Type 0) : Type 0 where
  pub is_init : Bool
  pub head : ℕ  -- uint64_t, where the next value goes
  pub tail : ℕ  -- uint64_t, where the next value is taken
  pub size : ℕ  -- uint32_t
  pub cells : List (Cell T)

module _ {T : Type 0} where
  unfoldable pub blank : LockFreeQueue T
  blank = record { is_init = false; head = 0; tail = 0; size = 0; cells = [] }

  unfoldable pub init : ℕ → LockFreeQueue T → LockFreeQueue T
  init size q = if q.is_init then q else record {
    is_init = true;
    head = 0;
    tail = 0;
    size = size;
    cells = replicate (suc size) (record { flag = flag_null; datum = none });
  }

  -- The branch of `Enqueue` that `head` has passed 2 ^ 64 and `tail` has not.
  unfoldable pub rebase : LockFreeQueue T → LockFreeQueue T
  rebase q =
      let new_tail = q.tail % q.size in
      record q { head = u64 (all_ones - q.tail + q.head + 1 + new_tail); tail = new_tail }

  -- `Enqueue` once the index `old_head` is taken.
  unfoldable pub fill : T → LockFreeQueue T → Option (Code × LockFreeQueue T)
  fill val q =
      let at = q.head % q.size in
      elim (get_elem? q.cells at) [
        | none ↦ none
        | some c ↦ elim c.flag [
          | flag_null ↦ some (
            rt_ok,
            record q {
              head = u64 (q.head + 1);
              cells = set q.cells at (record { flag = flag_seted; datum = some val });
            },
          )
          | _ ↦ none
        ]
      ]

  unfoldable pub enqueue_from : T → LockFreeQueue T → Option (Code × LockFreeQueue T)
  unfolding fill
  enqueue_from val q = if ltb (q.head - q.tail) q.size then fill val q else some (rt_full, q)

  -- `Enqueue(val, false)`
  unfoldable pub enqueue : T → LockFreeQueue T → Option (Code × LockFreeQueue T)
  unfolding enqueue_from rebase
  enqueue val q =
      if q.is_init
      then (if leb q.tail q.head
          then enqueue_from val q
          else if leb (rebase q).tail (rebase q).head
          then enqueue_from val (rebase q)
          else none)
      else some (rt_err, q)

  -- `Dequeue(val, false)`; the value beside the code is what is moved to `val`.
  unfoldable pub dequeue : LockFreeQueue T → Option (Code × Option T × LockFreeQueue T)
  dequeue q =
      let at = q.tail % q.size in
      if q.is_init
      then (if ltb q.tail q.head
          then elim (get_elem? q.cells at) [
            | none ↦ none
            | some c ↦ elim c.flag [
              | flag_seted ↦ some (
                rt_ok,
                c.datum,
                record q {
                  tail = u64 (q.tail + 1);
                  cells = set q.cells at (record c { flag = flag_null });
                },
              )
              | _ ↦ none
            ]
          ]
          else some (rt_empty, none, q))
      else some (rt_err, none, q)

  -- `Size()`
  unfoldable pub count : LockFreeQueue T → ℕ
  count q = if ltb q.tail q.head then q.head - q.tail else 0
