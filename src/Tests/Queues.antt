-- ===== src/Tests/Queues.antt =====
-- The queue at work.
use quarrel.Prelude.{ℕ, [], ◌∷◌, arith}
use quarrel.Util.LockFreeQueue.{LockFreeQueue, init, blank}
use quarrel.Util.LockFreeQueue.Fifo.Cells.{Holds, filled, filled-Holds}
use quarrel.Util.LockFreeQueue.Fifo.{Enqueues, Dequeues, enqueue-Holds, dequeue-Holds, init-Holds}

abbrev empty : LockFreeQueue ℕ
empty = init 2 blank

empty-Holds : Holds [] empty
empty-Holds = init-Holds 2 (omega arith)

enqueue-Holds_example : Enqueues 4 [] empty
unfolding init blank
enqueue-Holds_example = enqueue-Holds 4 [] empty empty-Holds (omega arith)

abbrev one : LockFreeQueue ℕ
one = filled 4 empty

one-Holds : Holds (4 ∷ []) one
unfolding init blank
one-Holds = filled-Holds 4 [] empty empty-Holds (omega arith) (omega arith)

dequeue-Holds_example : Dequeues (4 ∷ []) one
unfolding init blank
dequeue-Holds_example = dequeue-Holds (4 ∷ []) one one-Holds (omega arith)
