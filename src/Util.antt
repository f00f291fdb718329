-- ===== src/Util.antt =====
-- The containers of util/ on which the two roles stand.
pub mod LockFreeQueue
pub mod WaitGroup
pub mod TimingWheel
pub mod FixCountAllocator
pub mod WorkerPool
pub mod Future
