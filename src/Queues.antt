-- ===== src/Queues.antt =====
-- The bounded queues of include/: three single-producer rings over free-running indices, the ring
-- buffer of the indicators, and the tick buffer.
mod Tests
pub mod Window
pub mod Fifo
pub mod LockFree
pub mod Spsc
pub mod SpscRing
pub mod RingBuffer
pub mod TickBuffer
