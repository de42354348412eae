-- ===== src/Queue.antt =====
-- The in-memory job queue: src/orchestration/in-memory-job-queue.ts.
pub mod Jobs
pub mod InMemory
pub mod Loop
pub mod Order
mod Map
pub mod Events
mod SoundJob
pub mod Sound
pub mod Reach
pub mod Once
pub mod Work
pub mod Drain
