-- ===== src/Queue.antt =====
-- internal/store/queue.go and internal/library/queue.go: the download queue and the worker that
-- takes one episode of it at a time.
pub mod Rows
pub mod Claim
pub mod Worker
pub mod Step
pub mod Laws
pub mod Next
pub mod Front
pub mod Runs
pub mod Kept
pub mod Ends
pub mod Calls
pub mod Sound
pub mod Rounds
pub mod Drains
pub mod Dry
pub mod Patient
pub mod Liveness
pub mod Effects
pub mod Holds
pub mod Enqueue
pub mod Tests
