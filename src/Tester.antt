-- ===== src/Tester.antt =====
-- The UI-test worker: arthur/miles/backend/worker/ui-test-worker/src. The children hold the
-- transition table with the machine's interface, the calls that the tasks make, the tasks, the main
-- loop, and their proofs.
pub mod Table
pub mod Successor
pub mod Machine
pub mod Tasks
pub mod Loop
pub mod Rules
pub mod Guarded
pub mod Heard
pub mod Frame
pub mod Runs
pub mod Ends
pub mod Cleanup
pub mod Analysis
pub mod Status
pub mod Fuel
pub mod Track
pub mod Attempt
pub mod Device
pub mod Restored
pub mod Worker
pub mod Tests
