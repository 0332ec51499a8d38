-- ===== src/Runtime.antt =====
-- apps/pi-runtime/src: the service that runs investigations and delivers their results.
pub mod Tasks
pub mod App
pub mod Service
pub mod Rows
pub mod Sound
pub mod Invariant
pub mod Once
pub mod Result
pub mod Resumable
mod Tests
