-- ===== src/Tests.antt =====
-- Runs of the model at concrete inputs, with a small stand-in for the crates.
pub mod World
pub mod Meets
pub mod Wire
mod Scenarios
mod Purchase
mod Start
mod Concurrent
mod Database
mod Payments
mod Middleware
mod Scripts
mod Server
mod Configuration
mod Register
mod App
mod Chain
