-- ===== src/Server.antt =====
-- The server of src/main.rs as a whole: what its handlers, its polling of peers and the compaction
-- of its database do together, and the resource of keys behind the middleware.
pub mod Integrity
pub mod Polling
pub mod Routes
pub mod Register
pub mod App
pub mod Chain
pub mod Scenarios
pub mod Start
pub mod Concurrent
