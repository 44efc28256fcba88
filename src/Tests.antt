-- ===== src/Tests.antt =====
-- The machine and the documents of the examples, and one application of each theorem to them.
pub mod Launches
pub mod Machine
pub mod Blocks
pub mod Boots
pub mod Documents
pub mod Handlers
pub mod Fetches
pub mod Files
pub mod Tasks
pub mod Devices
pub mod Drives
pub mod Programs
