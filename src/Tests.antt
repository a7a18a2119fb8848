-- ===== src/Tests.antt =====
-- Small inputs: what the code gives for them, and an instance of each theorem that has conditions.
pub mod Data
pub mod Buffers
pub mod Manager
pub mod Bodies
pub mod Selectors
pub mod Requests
pub mod Responses
pub mod Connections
pub mod Start
pub mod Runs
pub mod Started
