-- ===== src/Tests.antt =====
-- Runs of the model, and the theorems at concrete inputs.
pub mod Rings
pub mod Frames
pub mod Sessions
pub mod Applications
pub mod Connector
pub mod Timeouts
pub mod Events
pub mod Dials
pub mod Managers
pub mod Workers
pub mod Listeners
pub mod Engines
pub mod Services
