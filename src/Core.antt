-- ===== src/Core.antt =====
-- engine/src/hypernet/core: what runs on a worker.
pub mod Timer
pub mod Config
